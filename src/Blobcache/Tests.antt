-- ===== src/Blobcache/Tests.antt =====
-- Runs of the blob cache, with a hash that gives every content 64 zeros, and the theorems about it
-- at concrete inputs.
use regcachectl.Base.{
  ◌≡◌, ◌≢◌, ◌↔◌, refl, true, false, none, some, arith, [], ◌∷◌, ◌++◌, if◌then◌else◌, ◌||◌, ◌&&◌,
  length, List, subst, inl, inr, Option-cases,
}
use regcachectl.Base.Results.{ok}
use regcachectl.Text.{Text, codes, eq, newline, has_byte, strip, is_empty, trim_space, trim_prefix}
use regcachectl.Text.Equality.{eq_iff}
use regcachectl.Dict.{get}
use regcachectl.Blobcache.Types.{
  Disk, empty_disk, Proxy, Request, Response, Reply, SidecarIo, Machine,
}
use regcachectl.Blobcache.Route.{sha256, v2, blobs, is_digest, match_blob, match_blob_iff}
use regcachectl.Blobcache.Sidecar.{IsEntry, IsSidecar, IsSidecar-nil}
use regcachectl.Blobcache.Record.{blob_name, content_of, record_entry}
use regcachectl.Blobcache.Recorded.{entries_in, mem-record_entry}
use regcachectl.Blobcache.Replies.{hit_reply}
use regcachectl.Blobcache.Stream.{stream_and_cache, temp_prefix}
use regcachectl.Blobcache.Serve.{serve_http, is_get, is_redirect}
use regcachectl.Blobcache.Integrity.{Grows, IsSound, serve_http-IsSound}
use regcachectl.Blobcache.Kept.{Keeps, AreFresh, serve_all, serve_http-Keeps}
use regcachectl.Blobcache.Store.{FreshTemp, is_stored, get-stream_and_cache, serve_http_hit}
use regcachectl.Blobcache.Fill.{Delivers, direct, serve_http_fill}
use regcachectl.Blobcache.Stats.{stats, stored_count, stored_bytes, stats_totals, total, IsBySize}

abbrev zeros : Text
zeros = codes "0000000000000000000000000000000000000000000000000000000000000000"

abbrev toy_hash : Text → Text
toy_hash s = zeros

abbrev digest : Text
digest = codes "sha256:0000000000000000000000000000000000000000000000000000000000000000"

abbrev io_fine : SidecarIo
io_fine = record { readable = true; mkdir = true; open_file = true }

abbrev answer_200 : Response
answer_200 = record { status = 200; headers = []; body = codes "layer"; truncated = false }

abbrev machine : Machine
machine = record {
  tag_io = io_fine;
  repo_io = io_fine;
  open_blob = true;
  bad_url = λ u. none;
  answer = λ o. ok answer_200;
  relay = λ r. record { status = 401; headers = []; body = [] };
  mkdir_blobs = none;
  temp_suffix = ok (codes "17");
  client_gone = false;
  rename = none;
}

abbrev proxy : Proxy
proxy = record { upstream = codes "https://repo.f5.com"; host = codes "repo.f5.com" }

abbrev pull : Request
pull = record {
  method = codes "GET";
  path = v2 ++ (codes "f5/app" ++ (blobs ++ digest));
  authorization = codes "Bearer x";
  accept = [];
}

abbrev empty_reply : Disk → Reply
empty_reply d = record { status = 200; headers = []; body = [] }

digest_fine : is_digest digest ≡ true
unfolding is_digest strip sha256
digest_fine = refl

repo_fine : (codes "f5/app" ≢ []) × (has_byte newline (codes "f5/app") ≡ false)
unfolding has_byte
repo_fine = (cc, refl)

matched : match_blob (v2 ++ (codes "f5/app" ++ (blobs ++ digest))) ≡ some (codes "f5/app", digest)
matched = (match_blob_iff _ (codes "f5/app") digest).1 (refl, repo_fine.0, repo_fine.1, digest_fine)

get_fine : is_get pull ≡ true
unfolding is_get eq
get_fine = refl

match_blob_iff_example :
    (match_blob (v2 ++ (codes "f5/app" ++ (blobs ++ digest))) ≡ some (codes "f5/app", digest)) ↔ (
      (v2 ++ (codes "f5/app" ++ (blobs ++ digest)) ≡ v2 ++ (codes "f5/app" ++ (blobs ++ digest)))
      × (codes "f5/app" ≢ [])
      × (has_byte newline (codes "f5/app") ≡ false)
      × (is_digest digest ≡ true))
match_blob_iff_example =
    match_blob_iff (v2 ++ (codes "f5/app" ++ (blobs ++ digest))) (codes "f5/app") digest

IsEntry-fine : IsEntry (codes "f5/app")
unfolding trim_space is_empty has_byte
IsEntry-fine = record { trimmed = refl; present = refl; one_line = refl }

new_file-IsSidecar : IsSidecar (content_of (get zeros []))
unfolding get
new_file-IsSidecar = IsSidecar-nil

mem-record_entry_example :
    ((n k : Text)
      → entries_in n (record_entry io_fine zeros (codes "f5/app") []) k
        ≡ ((eq zeros n && eq (codes "f5/app") k && (true && true)) || entries_in n [] k))
    × IsSidecar (content_of (get zeros (record_entry io_fine zeros (codes "f5/app") [])))
mem-record_entry_example =
    mem-record_entry io_fine zeros (codes "f5/app") [] IsEntry-fine new_file-IsSidecar

IsSound-empty : IsSound toy_hash empty_disk
unfolding get
IsSound-empty = record { at = λ n c h. cc }

serve_http-IsSound_example :
    IsSound toy_hash (serve_http toy_hash empty_reply proxy machine pull empty_disk).disk
serve_http-IsSound_example =
    serve_http-IsSound toy_hash empty_reply proxy machine pull empty_disk IsSound-empty

fresh : FreshTemp machine empty_disk
unfolding get
fresh suffix made = refl

serve_http-Keeps_example :
    Keeps toy_hash empty_disk (serve_http toy_hash empty_reply proxy machine pull empty_disk).disk
    × Grows toy_hash empty_disk (serve_http toy_hash empty_reply proxy machine pull empty_disk).disk
serve_http-Keeps_example = serve_http-Keeps toy_hash empty_reply proxy machine pull empty_disk fresh

stored : is_stored toy_hash machine digest answer_200 ≡ true
unfolding is_stored sha256 eq
stored = refl

get-stream_and_cache_example :
    get zeros (stream_and_cache toy_hash machine digest answer_200 empty_disk).0.blobs ≡ (
      if is_stored toy_hash machine digest answer_200 && eq (blob_name digest) zeros
      then some answer_200.body
      else get zeros empty_disk.blobs)
get-stream_and_cache_example =
    get-stream_and_cache toy_hash machine digest answer_200 empty_disk zeros fresh

abbrev warm_disk : Disk
warm_disk = record empty_disk { blobs_dir = true; blobs = (zeros, codes "layer") ∷ [] }

warm : get (blob_name digest) warm_disk.blobs ≡ some (codes "layer")
unfolding get blob_name trim_prefix strip sha256 eq
warm = refl

warm-IsSound : IsSound toy_hash warm_disk
unfolding get
warm-IsSound = record { at = λ n c h. ground (arith, eq_iff zeros n) }

serve_http_hit_example :
    ((serve_http toy_hash empty_reply proxy machine pull warm_disk).reply
      ≡ hit_reply digest (codes "layer"))
    × ((serve_http toy_hash empty_reply proxy machine pull warm_disk).sent ≡ [])
    × ((serve_http toy_hash empty_reply proxy machine pull warm_disk).disk.blobs ≡ warm_disk.blobs)
serve_http_hit_example =
    serve_http_hit toy_hash empty_reply proxy machine pull warm_disk (codes "f5/app") digest
      (codes "layer") get_fine matched warm refl

delivered : Delivers proxy machine pull answer_200
unfolding is_redirect
delivered = direct refl refl

absent : get (blob_name digest) empty_disk.blobs ≡ none
unfolding get
absent = refl

abbrev other_digest : Text
other_digest = codes "sha256:1111111111111111111111111111111111111111111111111111111111111111"

abbrev other_pull : Request
other_pull = record pull { path = v2 ++ (codes "f5/web" ++ (blobs ++ other_digest)) }

no_temp :
    (n : Text)
    → eq zeros n ≡ false
    → get n (serve_http toy_hash empty_reply proxy machine pull empty_disk).disk.blobs ≡ none
unfolding get
no_temp n h =
    let after = (serve_http toy_hash empty_reply proxy machine pull empty_disk).disk in
    elim (Option-cases (get n after.blobs)) [
      | inl none_there ↦ none_there
      | inr (c, there) ↦ absurd (
          ground (
            arith,
            (serve_http-Keeps toy_hash empty_reply proxy machine pull empty_disk fresh).1.each n c
                there,
            eq_iff zeros n,
          ))
    ]

other_temp : (suffix : Text) → codes "17" ≡ suffix → eq zeros (temp_prefix ++ suffix) ≡ false
unfolding eq temp_prefix
other_temp suffix h = subst (λ (x : Text). eq zeros (temp_prefix ++ x) ≡ false) h refl

later_fresh :
    AreFresh toy_hash empty_reply proxy
      ((machine, other_pull) ∷ [])
      (serve_http toy_hash empty_reply proxy machine pull empty_disk).disk
later_fresh = (λ suffix made. no_temp (temp_prefix ++ suffix) (other_temp suffix cc), tt)

serve_http_fill_example :
    let d' =
      serve_all toy_hash empty_reply proxy
        ((machine, other_pull) ∷ [])
        (serve_http toy_hash empty_reply proxy machine pull empty_disk).disk in
    (c : Text) × (toy_hash c ≡ toy_hash answer_200.body)
    × ((serve_http toy_hash empty_reply proxy machine pull d').reply ≡ hit_reply digest c)
    × ((serve_http toy_hash empty_reply proxy machine pull d').sent ≡ [])
    × (◌≡◌ {A = List (Machine × Request)} ((machine, other_pull) ∷ []) [] → c ≡ answer_200.body)
serve_http_fill_example =
    serve_http_fill toy_hash empty_reply proxy machine machine pull pull empty_disk
      ((machine, other_pull) ∷ []) (codes "f5/app") (codes "f5/app") digest answer_200 get_fine
      matched absent refl delivered fresh stored later_fresh get_fine matched refl

stats_totals_example :
    ((stats warm_disk).count ≡ stored_count warm_disk.blobs)
    × ((stats warm_disk).total_bytes ≡ stored_bytes warm_disk.blobs)
    × (length (stats warm_disk).blobs ≡ stored_count warm_disk.blobs)
    × (total (stats warm_disk).blobs ≡ stored_bytes warm_disk.blobs)
    × IsBySize (stats warm_disk).blobs
stats_totals_example = stats_totals warm_disk refl

-- U+200A and U+00A0 in front, U+3000 and a newline behind
wide_trimmed :
    trim_space (226 ∷ 128 ∷ 138 ∷ 194 ∷ 160 ∷ codes "f5/app" ++ (227 ∷ 128 ∷ 128 ∷ newline ∷ []))
    ≡ codes "f5/app"
unfolding trim_space is_empty
wide_trimmed = refl
