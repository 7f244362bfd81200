-- ===== src/Blobcache/Store.antt =====
-- Exactly when `streamAndCache` of internal/blobcache/blobcache.go stores a blob, and the hit that
-- a stored blob gives.
use regcachectl.Base.{
  ◌≡◌, ◌∙◌, refl, ap, true, false, Bool, not, ◌&&◌, ◌||◌, ◌++◌, Option, none, some, arith, [],
  if◌then◌else◌, ◌==◌,
}
use regcachectl.Base.Results.{Result, ok, err}
use regcachectl.Text.{Text, eq}
use regcachectl.Text.Equality.{eq_iff}
use regcachectl.Dict.{get, put, remove, get-put, get-remove}
use regcachectl.Blobcache.Types.{Disk, Proxy, Request, Response, Reply, Machine}
use regcachectl.Blobcache.Route.{
  v2, sha256, match_blob, match_manifest, is_digest, is_digest_sound, match_blob_iff,
}
use regcachectl.Blobcache.Record.{blob_name, record_repo}
use regcachectl.Blobcache.Replies.{hit_reply}
use regcachectl.Blobcache.Stream.{commit, copy, into_temp, make_dir, stream_and_cache, temp_prefix}
use regcachectl.Blobcache.Serve.{
  serve_http, serve_blob, look_up, is_get, stats_path, blob_or_relay, note_tag,
}
use regcachectl.Blobcache.Integrity.{IsSound, blob_name-append, blobs-record_repo, blobs-note_tag}

abbrev none? : Option Text → Bool
none? none = true
none? (some e) = false

-- `os.CreateTemp` gives a name that no file of the directory has.
abbrev pub FreshTemp : Machine → Disk → Type 0
FreshTemp m d =
    (suffix : Text) → m.temp_suffix ≡ ok suffix → get (temp_prefix ++ suffix) d.blobs ≡ none

abbrev temp_made : Result Text → Bool
temp_made (ok suffix) = true
temp_made (err e) = false

module _ (sha256_hex : Text → Text) where
  -- A complete 200 answer whose hash is the digest, on a machine where no file operation fails.
  unfoldable pub is_stored : Machine → Text → Response → Bool
  is_stored m digest resp =
      resp.status == 200
      && none? m.mkdir_blobs
      && temp_made m.temp_suffix
      && not (m.client_gone || resp.truncated)
      && eq (sha256 ++ sha256_hex resp.body) digest
      && none? m.rename

  copied : Machine → Text → Response → Bool
  copied m digest resp =
      not (m.client_gone || resp.truncated)
      && eq (sha256 ++ sha256_hex resp.body) digest
      && none? m.rename

  get-copy :
      (m : Machine) (digest temp : Text) (resp : Response) (d : Disk) (n : Text)
      → get temp d.blobs ≡ none
      → get n (copy sha256_hex m digest temp resp d).blobs ≡ (
          if copied m digest resp && eq (blob_name digest) n then some resp.body else get n d.blobs)
  unfolding copy commit copied
  get-copy m digest temp resp d n fresh =
      let full = put temp resp.body d.blobs in
      ground (
        arith,
        get-remove temp n full,
        get-put temp n resp.body d.blobs,
        get-put (blob_name digest) n resp.body (remove temp full),
        eq_iff temp n,
      )

  get-into_temp :
      (m : Machine) (digest : Text) (resp : Response) (t : Result Text) (d : Disk) (n : Text)
      → ((suffix : Text) → t ≡ ok suffix → get (temp_prefix ++ suffix) d.blobs ≡ none)
      → get n (into_temp sha256_hex m digest resp t d).0.blobs ≡ (
          if (temp_made t && copied m digest resp) && eq (blob_name digest) n
          then some resp.body
          else get n d.blobs)
  unfolding into_temp
  get-into_temp m digest resp (err e) d n fresh = refl
  get-into_temp m digest resp (ok suffix) d n fresh =
      get-copy m digest (temp_prefix ++ suffix) resp d n (fresh suffix refl)

  -- A blob is stored exactly when the answer is a complete 200 whose hash is the digest and no file
  -- operation fails; all other files of the directory keep their content, and if it is not stored
  -- the directory is as before. The temporary file's name is new.
  pub get-stream_and_cache :
      (m : Machine) (digest : Text) (resp : Response) (d : Disk) (n : Text)
      → FreshTemp m d
      → get n (stream_and_cache sha256_hex m digest resp d).0.blobs ≡ (
          if is_stored m digest resp && eq (blob_name digest) n
          then some resp.body
          else get n d.blobs)
  unfolding stream_and_cache make_dir is_stored copied
  get-stream_and_cache m digest resp d n fresh =
      let d' = record d { blobs_dir = true } in
      ground (arith, get-into_temp m digest resp m.temp_suffix d' n fresh)

  not_stats :
      (path repo digest : Text) → match_blob path ≡ some (repo, digest) → eq path stats_path ≡ false
  unfolding eq stats_path v2
  not_stats path repo digest h = rw ((match_blob_iff path repo digest).0 h).0 refl

  serve_blob_hit :
      (p : Proxy) (m : Machine) (r : Request) (repo digest c : Text) (d : Disk)
      → get (blob_name digest) d.blobs ≡ some c
      → m.open_blob ≡ true
      → serve_blob sha256_hex p m r repo digest d
        ≡ record { disk = record_repo m digest repo d; sent = []; reply = hit_reply digest c }
  unfolding serve_blob look_up
  serve_blob_hit p m r repo digest c d f o =
      let found : get (blob_name digest) (record_repo m digest repo d).blobs ≡ some c =
        rw (blobs-record_repo m digest repo d) f in
      simp (found, o)

  -- A GET of a blob's path is handled by `serveBlob`.
  pub serve_http_blob :
      (stats : Disk → Reply) (p : Proxy) (m : Machine) (r : Request) (d : Disk) (repo digest : Text)
      → is_get r ≡ true
      → match_blob r.path ≡ some (repo, digest)
      → serve_http sha256_hex stats p m r d
        ≡ serve_blob sha256_hex p m r repo digest (note_tag m r (match_manifest r.path) d)
  unfolding serve_http blob_or_relay
  serve_http_blob stats p m r d repo digest g h = simp (not_stats r.path repo digest h, h, g)

  -- A stored blob is answered from the disk, and the upstream is not asked: a GET of a path that
  -- matches, while the file of the digest can be opened.
  pub serve_http_hit :
      (stats : Disk → Reply) (p : Proxy) (m : Machine) (r : Request) (d : Disk)
      (repo digest c : Text)
      → is_get r ≡ true
      → match_blob r.path ≡ some (repo, digest)
      → get (blob_name digest) d.blobs ≡ some c
      → m.open_blob ≡ true
      → ((serve_http sha256_hex stats p m r d).reply ≡ hit_reply digest c)
        × ((serve_http sha256_hex stats p m r d).sent ≡ [])
        × ((serve_http sha256_hex stats p m r d).disk.blobs ≡ d.blobs)
  serve_http_hit stats p m r d repo digest c g h f o =
      let d' = note_tag m r (match_manifest r.path) d in
      let found : get (blob_name digest) d'.blobs ≡ some c =
        rw (blobs-note_tag m r (match_manifest r.path) d) f in
      rw
        (
          serve_http_blob stats p m r d repo digest g h,
          serve_blob_hit p m r repo digest c d' found o,
        )
        (
          refl,
          refl,
          blobs-record_repo m digest repo d' ∙ blobs-note_tag m r (match_manifest r.path) d,
        )

  digest_of_hash : (digest : Text) → is_digest digest ≡ true → sha256 ++ blob_name digest ≡ digest
  digest_of_hash digest v =
      let (h, p, _) = is_digest_sound digest v in
      rw p (ap (λ (t : Text). sha256 ++ t) (blob_name-append h))

  -- From a store in which each blob has the hash that names its file, a hit answers content whose
  -- digest is the one that was asked for.
  pub serve_http_hit_verified :
      (stats : Disk → Reply) (p : Proxy) (m : Machine) (r : Request) (d : Disk)
      (repo digest c : Text)
      → IsSound sha256_hex d
      → is_get r ≡ true
      → match_blob r.path ≡ some (repo, digest)
      → get (blob_name digest) d.blobs ≡ some c
      → m.open_blob ≡ true
      → sha256 ++ sha256_hex (serve_http sha256_hex stats p m r d).reply.body ≡ digest
  serve_http_hit_verified stats p m r d repo digest c s g h f o =
      let v = ((match_blob_iff r.path repo digest).0 h).3 in
      rw ((serve_http_hit stats p m r d repo digest c g h f o).0)
        (unfold hit_reply in rw (s.at (blob_name digest) c f) (digest_of_hash digest v))
