-- ===== src/Blobcache/Inventory.antt =====
-- `serveStats` of internal/blobcache/blobcache.go, and the reading of what it serves by `httpJSON` and
-- `fillBlobcache` of internal/cache/list.go. The text of a JSON value is a parameter.
use regcachectl.Base.{
  ◌≡◌, refl, ap, ◌∙◌, some_of, ◌||◌, true, false, List, [], ◌∷◌, ◌++◌, ◌==◌, Option, none, some,
  if◌then◌else◌, map,
}
use regcachectl.Text.{Text, codes, newline, eq, mem, has_prefix}
use regcachectl.Dict.{Dict, get}
use regcachectl.Json.{
  Json, null, number, string, array, object, Members, no_members, member, field, as_number,
  as_string, as_list, as_map, items_of, members_of, ◌>>=◌, as_items-items_of, as_items-map,
  as_members-members_of,
}
use regcachectl.Blobcache.Types.{Disk, Reply}
use regcachectl.Blobcache.Escape.{IsBytes, query_escape}
use regcachectl.Blobcache.Sidecar.{read_lines}
use regcachectl.Blobcache.Stream.{temp_prefix}
use regcachectl.Blobcache.Stats.{BlobInfo, Stats, stats}
use regcachectl.Blobcache.Stats.Names.{served_as, stats_of_repo}
use regcachectl.Listing.Inventory.{
  Blob, Inventory, Listing, with_inventory, or_no_refs, is_digest_ref,
}
use regcachectl.Listing.Names.{names_of_objects, with_inventory-lists_tags}

-- a slice: `null` where it is nil, as one is to which nothing was appended
abbrev slice_of {ℓ} : {A : Type ℓ} → (A → Json) → List A → Json
slice_of f [] = null
slice_of f (a ∷ l) = array (items_of f (a ∷ l))

-- `omitempty` on a slice and on a map
abbrev with_slice : Text → List Text → Members → Members
with_slice k [] ms = ms
with_slice k (s ∷ ss) ms = member k (array (items_of string (s ∷ ss))) ms

abbrev with_map : Text → Dict (List Text) → Members → Members
with_map k [] ms = ms
with_map k (e ∷ m) ms = member k (object (members_of (slice_of string) (e ∷ m))) ms

-- the tags of the fields of `BlobInfo`
unfoldable pub json_of_blob : BlobInfo → Json
unfolding items_of
json_of_blob b = object (
    member (codes "digest") (string b.digest)
      (member (codes "size") (number b.size) (with_slice (codes "repos") b.repos no_members)))

-- those of `Stats` (Go writes the keys of the map in order)
unfoldable pub json_of : Stats → Json
unfolding items_of members_of json_of_blob
json_of st = object (
    member (codes "count") (number st.count) (
      member (codes "total_bytes") (number st.total_bytes) (
        member (codes "blobs") (slice_of json_of_blob st.blobs)
          (with_map (codes "tags") st.tags no_members))))

unfoldable pub blob_of_json : Option Json → Option Blob
blob_of_json (some (object ms)) = do
  digest ← as_string (field (codes "digest") ms)
  size ← as_number (field (codes "size") ms)
  repos ← as_list as_string (field (codes "repos") ms)
  some (record { digest = digest; size = size; repos = repos })
blob_of_json (some null) = some (record { digest = []; size = 0; repos = [] })
blob_of_json v = none

-- what `fillBlobcache` decodes
unfoldable pub inventory_of : Json → Option Inventory
unfolding blob_of_json
inventory_of (object ms) = do
  count ← as_number (field (codes "count") ms)
  total ← as_number (field (codes "total_bytes") ms)
  blobs ← as_list blob_of_json (field (codes "blobs") ms)
  tags ← as_map (as_list as_string) (field (codes "tags") ms)
  some (record { total_bytes = total; blobs = blobs; tags = tags })
inventory_of null = some (record { total_bytes = 0; blobs = []; tags = [] })
inventory_of v = none

-- a blob of the inventory, as the listing has it
abbrev pub listed : BlobInfo → Blob
listed b = record { digest = b.digest; size = b.size; repos = b.repos }

as_string-string : (s : Text) → as_string (some (string s)) ≡ some s
unfolding as_string
as_string-string s = refl

as_list-slice : (l : List Text) → as_list as_string (some (slice_of string l)) ≡ some l
unfolding as_list
as_list-slice [] = refl
as_list-slice (s ∷ ss) = as_items-items_of string as_string (s ∷ ss) as_string-string

blob_of_json-json_of_blob : (b : BlobInfo) → blob_of_json (some (json_of_blob b)) ≡ some (listed b)
unfolding blob_of_json json_of_blob field as_string as_number as_list eq
blob_of_json-json_of_blob b = go b.repos refl
  where
    go : (l : List Text) → b.repos ≡ l → blob_of_json (some (json_of_blob b)) ≡ some (listed b)
    go [] q = rw q refl
    go (s ∷ ss) q = rw (q, as_items-items_of string as_string (s ∷ ss) as_string-string) refl

-- The inventory that the blob cache writes as JSON is read as it was.
pub inventory_of-json_of :
    (st : Stats)
    → inventory_of (json_of st)
      ≡ some (record { total_bytes = st.total_bytes; blobs = map listed st.blobs; tags = st.tags })
unfolding inventory_of json_of field as_number as_list as_map eq
inventory_of-json_of st = go st.blobs refl st.tags refl
  where
    go :
        (l : List BlobInfo)
        → st.blobs ≡ l
        → (m : Dict (List Text)) → st.tags ≡ m
        → inventory_of (json_of st)
          ≡ some
              (record { total_bytes = st.total_bytes; blobs = map listed st.blobs; tags = st.tags })
    go [] q [] p = rw (q, p) refl
    go (b ∷ bs) q [] p =
        rw (q, p, as_items-map json_of_blob blob_of_json listed (b ∷ bs) blob_of_json-json_of_blob)
          refl
    go [] q (e ∷ m) p =
        rw (q, p, as_members-members_of (slice_of string) (as_list as_string) (e ∷ m) as_list-slice)
          refl
    go (b ∷ bs) q (e ∷ m) p =
        rw
          (
            q,
            p,
            as_items-map json_of_blob blob_of_json listed (b ∷ bs) blob_of_json-json_of_blob,
            as_members-members_of (slice_of string) (as_list as_string) (e ∷ m) as_list-slice,
          )
          refl

-- `encode` writes a value of JSON and `parse` reads one, as package encoding/json does.
module _ (encode : Json → Text) (parse : Text → Option Json) where
  -- `serveStats`; `Encode` ends the text by a newline
  unfoldable pub serve_stats : Disk → Reply
  unfolding json_of
  serve_stats d = record {
    status = 200;
    headers = (codes "Content-Type", codes "application/json") ∷ [];
    body = encode (json_of (stats d)) ++ newline ∷ [];
  }

  -- `httpJSON` of what was answered, behind the GET
  unfoldable pub fetched : Reply → Option Inventory
  unfolding inventory_of
  fetched r = if r.status == 200 then parse r.body >>= inventory_of else none

  fetched-serve_stats :
      (d : Disk)
      → parse (encode (json_of (stats d)) ++ newline ∷ []) ≡ some (json_of (stats d))
      → fetched (serve_stats d)
        ≡ some (record {
          total_bytes = (stats d).total_bytes;
          blobs = map listed (stats d).blobs;
          tags = (stats d).tags;
        })
  unfolding fetched serve_stats
  fetched-serve_stats d reads = rw reads (inventory_of-json_of (stats d))

  under_name-listed :
      (repo : Text) (bs : List BlobInfo)
      → some_of (λ b. mem repo b.repos) (map listed bs) ≡ some_of (λ b. mem repo b.repos) bs
  under_name-listed repo [] = refl
  under_name-listed repo (b ∷ bs) = ap (λ x. mem repo b.repos || x) (under_name-listed repo bs)

  -- From the proxy's files to the listing: where the proxy has recorded a tag for a repository, and holds
  -- a blob that it served under that name, `list` shows `repo:tag`. What is served is read back as the value
  -- of JSON that it is;
  -- the repository's name is of bytes, the blob's file is no temporary download, and the tag no digest.
  pub serve_stats-listed :
      (d : Disk) (l : Listing) (repo tag name content tags : Text)
      → parse (encode (json_of (stats d)) ++ newline ∷ []) ≡ some (json_of (stats d))
      → d.blobs_dir ≡ true
      → d.tags_dir ≡ true
      → IsBytes repo
      → get name d.blobs ≡ some content
      → has_prefix name temp_prefix ≡ false
      → mem repo (served_as d repo name) ≡ true
      → get (query_escape repo) d.tags ≡ some tags
      → mem tag (read_lines tags) ≡ true
      → is_digest_ref tag ≡ false
      → mem
          (repo ++ codes ":" ++ tag)
          (names_of_objects (with_inventory (fetched (serve_stats d)) l).objects)
        ≡ true
  serve_stats-listed d l repo tag name content tags reads hb ht b stored kept served tagged recorded
        human =
      let (tagged_there, held) =
        stats_of_repo d repo name content tags hb ht b stored kept served tagged in
      rw (fetched-serve_stats d reads) (
        with_inventory-lists_tags _ l repo tag (under_name-listed repo (stats d).blobs ∙ held)
          (ap (λ o. mem tag (or_no_refs o)) tagged_there ∙ recorded) human)
