-- ===== src/Blobcache/Stats.antt =====
-- `stats` of internal/blobcache/blobcache.go: the inventory that is served at /_cache.
pub mod Names
use regcachectl.Base.{
  ◌≡◌, refl, ℕ, ◌+◌, ◌≤◌, true, not, List, [], ◌∷◌, ◌++◌, Option, none, some, arith, if◌then◌else◌,
  length, leb, Bool-cases, inl, inr, suc, All, All-imp,
}
use regcachectl.Text.{Text, text_le, has_prefix}
use regcachectl.Dict.{Dict, get, put}
use regcachectl.Blobcache.Types.{Disk}
use regcachectl.Blobcache.Route.{sha256}
use regcachectl.Blobcache.Record.{blob_name, content_of}
use regcachectl.Blobcache.Stream.{temp_prefix}
use regcachectl.Blobcache.Sidecar.{read_lines}
use regcachectl.Blobcache.Escape.{query_escape, query_unescape}

pub record BlobInfo : Type 0 where
  pub digest : Text
  pub size : ℕ
  pub repos : List Text

pub record Stats : Type 0 where
  pub count : ℕ
  pub total_bytes : ℕ
  pub blobs : List BlobInfo
  pub tags : Dict (List Text)

no_stats : Stats
no_stats = record { count = 0; total_bytes = 0; blobs = []; tags = [] }

insert_file : Text × Text → Dict Text → Dict Text
insert_file (k, c) [] = (k, c) ∷ []
insert_file (k, c) ((j, v) ∷ m) =
    if text_le k j then (k, c) ∷ (j, v) ∷ m else (j, v) ∷ insert_file (k, c) m

-- `os.ReadDir` lists a directory by file name.
read_dir : Dict Text → Dict Text
unfolding insert_file
read_dir [] = []
read_dir (f ∷ m) = insert_file f (read_dir m)

blob_info : Disk → Text → Text → BlobInfo
blob_info d name content = record {
  digest = sha256 ++ name;
  size = length content;
  repos = read_lines (content_of (get (blob_name (sha256 ++ name)) d.repos));
}

-- The temporary downloads are skipped.
blob_infos : Disk → Dict Text → List BlobInfo
unfolding blob_info
blob_infos d [] = []
blob_infos d ((name, content) ∷ m) =
    let rest = blob_infos d m in
    if has_prefix name temp_prefix then rest else blob_info d name content ∷ rest

pub total : List BlobInfo → ℕ
total [] = 0
total (b ∷ bs) = b.size + total bs

insert_info : BlobInfo → List BlobInfo → List BlobInfo
insert_info b [] = b ∷ []
insert_info b (c ∷ cs) = if leb c.size b.size then b ∷ c ∷ cs else c ∷ insert_info b cs

-- `sort.Slice` by size, the largest first. (It leaves the order of equal sizes open.)
by_size : List BlobInfo → List BlobInfo
unfolding insert_info
by_size [] = []
by_size (b ∷ bs) = insert_info b (by_size bs)

add_tags : Disk → Option Text → Dict (List Text) → Dict (List Text)
add_tags d none tags = tags
add_tags d (some repo) tags =
    put repo (read_lines (content_of (get (query_escape repo) d.tags))) tags

tag_map : Disk → Dict Text → Dict (List Text) → Dict (List Text)
unfolding add_tags
tag_map d [] tags = tags
tag_map d ((name, content) ∷ m) tags = tag_map d m (add_tags d (query_unescape name) tags)

unfoldable pub stats : Disk → Stats
unfolding no_stats read_dir blob_infos total by_size tag_map
stats d =
    let infos = blob_infos d (read_dir d.blobs) in
    if not d.blobs_dir then no_stats else record {
      count = length infos;
      total_bytes = total infos;
      blobs = by_size infos;
      tags = if d.tags_dir then tag_map d (read_dir d.tags) [] else [];
    }

-- A list of blobs with the largest first.
abbrev pub IsBySize : List BlobInfo → Type 0
IsBySize [] = Unit
IsBySize (b ∷ bs) = All (λ c. c.size ≤ b.size) bs × IsBySize bs

All-insert_info :
    (k : ℕ) (b : BlobInfo) (cs : List BlobInfo)
    → b.size ≤ k
    → All (λ c. c.size ≤ k) cs
    → All (λ c. c.size ≤ k) (insert_info b cs)
unfolding insert_info
All-insert_info k b [] h _ = (h, tt)
All-insert_info k b (c ∷ cs) h (hc, hs) = elim (Bool-cases (leb c.size b.size)) [
  | inl le ↦ simp le (h, (hc, hs))
  | inr gt ↦ simp gt (hc, All-insert_info k b cs h hs)
]

insert_info-IsBySize :
    (b : BlobInfo) (cs : List BlobInfo) → IsBySize cs → IsBySize (insert_info b cs)
unfolding insert_info
insert_info-IsBySize b [] h = (tt, tt)
insert_info-IsBySize b (c ∷ cs) (hc, hs) = elim (Bool-cases (leb c.size b.size)) [
  | inl le ↦
      simp le ((le_of_test le, All-imp cs (λ e p. omega (arith, le_of_test le)) hc), (hc, hs))
  | inr gt ↦ simp gt (All-insert_info c.size b cs (ground arith) hc, insert_info-IsBySize b cs hs)
]
  where
    le_of_test : leb c.size b.size ≡ true → c.size ≤ b.size
    le_of_test h = ground arith

by_size-IsBySize : (bs : List BlobInfo) → IsBySize (by_size bs)
unfolding by_size
by_size-IsBySize [] = tt
by_size-IsBySize (b ∷ bs) = insert_info-IsBySize b (by_size bs) (by_size-IsBySize bs)

totals_insert :
    (b : BlobInfo) (cs : List BlobInfo)
    → (total (insert_info b cs) ≡ b.size + total cs) × (length (insert_info b cs) ≡ suc (length cs))
unfolding insert_info total
totals_insert b [] = (refl, refl)
totals_insert b (c ∷ cs) = ground (arith, totals_insert b cs)

totals_by_size :
    (bs : List BlobInfo) → (total (by_size bs) ≡ total bs) × (length (by_size bs) ≡ length bs)
unfolding by_size total
totals_by_size [] = (refl, refl)
totals_by_size (b ∷ bs) = omega (arith, totals_insert b (by_size bs), totals_by_size bs)

-- The bytes and the number of the files of a directory that are no temporary downloads.
pub stored_bytes : Dict Text → ℕ
stored_bytes [] = 0
stored_bytes ((name, content) ∷ m) =
    (if has_prefix name temp_prefix then 0 else length content) + stored_bytes m

pub stored_count : Dict Text → ℕ
stored_count [] = 0
stored_count ((name, content) ∷ m) = (if has_prefix name temp_prefix then 0 else 1) + stored_count m

stored_insert :
    (k c : Text) (m : Dict Text)
    → (stored_bytes (insert_file (k, c) m) ≡ stored_bytes ((k, c) ∷ m))
      × (stored_count (insert_file (k, c) m) ≡ stored_count ((k, c) ∷ m))
unfolding insert_file stored_bytes stored_count
stored_insert k c [] = (refl, refl)
stored_insert k c ((j, v) ∷ m) = ground (arith, stored_insert k c m)

stored_read_dir :
    (m : Dict Text)
    → (stored_bytes (read_dir m) ≡ stored_bytes m) × (stored_count (read_dir m) ≡ stored_count m)
unfolding read_dir stored_bytes stored_count
stored_read_dir [] = (refl, refl)
stored_read_dir ((k, c) ∷ m) =
    unfold stored_bytes stored_count in
    ground (arith, stored_insert k c (read_dir m), stored_read_dir m)

stored_infos :
    (d : Disk) (m : Dict Text)
    → (total (blob_infos d m) ≡ stored_bytes m) × (length (blob_infos d m) ≡ stored_count m)
unfolding blob_infos total stored_bytes stored_count
stored_infos d [] = (refl, refl)
stored_infos d ((k, c) ∷ m) = ground (arith, stored_infos d m)

-- The inventory of an existing directory: it counts the files that are no temporary downloads and
-- adds up their bytes, it lists as many blobs with as many bytes, and the largest come first.
pub stats_totals :
    (d : Disk)
    → d.blobs_dir ≡ true
    → ((stats d).count ≡ stored_count d.blobs)
      × ((stats d).total_bytes ≡ stored_bytes d.blobs)
      × (length (stats d).blobs ≡ stored_count d.blobs)
      × (total (stats d).blobs ≡ stored_bytes d.blobs)
      × IsBySize (stats d).blobs
unfolding stats
stats_totals d h =
    let infos = blob_infos d (read_dir d.blobs) in
    simp h (
      omega (arith, stored_infos d (read_dir d.blobs), stored_read_dir d.blobs),
      omega (arith, stored_infos d (read_dir d.blobs), stored_read_dir d.blobs),
      omega
          (arith, totals_by_size infos, stored_infos d (read_dir d.blobs), stored_read_dir d.blobs),
      omega
          (arith, totals_by_size infos, stored_infos d (read_dir d.blobs), stored_read_dir d.blobs),
      by_size-IsBySize infos,
    )
