-- ===== src/Blobcache/Stats/Names.antt =====
-- What the inventory of internal/blobcache/blobcache.go says of one repository: the tags of its sidecar
-- file, and the blobs that were served under its name.
use regcachectl.Base.{
  ◌≡◌, refl, ◌∙◌, ap, Bool, true, false, ◌||◌, List, [], ◌∷◌, ◌++◌, Option, none, some, some_of,
  arith, Bool-cases, inl, inr,
}
use regcachectl.Text.{Text, eq, has_prefix, mem}
use regcachectl.Text.Equality.{eq_iff, eq_refl}
use regcachectl.Dict.{Dict, get, get-put}
use regcachectl.Blobcache.Types.{Disk}
use regcachectl.Blobcache.Route.{sha256}
use regcachectl.Blobcache.Record.{blob_name, content_of}
use regcachectl.Blobcache.Stream.{temp_prefix}
use regcachectl.Blobcache.Sidecar.{read_lines}
use regcachectl.Blobcache.Escape.{
  query_escape, query_unescape, IsBytes, query_unescape-query_escape,
}
use regcachectl.Blobcache.Stats.{
  BlobInfo, stats, insert_file, read_dir, blob_info, blob_infos, insert_info, by_size, add_tags,
  tag_map,
}

-- a file of that name
abbrev has_name : Text → Dict Text → Bool
has_name k = some_of (λ f. eq f.0 k)

get-has_name : (k c : Text) (m : Dict Text) → get k m ≡ some c → has_name k m ≡ true
unfolding get
get-has_name k c [] h = cc
get-has_name k c ((j, v) ∷ m) h = ground (arith, get-has_name k c m)

has_name-insert_file :
    (k j v : Text) (m : Dict Text) → has_name k (insert_file (j, v) m) ≡ (eq j k || has_name k m)
unfolding insert_file
has_name-insert_file k j v [] = refl
has_name-insert_file k j v ((i, w) ∷ m) = ground (arith, has_name-insert_file k j v m)

has_name-read_dir : (k : Text) (m : Dict Text) → has_name k (read_dir m) ≡ has_name k m
unfolding read_dir
has_name-read_dir k [] = refl
has_name-read_dir k ((j, v) ∷ m) =
    ground (arith, has_name-insert_file k j v (read_dir m), has_name-read_dir k m)

module _ (d : Disk) (repo : Text) where
  -- the entries of the repository's sidecar file
  abbrev pub recorded_tags : List Text
  recorded_tags = read_lines (content_of (get (query_escape repo) d.tags))

  get-add_tags :
      (o : Option Text) (tags : Dict (List Text))
      → get repo tags ≡ some recorded_tags
      → get repo (add_tags d o tags) ≡ some recorded_tags
  unfolding add_tags
  get-add_tags none tags h = h
  get-add_tags (some r) tags h = elim (Bool-cases (eq r repo)) [
    | inl same ↦
        let e : r ≡ repo = (eq_iff r repo).0 same in
        rw (get-put r repo (read_lines (content_of (get (query_escape r) d.tags))) tags, same, e)
          refl
    | inr other ↦
        rw (get-put r repo (read_lines (content_of (get (query_escape r) d.tags))) tags, other) h
  ]

  get-tag_map_kept :
      (m : Dict Text) (tags : Dict (List Text))
      → get repo tags ≡ some recorded_tags
      → get repo (tag_map d m tags) ≡ some recorded_tags
  unfolding tag_map
  get-tag_map_kept [] tags h = h
  get-tag_map_kept ((name, content) ∷ m) tags h =
      get-tag_map_kept m (add_tags d (query_unescape name) tags)
        (get-add_tags (query_unescape name) tags h)

  get-add_tags_self :
      (tags : Dict (List Text)) → get repo (add_tags d (some repo) tags) ≡ some recorded_tags
  unfolding add_tags
  get-add_tags_self tags = rw (get-put repo repo recorded_tags tags, eq_refl repo) refl

  get-tag_map :
      (m : Dict Text) (tags : Dict (List Text))
      → IsBytes repo
      → has_name (query_escape repo) m ≡ true
      → get repo (tag_map d m tags) ≡ some recorded_tags
  unfolding tag_map
  get-tag_map [] tags b h = cc
  get-tag_map ((name, content) ∷ m) tags b h = elim (Bool-cases (eq name (query_escape repo))) [
    | inl same ↦
        let e : name ≡ query_escape repo = (eq_iff name (query_escape repo)).0 same in
        let q : query_unescape name ≡ some repo =
          ap query_unescape e ∙ query_unescape-query_escape repo b in
        get-tag_map_kept m _ (rw q (get-add_tags_self tags))
    | inr other ↦ get-tag_map m _ b (rw other at h)
  ]

  -- whether a blob is listed under the name of the repository
  abbrev pub under_name : List BlobInfo → Bool
  under_name = some_of (λ b. mem repo b.repos)

  under_name-insert_info :
      (b : BlobInfo) (bs : List BlobInfo)
      → under_name (insert_info b bs) ≡ (mem repo b.repos || under_name bs)
  unfolding insert_info
  under_name-insert_info b [] = refl
  under_name-insert_info b (c ∷ cs) = ground (arith, under_name-insert_info b cs)

  under_name-by_size : (bs : List BlobInfo) → under_name (by_size bs) ≡ under_name bs
  unfolding by_size
  under_name-by_size [] = refl
  under_name-by_size (b ∷ bs) =
      ground (arith, under_name-insert_info b (by_size bs), under_name-by_size bs)

  -- the repositories under which the blob of a file was served
  abbrev pub served_as : Text → List Text
  served_as name = read_lines (content_of (get (blob_name (sha256 ++ name)) d.repos))

  under_name-blob_infos :
      (name : Text) (m : Dict Text)
      → has_name name m ≡ true
      → has_prefix name temp_prefix ≡ false
      → mem repo (served_as name) ≡ true
      → under_name (blob_infos d m) ≡ true
  unfolding blob_infos blob_info
  under_name-blob_infos name [] h t s = cc
  under_name-blob_infos name ((j, v) ∷ m) h t s = elim (Bool-cases (eq j name)) [
    | inl same ↦
        let e : j ≡ name = (eq_iff j name).0 same in
        rw (ap (λ n. has_prefix n temp_prefix) e ∙ t, ap (λ n. mem repo (served_as n)) e ∙ s) refl
    | inr other ↦ elim (Bool-cases (has_prefix j temp_prefix)) [
      | inl temporary ↦ rw temporary (under_name-blob_infos name m (rw other at h) t s)
      | inr stored ↦ rw stored (ground (arith, under_name-blob_infos name m (rw other at h) t s))
    ]
  ]

  -- A repository with a sidecar file of tags has those in the inventory, and one under which a stored
  -- blob was served has a blob there.
  pub stats_of_repo :
      (name content tags : Text)
      → d.blobs_dir ≡ true
      → d.tags_dir ≡ true
      → IsBytes repo
      → get name d.blobs ≡ some content
      → has_prefix name temp_prefix ≡ false
      → mem repo (served_as name) ≡ true
      → get (query_escape repo) d.tags ≡ some tags
      → (get repo (stats d).tags ≡ some (read_lines tags)) × (under_name (stats d).blobs ≡ true)
  unfolding stats
  stats_of_repo name content tags hb ht b stored kept served tagged =
      rw (hb, ht)
        (
          get-tag_map (read_dir d.tags) [] b (
                has_name-read_dir (query_escape repo) d.tags
                ∙ get-has_name (query_escape repo) tags d.tags tagged)
              ∙ ap (λ o. some (read_lines (content_of o))) tagged,
          under_name-by_size (blob_infos d (read_dir d.blobs))
              ∙ under_name-blob_infos name (read_dir d.blobs)
                  (has_name-read_dir name d.blobs ∙ get-has_name name content d.blobs stored) kept
                  served,
        )
