-- ===== src/Coverage/Complete.antt =====
-- What it means that an image is completely on disk, and that `imageOnDisk` of
-- internal/cache/coverage.go decides it.
use regcachectl.Base.{
  ◌≡◌, ◌⊎◌, inl, inr, refl, ℕ, zero, suc, Bool, true, false, ◌||◌, List, [], ◌∷◌, arith, All,
  Bool-cases,
}
use regcachectl.Base.Results.{Result, ok, err}
use regcachectl.Text.{Text, is_empty}
use regcachectl.Text.Equality.{is_empty_iff}
use regcachectl.Platform.{Child, IndexEntry, index_entries, platform_matches, is_index}
use regcachectl.Coverage.{
  Manifest, Codec, Store, layers_on_disk, manifest_on_disk, blobs_on_disk, child_on_disk,
  children_on_disk, index_on_disk, top_on_disk, image_on_disk,
}

module _ (c : Codec) (v : Store) (repo : Text) where
  -- Every blob that a manifest names is stored: its layers, and its configuration if it has one.
  pub record HasBlobs (body : Text) : Type 0 where
    pub content : Manifest
    pub decoded : c.manifest body ≡ ok content
    pub config : (content.config ≡ []) ⊎ (v.has_blob repo content.config ≡ true)
    pub layers : All (λ l. v.has_blob repo l ≡ true) content.layers

  -- A child of an index is stored: its manifest can be read, and has its blobs.
  pub record HasChild (m : IndexEntry) : Type 0 where
    pub stored : v.has_manifest repo m.digest ≡ true
    pub body : Text
    pub content_type : Text
    pub read : v.read_manifest repo m.digest ≡ ok (body, content_type)
    pub blobs : HasBlobs body

  -- Of the children for the platform there is one, and all are stored.
  abbrev pub AllChildren : Text → List IndexEntry → Type 0
  AllChildren platform = All (λ m. platform_matches platform m.plat ≡ true → HasChild m)

  abbrev pub some_wanted : Text → List IndexEntry → Bool
  some_wanted platform [] = false
  some_wanted platform (m ∷ ms) = platform_matches platform m.plat || some_wanted platform ms

  layers_sound :
      (ls : List Text) → layers_on_disk c v repo ls ≡ true → All (λ l. v.has_blob repo l ≡ true) ls
  unfolding layers_on_disk
  layers_sound [] h = tt
  layers_sound (l ∷ ls) h = (ground arith, layers_sound ls (ground arith))

  blobs_sound : (body : Text) → blobs_on_disk c v repo body ≡ true → HasBlobs body
  unfolding blobs_on_disk manifest_on_disk
  blobs_sound body h = go (c.manifest body) refl h
    where
      go :
          (r : Result Manifest)
          → c.manifest body ≡ r
          → manifest_on_disk c v repo r ≡ true
          → HasBlobs body
      go (err e) q h = cc
      go (ok m) q h = record {
        content = m;
        decoded = q;
        config = elim (Bool-cases (is_empty m.config)) [
          | inl e ↦ inl ((is_empty_iff m.config).0 e)
          | inr e ↦ inr (ground arith)
        ];
        layers = layers_sound m.layers (ground arith);
      }

  child_sound :
      (m : IndexEntry)
      → v.has_manifest repo m.digest ≡ true
      → child_on_disk c v repo (v.read_manifest repo m.digest) ≡ true
      → HasChild m
  unfolding child_on_disk
  child_sound m s h = go (v.read_manifest repo m.digest) refl h
    where
      go :
          (r : Result (Text × Text))
          → v.read_manifest repo m.digest ≡ r
          → child_on_disk c v repo r ≡ true
          → HasChild m
      go (err e) q h = cc
      go (ok (body, content_type)) q h = record {
        stored = s;
        body = body;
        content_type = content_type;
        read = q;
        blobs = blobs_sound body h;
      }

  children_sound :
      (platform : Text) (ms : List IndexEntry) (matched : ℕ)
      → (children_on_disk c v repo platform ms matched).full ≡ true
      → AllChildren platform ms × ((matched ≡ 0) → some_wanted platform ms ≡ true)
  unfolding children_on_disk
  children_sound platform [] zero h = cc
  children_sound platform [] (suc k) h = (tt, λ e. cc)
  children_sound platform (m ∷ ms) matched h =
      elim (Bool-cases (platform_matches platform m.plat)) [
        | inr other ↦
            let (rest, one) = children_sound platform ms matched (ground arith) in
            (((λ w. cc), rest), λ e. ground (arith, one e))
        | inl wanted ↦
            let held : v.has_manifest repo m.digest ≡ true = ground arith in
            let child : child_on_disk c v repo (v.read_manifest repo m.digest) ≡ true =
              ground arith in
            let (rest, one) = children_sound platform ms (suc matched) (ground arith) in
            (((λ w. child_sound m held child), rest), λ e. ground arith)
      ]

  index_sound :
      (platform : Text) (r : Result (List Child))
      → (index_on_disk c v repo platform r).full ≡ true
      → (cs : List Child) × (r ≡ ok cs)
        × (some_wanted platform (index_entries cs) ≡ true)
        × AllChildren platform (index_entries cs)
  unfolding index_on_disk
  index_sound platform (err e) h = cc
  index_sound platform (ok cs) h =
      let (held, one) = children_sound platform (index_entries cs) 0 h in (cs, refl, one refl, held)

  -- An image is completely on disk: its manifest can be read and, where it is no index, has its
  -- blobs; of an index, a child for the platform exists, and all of these are stored.
  pub record IsComplete (digest platform : Text) : Type 0 where
    pub stored : v.has_manifest repo digest ≡ true
    pub body : Text
    pub content_type : Text
    pub read : v.read_manifest repo digest ≡ ok (body, content_type)
    pub parts :
        ((is_index content_type ≡ false) × HasBlobs body)
        ⊎ ((is_index content_type ≡ true)
            × ((cs : List Child) × (c.index body ≡ ok cs)
                × (some_wanted platform (index_entries cs) ≡ true)
                × AllChildren platform (index_entries cs)))

  -- An image that is reported as fully on disk is completely on disk: every manifest and every blob
  -- that a client needs for the platform is stored.
  pub image_on_disk_sound :
      (digest platform : Text)
      → (image_on_disk c v repo digest platform).full ≡ true
      → IsComplete digest platform
  unfolding image_on_disk top_on_disk
  image_on_disk_sound digest platform h = elim (Bool-cases (v.has_manifest repo digest)) [
    | inr missing ↦ absurd (ground arith)
    | inl held ↦ read_from held (v.read_manifest repo digest) refl (rw held at h)
  ]
    where
      read_from :
          v.has_manifest repo digest ≡ true
          → (r : Result (Text × Text)) → v.read_manifest repo digest ≡ r
          → (top_on_disk c v repo platform r).full ≡ true
          → IsComplete digest platform
      read_from held (err e) q t = cc
      read_from held (ok (body, content_type)) q t = record {
        stored = held;
        body = body;
        content_type = content_type;
        read = q;
        parts = elim (Bool-cases (is_index content_type)) [
          | inr plain ↦ inl (plain, blobs_sound body (ground arith))
          | inl multi ↦ inr (multi, index_sound platform (c.index body) (ground arith))
        ];
      }
