-- ===== src/Coverage/Decides.antt =====
-- That `imageOnDisk` of internal/cache/coverage.go finds every image that is completely on disk.
use regcachectl.Base.{
  ◌≡◌, ◌↔◌, ◌⊎◌, inl, inr, refl, ℕ, zero, suc, ◌<◌, true, false, List, [], ◌∷◌, arith, All,
  Bool-cases,
}
use regcachectl.Base.Results.{ok}
use regcachectl.Text.{Text}
use regcachectl.Text.Equality.{is_empty_iff}
use regcachectl.Platform.{Child, IndexEntry, index_entries, platform_matches, is_index}
use regcachectl.Coverage.{
  Manifest, Codec, Store, layers_on_disk, manifest_on_disk, blobs_on_disk, child_on_disk,
  children_on_disk, index_on_disk, top_on_disk, image_on_disk,
}
use regcachectl.Coverage.Complete.{
  HasBlobs, HasChild, AllChildren, some_wanted, IsComplete, image_on_disk_sound,
}

module _ (c : Codec) (v : Store) (repo : Text) where
  layers_complete :
      (ls : List Text) → All (λ l. v.has_blob repo l ≡ true) ls → layers_on_disk c v repo ls ≡ true
  unfolding layers_on_disk
  layers_complete [] h = refl
  layers_complete (l ∷ ls) (one, rest) = ground (arith, layers_complete ls rest)

  manifest_complete :
      (m : Manifest)
      → (m.config ≡ []) ⊎ (v.has_blob repo m.config ≡ true)
      → layers_on_disk c v repo m.layers ≡ true
      → manifest_on_disk c v repo (ok m) ≡ true
  unfolding manifest_on_disk
  manifest_complete m (inl absent) h = ground (arith, is_empty_iff m.config)
  manifest_complete m (inr stored) h = ground arith

  blobs_complete : (body : Text) → HasBlobs c v repo body → blobs_on_disk c v repo body ≡ true
  unfolding blobs_on_disk
  blobs_complete body b =
      rw b.decoded
        (manifest_complete b.content b.config (layers_complete b.content.layers b.layers))

  child_complete :
      (m : IndexEntry)
      → HasChild c v repo m
      → child_on_disk c v repo (v.read_manifest repo m.digest) ≡ true
  unfolding child_on_disk
  child_complete m h = rw h.read (blobs_complete h.body h.blobs)

  children_complete :
      (platform : Text) (ms : List IndexEntry) (matched : ℕ)
      → AllChildren c v repo platform ms
      → (0 < matched) ⊎ (some_wanted c v repo platform ms ≡ true)
      → (children_on_disk c v repo platform ms matched).full ≡ true
  unfolding children_on_disk
  children_complete platform [] zero h (inl some_matched) = absurd (omega arith)
  children_complete platform [] zero h (inr some_left) = cc
  children_complete platform [] (suc k) h e = refl
  children_complete platform (m ∷ ms) matched (one, rest) e =
      elim (Bool-cases (platform_matches platform m.plat)) [
        | inr other ↦ simp (other, children_complete platform ms matched rest (still other e))
        | inl taken ↦
            let held = one taken in
            simp (
              taken,
              held.stored,
              child_complete m held,
              children_complete platform ms (suc matched) rest (inl (omega arith)),
            )
      ]
    where
      still :
          platform_matches platform m.plat ≡ false
          → (0 < matched) ⊎ (some_wanted c v repo platform (m ∷ ms) ≡ true)
          → (0 < matched) ⊎ (some_wanted c v repo platform ms ≡ true)
      still other (inl n) = inl n
      still other (inr w) = inr (ground arith)

  top_complete :
      (digest platform : Text)
      → IsComplete c v repo digest platform
      → (image_on_disk c v repo digest platform).full ≡ true
  unfolding image_on_disk top_on_disk index_on_disk
  top_complete digest platform i = simp (i.stored, i.read, go i.parts)
    where
      go :
          ((is_index i.content_type ≡ false) × HasBlobs c v repo i.body)
            ⊎ ((is_index i.content_type ≡ true)
                × ((cs : List Child) × (c.index i.body ≡ ok cs)
                    × (some_wanted c v repo platform (index_entries cs) ≡ true)
                    × AllChildren c v repo platform (index_entries cs)))
          → (top_on_disk c v repo platform (ok (i.body, i.content_type))).full ≡ true
      go (inl (single, b)) = simp (single, blobs_complete i.body b)
      go (inr (multi, (cs, q, one, all))) =
          simp (multi, q, children_complete platform (index_entries cs) 0 all (inr one))

  -- An image is reported as fully on disk exactly when it is: its manifest can be read and, where it
  -- is no index, its configuration and layers are stored; of an index, a child for the platform
  -- exists, and the manifest and blobs of all these children are stored.
  pub image_on_disk_iff :
      (digest platform : Text)
      → ((image_on_disk c v repo digest platform).full ≡ true) ↔ IsComplete c v repo digest platform
  image_on_disk_iff digest platform =
      (image_on_disk_sound c v repo digest platform, top_complete digest platform)
