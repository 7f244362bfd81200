-- ===== src/Coverage/Count.antt =====
-- `ReleaseCoverage` and the count of `releaseCoverage` of internal/cache/coverage.go.
use regcachectl.Base.{
  ◌≡◌, refl, ℕ, ◌+◌, ◌≤◌, true, false, not, List, [], ◌∷◌, ◌++◌, arith, if◌then◌else◌, length,
  length-append, Bool-cases, subst, ◌∙◌, sym, inl, inr,
}
use regcachectl.Base.Results.{Result, ok, ◌>>=◌, Result-cases}
use regcachectl.Text.{Text, eq, mem}
use regcachectl.Text.Equality.{eq_iff, eq_refl}
use regcachectl.Text.Search.{mem-append}
use regcachectl.Upstream.{Upstream}
use regcachectl.Reference.{ImageRef, parse_ref}
use regcachectl.Coverage.{Codec, Store, OnDisk, image_on_disk}
use regcachectl.Coverage.Complete.{IsComplete, image_on_disk_sound}

-- `ReleaseCoverage`
pub record Coverage : Type 0 where
  pub cache : Text
  pub total : ℕ
  pub full : ℕ
  pub manifest_only : ℕ
  pub missing : List Text
  pub elsewhere : ℕ

module _ (c : Codec) (v : Store) (u : Upstream) (platform : Text) where
  unfoldable pub count_image : Text → OnDisk → Coverage → Coverage
  count_image r s cov =
      if s.full
      then record cov { full = cov.full + 1 }
      else if s.manifest
      then record cov { manifest_only = cov.manifest_only + 1; missing = cov.missing ++ r ∷ [] }
      else record cov { missing = cov.missing ++ r ∷ [] }

  unfoldable pub count_ref : Text → ImageRef → Coverage → Coverage
  count_ref r p cov =
      if not (eq p.host u.host)
      then record cov { elsewhere = cov.elsewhere + 1 }
      else count_image r (image_on_disk c v p.repo p.ref platform) cov

  -- the loop over the payload images
  unfoldable pub count_refs : List Text → Coverage → Result Coverage
  count_refs [] cov = ok cov
  count_refs (r ∷ rs) cov = do p ← parse_ref r; count_refs rs (count_ref r p cov)

  -- the part of `releaseCoverage` behind `parseImageReferences`
  unfoldable pub payload_coverage : List Text → Result Coverage
  payload_coverage refs = count_refs refs (record {
    cache = u.name;
    total = length refs;
    full = 0;
    manifest_only = 0;
    missing = [];
    elsewhere = 0;
  })

  abbrev counted : Coverage → ℕ
  counted cov = cov.full + length cov.missing + cov.elsewhere

  -- `c'` counts one more image than `c`, and knows of at least the same missing ones.
  record IsCount (n : ℕ) (before after : Coverage) : Type 0 where
    pub counts : counted after ≡ counted before + n
    pub total : after.total ≡ before.total
    pub manifests :
        before.manifest_only ≤ length before.missing → after.manifest_only ≤ length after.missing
    pub keeps : (r : Text) → mem r before.missing ≡ true → mem r after.missing ≡ true

  mem_singleton : (r : Text) → mem r (r ∷ []) ≡ true
  unfolding mem
  mem_singleton r = ground (arith, eq_refl r)

  count_image-IsCount :
      (r : Text) (s : OnDisk) (cov : Coverage) → IsCount 1 cov (count_image r s cov)
  unfolding count_image
  count_image-IsCount r s cov = record {
    counts = ground (arith, length-append cov.missing (r ∷ []));
    total = ground arith;
    manifests = λ h. ground (arith, length-append cov.missing (r ∷ []));
    keeps = λ q h. ground (arith, mem-append q cov.missing (r ∷ []));
  }

  count_ref-IsCount : (r : Text) (p : ImageRef) (cov : Coverage) → IsCount 1 cov (count_ref r p cov)
  unfolding count_ref
  count_ref-IsCount r p cov = elim (Bool-cases (eq p.host u.host)) [
    | inl here ↦ rw here (count_image-IsCount r (image_on_disk c v p.repo p.ref platform) cov)
    | inr away ↦
        rw away
          (record { counts = omega arith; total = refl; manifests = λ h. h; keeps = λ q h. h })
  ]

  count_refs-IsCount :
      (rs : List Text) (cov after : Coverage)
      → count_refs rs cov ≡ ok after
      → IsCount (length rs) cov after
  unfolding count_refs
  count_refs-IsCount [] cov after h =
      let e : cov ≡ after = cc in
      subst (IsCount 0 cov) e
        (record { counts = omega arith; total = refl; manifests = λ h. h; keeps = λ q h. h })
  count_refs-IsCount (r ∷ rs) cov after h = elim (Result-cases (parse_ref r)) [
    | inr (e, q) ↦ absurd (cc (rw q at h))
    | inl (p, q) ↦
        let one = count_ref-IsCount r p cov in
        let more = count_refs-IsCount rs (count_ref r p cov) after (rw q at h) in
        record {
          counts = omega (arith, one.counts, more.counts);
          total = more.total ∙ one.total;
          manifests = λ m. more.manifests (one.manifests m);
          keeps = λ q m. more.keeps q (one.keeps q m);
        }
  ]

  -- In what the count of a payload gives, every image is counted once: as full, as missing or as on
  -- another registry; and of the missing ones those that have a manifest are a part.
  pub payload_coverage_counts :
      (refs : List Text) (cov : Coverage)
      → payload_coverage refs ≡ ok cov
      → (cov.total ≡ length refs)
        × (cov.full + length cov.missing + cov.elsewhere ≡ cov.total)
        × (cov.manifest_only ≤ length cov.missing)
  unfolding payload_coverage
  payload_coverage_counts refs cov h =
      let n = count_refs-IsCount refs _ cov h in
      (n.total, omega (arith, n.counts, n.total), n.manifests (omega arith))

  not_missing :
      (r : Text) (p : ImageRef) (cov : Coverage)
      → p.host ≡ u.host
      → mem r (count_ref r p cov).missing ≡ false
      → (image_on_disk c v p.repo p.ref platform).full ≡ true
  unfolding count_ref count_image
  not_missing r p cov h m =
      ground (arith, eq_iff p.host u.host, mem-append r cov.missing (r ∷ []), mem_singleton r)

  first_absent :
      (s r : Text) (o p : ImageRef) (cov after : Coverage) (rs : List Text)
      → s ≡ r
      → o ≡ p
      → count_refs rs (count_ref s o cov) ≡ ok after
      → mem r after.missing ≡ false
      → mem r (count_ref r p cov).missing ≡ false
  first_absent s r o p cov after rs e f h m =
      let g : count_refs rs (count_ref r p cov) ≡ ok after = sym (ap2 e f) ∙ h in
      elim (Bool-cases (mem r (count_ref r p cov).missing)) [
        | inr out ↦ out
        | inl listed ↦
            absurd (cc ((count_refs-IsCount rs (count_ref r p cov) after g).keeps r listed, m))
      ]
    where
      ap2 : s ≡ r → o ≡ p → count_refs rs (count_ref s o cov) ≡ count_refs rs (count_ref r p cov)
      ap2 e f = cc

  listed_full :
      (r : Text) (p : ImageRef) (rs : List Text) (cov after : Coverage)
      → count_refs rs cov ≡ ok after
      → mem r rs ≡ true
      → parse_ref r ≡ ok p
      → p.host ≡ u.host
      → mem r after.missing ≡ false
      → (image_on_disk c v p.repo p.ref platform).full ≡ true
  unfolding count_refs mem
  listed_full r p [] cov after h l q same m = cc
  listed_full r p (s ∷ rs) cov after h l q same m = elim (Result-cases (parse_ref s)) [
    | inr (e, w) ↦ absurd (cc (rw w at h))
    | inl (o, w) ↦
        let rest : count_refs rs (count_ref s o cov) ≡ ok after = rw w at h in
        elim (Bool-cases (eq s r)) [
          | inr other ↦ listed_full r p rs (count_ref s o cov) after rest (rw other at l) q same m
          | inl this ↦
              let e : s ≡ r = (eq_iff s r).0 this in
              let po : o ≡ p = cc in
              not_missing r p cov same (first_absent s r o p cov after rs e po rest m)
        ]
  ]

  -- What the count of a payload does not list as missing is completely on disk, of the images that
  -- are on the registry of the cache.
  pub payload_coverage_sound :
      (refs : List Text) (cov : Coverage) (r : Text) (p : ImageRef)
      → payload_coverage refs ≡ ok cov
      → mem r refs ≡ true
      → parse_ref r ≡ ok p
      → p.host ≡ u.host
      → mem r cov.missing ≡ false
      → IsComplete c v p.repo p.ref platform
  unfolding payload_coverage
  payload_coverage_sound refs cov r p h l q same m =
      image_on_disk_sound c v p.repo p.ref platform (listed_full r p refs _ cov h l q same m)
