-- ===== src/Platform.antt =====
-- Platforms of a multi-arch image: the strings of `parseIndex`, `platformMatches` and `isIndex` of
-- internal/cache/pull.go.
use regcachectl.Base.{
  ◌≡◌, ◌↔◌, ◌⊎◌, inl, inr, refl, ap, sym, ◌∙◌, ◌≤◌, Bool, true, false, ◌&&◌, ◌||◌, List, [], ◌∷◌,
  ◌++◌, map, Option, none, some, arith, if◌then◌else◌, ◌==◌, append_assoc, Bool-cases,
}
use regcachectl.Text.{
  Text, codes, slash, eq, is_empty, has_prefix, trim_prefix, strip, is_some, count, join,
}
use regcachectl.Text.Equality.{eq_iff, is_empty_iff, strip_sound, strip-append}
use regcachectl.Text.Search.{count-append}

-- one child of an index, as `json.Unmarshal` fills it
pub record Child : Type 0 where
  pub digest : Text
  pub os : Text
  pub arch : Text
  pub variant : Text

pub record IndexEntry : Type 0 where
  pub digest : Text
  pub plat : Text

unfoldable pub attestation : Text
attestation = codes "attestation"

unfoldable pub platform_name : Child → Text
unfolding attestation
platform_name c =
    let plain = trim_prefix (c.os ++ slash ∷ c.arch) (slash ∷ []) in
    let plat = if is_empty c.variant then plain else plain ++ slash ∷ c.variant in
    if is_empty plat || eq plat (codes "unknown/unknown") then attestation else plat

-- `parseIndex`, behind the decoding
unfoldable pub index_entries : List Child → List IndexEntry
unfolding platform_name
index_entries = map λ c. record { digest = c.digest; plat = platform_name c }

unfoldable pub platform_matches : Text → Text → Bool
platform_matches want plat =
    is_empty want || eq plat want || (count slash want == 1 && has_prefix plat (want ++ slash ∷ []))

unfoldable pub oci_index : Text
oci_index = codes "application/vnd.oci.image.index.v1+json"

unfoldable pub docker_list : Text
docker_list = codes "application/vnd.docker.distribution.manifest.list.v2+json"

unfoldable pub is_index : Text → Bool
is_index content_type = has_prefix content_type oci_index || has_prefix content_type docker_list

unfoldable pub manifest_accept : Text
manifest_accept = join (codes ", ") (
    oci_index
    ∷ docker_list
    ∷ codes "application/vnd.oci.image.manifest.v1+json"
    ∷ codes "application/vnd.docker.distribution.manifest.v2+json"
    ∷ [])

has_prefix_iff : (s p : Text) → (has_prefix s p ≡ true) ↔ ((t : Text) × (s ≡ p ++ t))
unfolding has_prefix
has_prefix_iff s p = (there (strip p s) refl, λ (t, e). rw (e, strip-append p t) refl)
  where
    there : (o : Option Text) → strip p s ≡ o → is_some o ≡ true → (t : Text) × (s ≡ p ++ t)
    there none e h = cc
    there (some t) e h = (t, strip_sound p s t e)

-- A platform is wanted exactly when nothing in particular is wanted, or it is the one that is
-- wanted, or a variant of it where an operating system and an architecture are wanted.
pub platform_matches_iff :
    (want plat : Text)
    → (platform_matches want plat ≡ true) ↔ (
        (want ≡ [])
        ⊎ (plat ≡ want)
        ⊎ ((count slash want ≡ 1) × ((variant : Text) × (plat ≡ want ++ slash ∷ variant))))
unfolding platform_matches
platform_matches_iff want plat = (taken, given)
  where
    taken :
        platform_matches want plat ≡ true
        → (want ≡ [])
          ⊎ (plat ≡ want)
          ⊎ ((count slash want ≡ 1) × ((variant : Text) × (plat ≡ want ++ slash ∷ variant)))
    taken h = elim (Bool-cases (is_empty want)) [
      | inl all ↦ inl ((is_empty_iff want).0 all)
      | inr some_want ↦ elim (Bool-cases (eq plat want)) [
        | inl same ↦ inr (inl ((eq_iff plat want).0 same))
        | inr differs ↦
            let one : count slash want ≡ 1 = ground arith in
            let begins : has_prefix plat (want ++ slash ∷ []) ≡ true = ground arith in
            let (variant, e) = (has_prefix_iff plat (want ++ slash ∷ [])).0 begins in
            inr (inr (one, (variant, e ∙ append_assoc want (slash ∷ []) variant)))
      ]
    ]

    given :
        (want ≡ [])
          ⊎ (plat ≡ want)
          ⊎ ((count slash want ≡ 1) × ((variant : Text) × (plat ≡ want ++ slash ∷ variant)))
        → platform_matches want plat ≡ true
    given (inl none_wanted) = ground (arith, is_empty_iff want)
    given (inr (inl same)) = ground (arith, eq_iff plat want)
    given (inr (inr (one, (variant, e)))) =
        let begins : has_prefix plat (want ++ slash ∷ []) ≡ true =
          (has_prefix_iff plat (want ++ slash ∷ [])).1
            (variant, e ∙ sym (append_assoc want (slash ∷ []) variant)) in
        ground arith

attestation-count : count slash attestation ≡ 0
unfolding attestation count
attestation-count = refl

nil-count : count slash [] ≡ 0
unfolding count
nil-count = refl

not-attestation :
    (want : Text)
    → 1 ≤ count slash want
    → (want ≡ [])
      ⊎ (attestation ≡ want)
      ⊎ ((count slash want ≡ 1) × ((variant : Text) × (attestation ≡ want ++ slash ∷ variant)))
    → ⊥
not-attestation want h (inl e) = omega (arith, ap (count slash) e, nil-count)
not-attestation want h (inr (inl e)) = omega (arith, ap (count slash) e, attestation-count)
not-attestation want h (inr (inr (one, (variant, e)))) =
    omega (arith, ap (count slash) e, attestation-count, count-append slash want (slash ∷ variant))

-- The attestations of an index are not taken for a platform that names an operating system and an
-- architecture.
pub platform_matches-attestation :
    (want : Text) → 1 ≤ count slash want → platform_matches want attestation ≡ false
platform_matches-attestation want h = elim (Bool-cases (platform_matches want attestation)) [
  | inl wanted ↦ absurd (not-attestation want h ((platform_matches_iff want attestation).0 wanted))
  | inr other ↦ other
]
