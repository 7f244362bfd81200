-- ===== src/Release/Told.antt =====
-- What `warmImage` of internal/cache/pull.go tells of the manifests that it warms, and what it counts.
use regcachectl.Base.{
  ◌≡◌, ℕ, ◌+◌, not, List, [], ◌∷◌, ◌==◌, ◌&&◌, length, arith, Bool-cases, inl, inr,
}
use regcachectl.Base.Results.{ok, Result-cases}
use regcachectl.Text.{Text, is_empty}
use regcachectl.Platform.{IndexEntry, index_entries, is_index, platform_matches}
use regcachectl.Coverage.{Codec}
use regcachectl.Client.{Client, Session, Network, get_manifest, pure, raise, ◌>>=◌}
use regcachectl.Client.Warm.{
  warm_manifest_blobs, warm_children, some_manifest, warm_index, warm_top, warm_image,
}
use regcachectl.Release.Image.{Told, told_children, told_of}

-- the blobs that were told of
pub blobs_told : List Told → ℕ
blobs_told [] = 0
blobs_told (t ∷ ts) = t.blobs + blobs_told ts

-- What was told accounts for what was counted from `before`.
pub record Accounts (before after : ℕ × ℕ) (ts : List Told) : Type 0 where
  pub manifests : after.0 ≡ before.0 + length ts
  pub blobs : after.1 ≡ before.1 + blobs_told ts

module _ (net : Network) (c : Codec) (pc : Client) (platform : Text) where
  warm_children-Accounts :
      (ms : List IndexEntry) (s : Session) (n b : ℕ) (after : ℕ × ℕ)
      → (warm_children net c pc platform (n, b) ms s).0 ≡ ok after
      → Accounts (n, b) after (told_children net c pc platform ms s)
  unfolding warm_children told_children pure ◌>>=◌ blobs_told
  warm_children-Accounts [] s n b after h =
      let e : (n, b) ≡ after = cc in
      rw (← e) (record { manifests = omega arith; blobs = omega arith })
  warm_children-Accounts (m ∷ ms) s n b after h =
      elim (Bool-cases (platform_matches platform m.plat)) [
        | inr other ↦ rw other (warm_children-Accounts ms s n b after (rw other at h))
        | inl wanted ↦ elim (Result-cases (get_manifest net c pc m.digest s).0) [
          | inr (x, q) ↦ absurd (cc (rw (wanted, q) at h))
          | inl (fetched, q) ↦
              let s1 : Session = (get_manifest net c pc m.digest s).1 in
              elim (Result-cases (warm_manifest_blobs net c pc fetched.0 s1).0) [
                | inr (x, p) ↦ absurd (cc (rw (wanted, q, p) at h))
                | inl (k, p) ↦
                    let s2 : Session = (warm_manifest_blobs net c pc fetched.0 s1).1 in
                    let rest =
                      warm_children-Accounts ms s2 (n + 1) (b + k) after (rw (wanted, q, p) at h) in
                    rw (wanted, q, p)
                      (record {
                        manifests = omega (arith, rest.manifests);
                        blobs = omega (arith, rest.blobs);
                      })
              ]
        ]
      ]

  some_manifest_lem :
      (ref : Text) (counted after : ℕ × ℕ) (s : Session)
      → (some_manifest net c pc ref platform counted s).0 ≡ ok after
      → counted ≡ after
  unfolding some_manifest pure raise
  some_manifest_lem ref (n, b) after s h = elim (Bool-cases (n == 0 && not (is_empty platform))) [
    | inl missing ↦ absurd (cc (rw missing at h))
    | inr found ↦ cc (rw found at h)
  ]

  -- A pull tells of every manifest that it counts, and of every blob: where `warmImage` succeeds, as many
  -- manifests as it counts were told, with as many blobs in all.
  pub told_of-Accounts :
      (ref : Text) (s : Session) (counted : ℕ × ℕ)
      → (warm_image net c pc ref platform s).0 ≡ ok counted
      → Accounts (0, 0) counted (told_of net c pc ref platform s)
  unfolding warm_image told_of warm_top warm_index pure raise ◌>>=◌ blobs_told
  told_of-Accounts ref s counted h = elim (Result-cases (get_manifest net c pc ref s).0) [
    | inr (x, q) ↦ absurd (cc (rw q at h))
    | inl ((body, content_type), q) ↦
        let s1 : Session = (get_manifest net c pc ref s).1 in
        elim (Bool-cases (is_index content_type)) [
          | inr single ↦ elim (Result-cases (warm_manifest_blobs net c pc body s1).0) [
            | inr (x, p) ↦ absurd (cc (rw (q, single, p) at h))
            | inl (k, p) ↦
                let e : (1, k) ≡ counted = cc (rw (q, single, p) at h) in
                rw (q, single, p, ← e) (record { manifests = omega arith; blobs = omega arith })
          ]
          | inl index ↦ elim (Result-cases (c.index body)) [
            | inr (x, p) ↦ absurd (cc (rw (q, index, p) at h))
            | inl (cs, p) ↦
                elim (Result-cases
                  (warm_children net c pc platform (0, 0) (index_entries cs) s1).0) [
                    | inr (x, r) ↦ absurd (cc (rw (q, index, p, r) at h))
                    | inl (after, r) ↦
                        let e : after ≡ counted =
                          some_manifest_lem ref after counted _ (rw (q, index, p, r) at h) in
                        rw (q, index, p, ← e)
                          (warm_children-Accounts (index_entries cs) s1 0 0 after r)
                  ]
          ]
        ]
  ]
