-- ===== src/Coverage/Levels.antt =====
-- How many levels of indexes `localPlatformManifest` of internal/cache/coverage.go needs.
use regcachectl.Base.{
  ◌++◌, ◌≡◌, inl, inr, Option-cases, refl, ℕ, suc, true, false, List, [], Option, some, Bool-cases,
}
use regcachectl.Base.Results.{Result, ok, err, Result-cases}
use regcachectl.Text.{codes, Text}
use regcachectl.Platform.{Child, index_entries, is_index}
use regcachectl.Coverage.Payload.{
  wanted, pick_child, not_cached, no_platform, from_pick, from_index, from_manifest, one_level,
  platform_manifest,
}
use regcachectl.Coverage.{Codec, Store}

-- No child of an index that is taken for a platform is an index.
pub record IsFlat (c : Codec) (v : Store) (repo digest platform : Text) : Type 0 where
  pub leaf :
      (body content_type : Text) (cs : List Child) (d b t : Text)
      → v.read_manifest repo digest ≡ ok (body, content_type)
      → c.index body ≡ ok cs
      → pick_child (wanted platform) (index_entries cs) ≡ some d
      → v.read_manifest repo d ≡ ok (b, t)
      → is_index t ≡ false

-- A level gives a result where the child that it takes gives one.
level_found :
    (c : Codec) (v : Store) (repo : Text) (child : Text → Option (Result Text))
    (digest platform : Text)
    → ((body t : Text) (cs : List Child) (d : Text)
        → v.read_manifest repo digest ≡ ok (body, t)
        → is_index t ≡ true
        → c.index body ≡ ok cs
        → pick_child (wanted platform) (index_entries cs) ≡ some d
        → (r : Result Text) × (child d ≡ some r))
    → (r : Result Text) × (one_level c v repo child digest platform ≡ some r)
unfolding one_level from_manifest from_index from_pick
level_found c v repo child digest platform h = elim (Bool-cases (v.has_manifest repo digest)) [
  | inr missing ↦ (err (not_cached c v repo digest), rw missing refl)
  | inl held ↦ elim (Result-cases (v.read_manifest repo digest)) [
    | inr (e, q) ↦ (err e, simp (held, q))
    | inl ((body, t), q) ↦ elim (Bool-cases (is_index t)) [
      | inr plain ↦ (ok body, simp (held, q, plain))
      | inl multi ↦ elim (Result-cases (c.index body)) [
        | inr (e, w) ↦ (err (codes "parse manifest index: " ++ e), simp (held, q, multi, w))
        | inl (cs, w) ↦ elim (Option-cases (pick_child (wanted platform) (index_entries cs))) [
          | inl p ↦
              (err (no_platform c v repo digest (wanted platform)), simp (held, q, multi, w, p))
          | inr (d, p) ↦
              let (r, found) = h body t cs d q multi w p in (r, simp (held, q, multi, w, p, found))
        ]
      ]
    ]
  ]
]

-- Where no child that is taken is itself an index, two levels are enough to find the manifest for a
-- platform, or the error, and so is any greater depth.
pub platform_manifest_flat :
    (c : Codec) (v : Store) (repo digest platform : Text) (depth : ℕ)
    → IsFlat c v repo digest platform
    → (r : Result Text) × (platform_manifest c v repo (suc (suc depth)) digest platform ≡ some r)
unfolding platform_manifest
platform_manifest_flat c v repo digest platform depth f =
    level_found c v repo _ digest platform λ body t cs d q multi w p.
      level_found c v repo _ d []
        λ b t2 cs2 d2 q2 multi2 w2 p2. absurd (cc (f.leaf body t cs d b t2 q w p q2, multi2))
