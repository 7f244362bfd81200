-- ===== src/Dict.antt =====
-- A directory of files, or a Go map with string keys, as an association list.
use regcachectl.Base.{◌≡◌, refl, List, [], ◌∷◌, Option, none, some, arith, if◌then◌else◌}
use regcachectl.Text.{Text, eq}
use regcachectl.Text.Equality.{eq_iff, eq_refl}

abbrev pub Dict {ℓ} : Type ℓ → Type ℓ
Dict V = List (Text × V)

module _ {ℓ} {V : Type ℓ} where
  unfoldable pub get : Text → Dict V → Option V
  get k [] = none
  get k ((j, v) ∷ m) = if eq j k then some v else get k m

  unfoldable pub put : Text → V → Dict V → Dict V
  put k v [] = (k, v) ∷ []
  put k v ((j, w) ∷ m) = if eq j k then (k, v) ∷ m else (j, w) ∷ put k v m

  unfoldable pub remove : Text → Dict V → Dict V
  remove k [] = []
  remove k ((j, w) ∷ m) = let rest = remove k m in if eq j k then rest else (j, w) ∷ rest

  pub get-put :
      (k j : Text) (v : V) (m : Dict V) → get j (put k v m) ≡ (if eq k j then some v else get j m)
  unfolding get put
  get-put k j v [] = refl
  get-put k j v ((i, w) ∷ m) = ground (arith, eq_iff k j, eq_iff i k, eq_iff i j, get-put k j v m)

  pub get-remove :
      (k j : Text) (m : Dict V) → get j (remove k m) ≡ (if eq k j then none else get j m)
  unfolding get remove
  get-remove k j [] = ground arith
  get-remove k j ((i, w) ∷ m) = ground (arith, eq_iff k j, eq_iff i k, eq_iff i j, get-remove k j m)

  pub get-put_self : (k : Text) (v : V) (m : Dict V) → get k (put k v m) ≡ some v
  get-put_self k v m = simp (get-put, eq_refl)

  pub ruleset dict_laws = (get-put, get-remove)
