-- ===== src/Text/Equality.antt =====
-- `==` of Go strings decides equality.
use regcachectl.Base.{◌≡◌, ◌↔◌, refl, true, [], ◌∷◌, arith, some, ◌++◌}
use regcachectl.Text.{Text, eq, strip, is_empty}

pub eq_sound : (s t : Text) → eq s t ≡ true → s ≡ t
unfolding eq
eq_sound [] [] h = refl
eq_sound [] (y ∷ t) h = cc
eq_sound (x ∷ s) [] h = cc
eq_sound (x ∷ s) (y ∷ t) h = ground (arith, eq_sound s t)

pub eq_refl : (s : Text) → eq s s ≡ true
unfolding eq
eq_refl [] = refl
eq_refl (x ∷ s) = ground (arith, eq_refl s)

pub eq_iff : (s t : Text) → (eq s t ≡ true) ↔ (s ≡ t)
eq_iff s t = (eq_sound s t, λ p. subst_eq p)
  where
    subst_eq : s ≡ t → eq s t ≡ true
    subst_eq p = rw (← p) (eq_refl s)

pub eq_comm : (s t : Text) → eq s t ≡ eq t s
eq_comm s t = ground (arith, eq_iff s t, eq_iff t s)

pub strip-append : (p s : Text) → strip p (p ++ s) ≡ some s
unfolding strip
strip-append [] s = refl
strip-append (x ∷ p) s = ground (arith, strip-append p s)

pub strip_sound : (p s t : Text) → strip p s ≡ some t → s ≡ p ++ t
unfolding strip
strip_sound [] s t h = ground arith
strip_sound (x ∷ p) [] t h = cc
strip_sound (x ∷ p) (y ∷ s) t h = ground (arith, strip_sound p s t)

pub is_empty_iff : (s : Text) → (is_empty s ≡ true) ↔ (s ≡ [])
unfolding is_empty
is_empty_iff s = ground arith
