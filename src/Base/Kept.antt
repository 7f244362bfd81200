-- ===== src/Base/Kept.antt =====
-- Invariants of the state of an action: one rule for each way to build an action.
use mathlib.Core.Bool.{Bool, true, false}
use mathlib.Core.List.{List}
use Prim.Native.Nat.{ℕ}
use regcachectl.Base.Tests.{if◌then◌else◌}
use regcachectl.Base.Results.{Result, ok, err}
use regcachectl.Base.Stateful.{Stateful, pure, raise, lift, attempt, wrapped, ◌>>=◌, continue}

-- `m` keeps `P`, whether it succeeds or fails.
pub record Kept {ℓ κ υ} {S : Type ℓ} {A : Type κ} (P : S → Type υ) (m : Stateful S A)
    : Type (ℓ ⊔ υ) where
  pub at : (s : S) → P s → P (m s).1

module _ {ℓ κ υ} {S : Type ℓ} {A : Type κ} {P : S → Type υ} where
  pub Kept-pure : (a : A) → Kept P (pure a)
  unfolding pure
  Kept-pure a = record { at = λ s h. h }

  pub Kept-raise : (e : List ℕ) → Kept P (raise {A = A} e)
  unfolding raise
  Kept-raise e = record { at = λ s h. h }

  pub Kept-lift : (r : Result A) → Kept P (lift r)
  unfolding lift
  Kept-lift r = record { at = λ s h. h }

  pub Kept-attempt : (m : Stateful S A) → Kept P m → Kept P (attempt m)
  unfolding attempt
  Kept-attempt m k = record { at = k.at }

  pub Kept-wrapped : (f : List ℕ → List ℕ) (m : Stateful S A) → Kept P m → Kept P (wrapped f m)
  unfolding wrapped
  Kept-wrapped f m k = record { at = k.at }

  pub Kept-if : (b : Bool) (m n : Stateful S A) → Kept P m → Kept P n → Kept P (if b then m else n)
  Kept-if true m n km kn = km
  Kept-if false m n km kn = kn

module _ {ℓ κ υ ι} {S : Type ℓ} {A : Type κ} {B : Type υ} {P : S → Type ι} where
  pub Kept-bind :
      (m : Stateful S A) (f : A → Stateful S B)
      → Kept P m
      → ((a : A) → Kept P (f a))
      → Kept P (m >>= f)
  unfolding ◌>>=◌
  Kept-bind m f km kf = record { at = λ s h. go (m s).0 (m s).1 (km.at s h) }
    where
      go : (r : Result A) (s : S) → P s → P (continue r f s).1
      go (ok a) s h = (kf a).at s h
      go (err e) s h = h

pub ruleset kept_rules =
    (Kept-pure, Kept-raise, Kept-lift, Kept-attempt, Kept-wrapped, Kept-if, Kept-bind)
