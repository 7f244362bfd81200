-- ===== src/Base/Stateful.antt =====
-- Actions on a state, which an error keeps too.
use mathlib.Core.Path.{◌≡◌, refl, ap, subst, ◌∙◌}
use mathlib.Core.List.{List}
use Prim.Native.Nat.{ℕ}
use regcachectl.Base.Results.{Result, ok, err, wrap}

abbrev pub Stateful {ℓ κ} : Type ℓ → Type κ → Type (ℓ ⊔ κ)
Stateful S A = S → Result A × S

module _ {ℓ κ} {S : Type ℓ} {A : Type κ} where
  unfoldable pub pure : A → Stateful S A
  pure a s = (ok a, s)

  unfoldable pub raise : List ℕ → Stateful S A
  raise e s = (err e, s)

  unfoldable pub lift : Result A → Stateful S A
  lift r s = (r, s)

  -- the error as a value, as in `if _, err := …; err != nil`
  unfoldable pub attempt : Stateful S A → Stateful S (Result A)
  attempt m s = let (r, s') = m s in (ok r, s')

  -- `fmt.Errorf("…: %w", err)` around an action
  unfoldable pub wrapped : (List ℕ → List ℕ) → Stateful S A → Stateful S A
  wrapped f m s = let (r, s') = m s in (wrap f r, s')

module _ {ℓ κ υ} {S : Type ℓ} {A : Type κ} {B : Type υ} where
  abbrev pub continue : Result A → (A → Stateful S B) → Stateful S B
  continue (ok a) f s = f a s
  continue (err e) f s = (err e, s)

  infixl 5 ◌>>=◌
  unfoldable pub ◌>>=◌ : Stateful S A → (A → Stateful S B) → Stateful S B
  ◌>>=◌ m f s = let (r, s') = m s in continue r f s'

  -- A chain succeeds if its first step does, and the rest from any state.
  pub ok_bind :
      (m : Stateful S A) (f : A → Stateful S B) (s : S) (a : A) (b : B)
      → (m s).0 ≡ ok a
      → ((t : S) → (f a t).0 ≡ ok b)
      → ((m >>= f) s).0 ≡ ok b
  unfolding ◌>>=◌
  ok_bind m f s a b h k = ap (λ r. (continue r f (m s).1).0) h ∙ k (m s).1

  -- A chain that succeeds has a first step that does.
  pub bind_ok :
      (m : Stateful S A) (f : A → Stateful S B) (s : S) {b : B}
      → ((m >>= f) s).0 ≡ ok b
      → (a : A) × ((m s).0 ≡ ok a) × ((f a (m s).1).0 ≡ ok b)
  unfolding ◌>>=◌
  bind_ok m f s {b} h = go (m s).0 refl h
    where
      go :
          (r : Result A)
          → (m s).0 ≡ r
          → (continue r f (m s).1).0 ≡ ok b
          → (a : A) × ((m s).0 ≡ ok a) × ((f a (m s).1).0 ≡ ok b)
      go (ok a) q g = (a, q, g)
      go (err e) q g = cc

-- Whatever state `m` starts in: if it succeeds, its result satisfies `Q`.
pub record Gives {ℓ κ υ} {S : Type ℓ} {A : Type κ} (Q : A → Type υ) (m : Stateful S A)
    : Type (ℓ ⊔ κ ⊔ υ) where
  pub at : (s : S) (a : A) → (m s).0 ≡ ok a → Q a

module _ {ℓ κ υ ι} {S : Type ℓ} {A : Type κ} {B : Type υ} {Q : B → Type ι} where
  pub Gives-bind {ν} :
      {P : A → Type ν} (m : Stateful S A) (f : A → Stateful S B)
      → Gives P m
      → ((a : A) → P a → Gives Q (f a))
      → Gives Q (m >>= f)
  Gives-bind m f k l = record {
    at = λ s b h. let (a, q, e) = bind_ok m f s h in (l a (k.at s a q)).at (m s).1 b e;
  }

  pub Gives-then :
      (m : Stateful S A) (f : A → Stateful S B) → ((a : A) → Gives Q (f a)) → Gives Q (m >>= f)
  Gives-then m f l = record {
    at = λ s b h. let (a, q, e) = bind_ok m f s h in (l a).at (m s).1 b e;
  }

module _ {ℓ κ} {S : Type ℓ} {A : Type κ} where
  pub Gives-imp {υ ι} :
      {P : A → Type υ} {Q : A → Type ι} (m : Stateful S A)
      → Gives P m
      → ((a : A) → P a → Q a)
      → Gives Q m
  Gives-imp m k f = record { at = λ s a h. f a (k.at s a h) }

  -- The weakest: the result is one of `m`.
  pub Gives-run : (m : Stateful S A) → Gives (λ a. (s : S) × ((m s).0 ≡ ok a)) m
  Gives-run m = record { at = λ s a h. (s, h) }

  pub Gives-pure {υ} : {Q : A → Type υ} (a : A) → Q a → Gives {S = S} Q (pure a)
  unfolding pure
  Gives-pure {Q = Q} a q = record { at = λ s b h. let e : a ≡ b = cc in subst Q e q }

  pub Gives-lift : (r : Result A) → Gives {S = S} (λ a. r ≡ ok a) (lift r)
  unfolding lift
  Gives-lift r = record { at = λ s a h. h }

-- A result of the action, with the state behind it, satisfies `Q`.
pub record Yields {ℓ κ υ} {S : Type ℓ} {A : Type κ} (Q : A → S → Type υ) (m : Stateful S A)
    : Type (ℓ ⊔ κ ⊔ υ) where
  pub at : (s : S) (a : A) → (m s).0 ≡ ok a → Q a (m s).1

module _ {ℓ κ υ ι} {S : Type ℓ} {A : Type κ} {B : Type υ} {Q : B → S → Type ι} where
  pub Yields-bind {ν} :
      {P : A → Type ν} (m : Stateful S A) (f : A → Stateful S B)
      → Gives P m
      → ((a : A) → P a → Yields Q (f a))
      → Yields Q (m >>= f)
  unfolding ◌>>=◌
  Yields-bind m f k l = record { at = λ s b h. go s (m s).0 (m s).1 refl b h }
    where
      go :
          (s : S) (r : Result A) (s' : S)
          → ((m s).0 ≡ r)
          → (b : B) → (continue r f s').0 ≡ ok b
          → Q b (continue r f s').1
      go s (ok a) s' q b h = (l a (k.at s a q)).at s' b h
      go s (err x) s' q b h = cc

  pub Yields-then :
      (m : Stateful S A) (f : A → Stateful S B) → ((a : A) → Yields Q (f a)) → Yields Q (m >>= f)
  Yields-then m f l = Yields-bind m f (Gives-run m) (λ a h. l a)

infixl 5 ◌>>◌
abbrev pub ◌>>◌ {ℓ κ} :
    {S : Type ℓ} {B : Type κ} → Stateful S (Unit {0}) → Stateful S B → Stateful S B
m >> k = m >>= λ _. k

-- From a state that satisfies `P`, the result and the state behind it satisfy `Q`, also for an error.
pub record Ends {ℓ κ υ ι} {S : Type ℓ} {A : Type κ} (P : S → Type υ) (Q : Result A → S → Type ι)
    (m : Stateful S A) : Type (ℓ ⊔ κ ⊔ υ ⊔ ι) where
  pub at : (s : S) → P s → Q (m s).0 (m s).1

module _ {ℓ κ υ ι ν ξ} {S : Type ℓ} {A : Type κ} {B : Type υ} {P : S → Type ι}
    {R : Result A → S → Type ν} {Q : Result B → S → Type ξ} where
  pub Ends-bind :
      (m : Stateful S A) (f : A → Stateful S B)
      → Ends P R m
      → ((a : A) → Ends (R (ok a)) Q (f a))
      → ((x : List ℕ) (s : S) → R (err x) s → Q (err x) s)
      → Ends P Q (m >>= f)
  unfolding ◌>>=◌
  Ends-bind m f k l fails = record { at = λ s p. go (m s).0 (m s).1 (k.at s p) }
    where
      go : (r : Result A) (s : S) → R r s → Q (continue r f s).0 (continue r f s).1
      go (ok a) s h = (l a).at s h
      go (err x) s h = fails x s h

  -- The same where the result of the first step satisfies `V` too.
  pub Ends-bind_gives {ο} :
      {V : A → Type ο} (m : Stateful S A) (f : A → Stateful S B)
      → Gives V m
      → Ends P R m
      → ((a : A) → V a → Ends (R (ok a)) Q (f a))
      → ((x : List ℕ) (s : S) → R (err x) s → Q (err x) s)
      → Ends P Q (m >>= f)
  unfolding ◌>>=◌
  Ends-bind_gives {V = V} m f v k l fails = record {
    at = λ s p. go (m s).0 (m s).1 (λ a q. v.at s a q) (k.at s p);
  }
    where
      go :
          (r : Result A) (s : S)
          → ((a : A) → r ≡ ok a → V a)
          → R r s
          → Q (continue r f s).0 (continue r f s).1
      go (ok a) s w h = (l a (w a refl)).at s h
      go (err x) s w h = fails x s h

module _ {ℓ κ υ ι} {S : Type ℓ} {A : Type κ} {P : S → Type υ} {Q : Result A → S → Type ι} where
  pub Ends-pure : (a : A) → ((s : S) → P s → Q (ok a) s) → Ends P Q (pure a)
  unfolding pure
  Ends-pure a h = record { at = h }

  pub Ends-raise : (x : List ℕ) → ((s : S) → P s → Q (err x) s) → Ends P Q (raise x)
  unfolding raise
  Ends-raise x h = record { at = h }
