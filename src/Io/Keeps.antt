-- ===== src/Io/Keeps.antt =====
-- Invariants of the history: one rule for each way to build an action.
use regcachectl.Base.{Bool, true, false, List, ◌∷◌, if◌then◌else◌, All}
use regcachectl.Base.Results.{Result, ok, err}
use regcachectl.Text.{Text}
use regcachectl.Io.{
  Event, ran, ran_detached, logged, History, Runtime, Io, pure, raise, lift, attempt, wrapped,
  ◌>>=◌, continue, run, run_detached, log,
}

-- `m` keeps `Q`, whether it succeeds or fails.
pub record Keeps {ℓ} {A : Type ℓ} (Q : History → Type 0) (m : Io A) : Type ℓ where
  pub at : (es : History) → Q es → Q (m es).1

-- `Q` outlasts the event.
pub record IsStable (Q : History → Type 0) (ev : Event) : Type 0 where
  pub step : (es : History) → Q es → Q (ev ∷ es)

-- Every event of a history satisfies `P`.
pub All-IsStable : {P : Event → Type 0} (ev : Event) → P ev → IsStable (All P) ev
All-IsStable ev p = record { step = λ es h. (p, h) }

module _ {ℓ} {A : Type ℓ} {Q : History → Type 0} where
  pub Keeps-pure : (a : A) → Keeps Q (pure a)
  unfolding pure
  Keeps-pure a = record { at = λ es h. h }

  pub Keeps-raise : (e : Text) → Keeps Q (raise {A = A} e)
  unfolding raise
  Keeps-raise e = record { at = λ es h. h }

  pub Keeps-lift : (r : Result A) → Keeps Q (lift r)
  unfolding lift
  Keeps-lift r = record { at = λ es h. h }

  pub Keeps-wrapped : (f : Text → Text) (m : Io A) → Keeps Q m → Keeps Q (wrapped f m)
  unfolding wrapped
  Keeps-wrapped f m k = record { at = k.at }

  pub Keeps-if : (b : Bool) (m n : Io A) → Keeps Q m → Keeps Q n → Keeps Q (if b then m else n)
  Keeps-if true m n km kn = km
  Keeps-if false m n km kn = kn

module _ {ℓ} {A : Type ℓ} {Q : History → Type 0} where
  pub Keeps-attempt : (m : Io A) → Keeps Q m → Keeps Q (attempt m)
  unfolding attempt
  Keeps-attempt m k = record { at = k.at }

module _ {ℓ κ} {A : Type ℓ} {B : Type κ} {Q : History → Type 0} where
  pub Keeps-bind :
      (m : Io A) (f : A → Io B) → Keeps Q m → ((a : A) → Keeps Q (f a)) → Keeps Q (m >>= f)
  unfolding ◌>>=◌
  Keeps-bind m f km kf = record { at = λ es h. go (m es).0 (m es).1 (km.at es h) }
    where
      go : (r : Result A) (es : History) → Q es → Q (continue r f es).1
      go (ok a) es h = (kf a).at es h
      go (err e) es h = h

module _ {Q : History → Type 0} where
  pub Keeps-run : (rt : Runtime) (args : List Text) → IsStable Q (ran args) → Keeps Q (run rt args)
  unfolding run
  Keeps-run rt args p = record { at = p.step }

  pub Keeps-run_detached :
      (rt : Runtime) (args : List Text)
      → IsStable Q (ran_detached args)
      → Keeps Q (run_detached rt args)
  unfolding run_detached
  Keeps-run_detached rt args p = record { at = p.step }

  pub Keeps-log : (line : Text) → IsStable Q (logged line) → Keeps Q (log line)
  unfolding log
  Keeps-log line p = record { at = p.step }

pub ruleset keeps_rules = (
  Keeps-pure, Keeps-raise, Keeps-lift, Keeps-wrapped, Keeps-if, Keeps-attempt, Keeps-bind,
  Keeps-run, Keeps-run_detached, Keeps-log,
)
