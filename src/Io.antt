-- ===== src/Io.antt =====
-- What the engine of internal/cache does to the world: it runs the container runtime's CLI (`run`
-- of cache.go), and writes lines (`logf`). An action returns a value or an error, and the history of
-- what was done, the newest first, whether it succeeds or fails.
pub mod Keeps
use regcachectl.Base.{◌≡◌, refl, Bool, true, false, List, [], ◌∷◌, if◌then◌else◌, ◌++◌}
use regcachectl.Base.Results.{Result, ok, err}
use regcachectl.Text.{Text, trim_space}

-- `ran_detached`: a command that an interrupt does not stop (`context.Background()`).
pub data Event : Type 0 where
  ran : List Text → Event
  ran_detached : List Text → Event
  logged : Text → Event

abbrev pub History : Type 0
History = List Event

-- What the runtime answers: its output or an error, which may depend on all that was done before.
abbrev pub Runtime : Type 0
Runtime = History → Event → Result Text

abbrev pub Io {ℓ} : Type ℓ → Type ℓ
Io A = History → Result A × History

module _ {ℓ} {A : Type ℓ} where
  unfoldable pub pure : A → Io A
  pure a es = (ok a, es)

  unfoldable pub raise : Text → Io A
  raise e es = (err e, es)

  unfoldable pub lift : Result A → Io A
  lift r es = (r, es)

  -- The error of an action as a value, as in `if _, err := …; err != nil`.
  unfoldable pub attempt : Io A → Io (Result A)
  attempt m es = let (r, es') = m es in (ok r, es')

  abbrev pub wrap_error : (Text → Text) → Result A → Result A
  wrap_error f (ok a) = ok a
  wrap_error f (err e) = err (f e)

  -- `fmt.Errorf("…: %w", err)` around an action
  unfoldable pub wrapped : (Text → Text) → Io A → Io A
  wrapped f m es = let (r, es') = m es in (wrap_error f r, es')

module _ {ℓ κ} {A : Type ℓ} {B : Type κ} where
  abbrev pub continue : Result A → (A → Io B) → Io B
  continue (ok a) f es = f a es
  continue (err e) f es = (err e, es)

  infixl 5 ◌>>=◌
  unfoldable pub ◌>>=◌ : Io A → (A → Io B) → Io B
  unfolding pure raise lift attempt wrapped
  ◌>>=◌ m f es = let (r, es') = m es in continue r f es'

infixl 5 ◌>>◌
abbrev pub ◌>>◌ {ℓ} : {B : Type ℓ} → Io (Unit {0}) → Io B → Io B
m >> k = m >>= λ _. k

abbrev pub trimmed : Result Text → Result Text
trimmed (ok s) = ok (trim_space s)
trimmed (err e) = err e

-- `e.run`: the trimmed output
unfoldable pub run : Runtime → List Text → Io Text
run rt args es = (trimmed (rt es (ran args)), ran args ∷ es)

unfoldable pub run_detached : Runtime → List Text → Io Text
run_detached rt args es = (trimmed (rt es (ran_detached args)), ran_detached args ∷ es)

-- `e.logf`
unfoldable pub log : Text → Io (Unit {0})
log line es = (ok tt, logged line ∷ es)

-- the output of a command, empty where it fails, as in `out, _ := e.run(…)`
abbrev pub or_empty : Result Text → Text
or_empty (ok s) = s
or_empty (err e) = []
