-- ===== src/Release/InOrder.antt =====
-- `warmAll` of internal/cache/release.go with one warmer, which takes the references in order; `-j 1` and
-- any number below.
use regcachectl.Base.{ℕ, suc, List, [], ◌∷◌, length}
use regcachectl.Base.Stateful.{Stateful, pure, attempt, ◌>>=◌}
use regcachectl.Text.{Text}
use regcachectl.Engine.{Engine}
use regcachectl.Coverage.{Codec}
use regcachectl.Client.{Network}
use regcachectl.Release.{World, WarmResult, log_line, warm_ref, progress_line}

module _ (e : Engine) (net : Network) (c : Codec) (platform creds : Text) where
  -- the body of the loop, with the number of the images that are done behind it
  unfoldable pub warm_next : ℕ → ℕ → Text → Stateful World WarmResult
  warm_next done total ref = do
    outcome ← attempt (warm_ref e net c platform creds ref)
    logged ← log_line (progress_line e net c platform creds done total ref outcome)
    pure (record { ref = ref; outcome = outcome })

  unfoldable pub warm_rest : ℕ → ℕ → List Text → Stateful World (List WarmResult)
  warm_rest done total [] = pure []
  warm_rest done total (ref ∷ refs) = do
    r ← warm_next (suc done) total ref
    rs ← warm_rest (suc done) total refs
    pure (r ∷ rs)

  -- `warmAll` with one warmer
  unfoldable pub warm_all_in_order : List Text → Stateful World (List WarmResult)
  warm_all_in_order refs = warm_rest 0 (length refs) refs
