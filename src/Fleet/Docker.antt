-- ===== src/Fleet/Docker.antt =====
-- What internal/cache/cache.go relies on of a container runtime (docker or podman), as named
-- hypotheses: how `ps` reports a container, and what `start` and `run -d` do to it.
use regcachectl.Base.{◌≡◌, ℕ, Bool, true, false, ◌&&◌, ◌||◌, List, [], ◌∷◌, Option, none, some}
use regcachectl.Base.Results.{ok}
use regcachectl.Text.{Text, codes, eq, trim_space}
use regcachectl.Upstream.{Upstream}
use regcachectl.Engine.{Engine, container}
use regcachectl.Io.{Event, ran, ran_detached, logged, History, Runtime}
use regcachectl.Fleet.Commands.{ps_args, start_args, run_args}
use regcachectl.Fleet.Query.{Container, container_answer}

is_change : Text → Bool
is_change w = eq w (codes "start") || eq w (codes "stop")

-- A command that may change the container `n`: `start n`, `stop n`, `rm -f n` and
-- `run -d --name n …`.
unfoldable pub changes : Text → List Text → Bool
unfolding is_change
changes n (w ∷ x ∷ []) = is_change w && eq x n
changes n (w ∷ x ∷ y ∷ []) = eq w (codes "rm") && eq y n
changes n (w ∷ x ∷ y ∷ z ∷ more) = eq w (codes "run") && eq z n
changes n _ = false

unfoldable pub changed_by : Text → Event → Bool
unfolding changes
changed_by n (ran args) = changes n args
changed_by n (ran_detached args) = changes n args
changed_by n (logged line) = false

-- how `ps` reports a container that is absent, or there and running or not
abbrev pub reported : Option Bool → Container
reported none = record { exists = false; running = false }
reported (some running) = record { exists = true; running = running }

-- `state es n`: the container `n` behind the history `es`; `none` if there is none, or whether it
-- runs.
pub record Docker (rt : Runtime) : Type 0 where
  pub state : History → Text → Option Bool
  pub observed :
      (es : History) (n out : Text)
      → rt es (ran (ps_args n)) ≡ ok out
      → container_answer (trim_space out) ≡ reported (state es n)
  pub starts :
      (es : History) (n out : Text)
      → rt es (ran (start_args n)) ≡ ok out
      → state (ran (start_args n) ∷ es) n ≡ some true
  pub creates :
      (es : History) (e : Engine) (u : Upstream) (p : ℕ) (out : Text)
      → rt es (ran (run_args e u p)) ≡ ok out
      → state (ran (run_args e u p) ∷ es) (container u) ≡ some true
  pub settled :
      (es : History) (n : Text) (ev : Event)
      → changed_by n ev ≡ false
      → state (ev ∷ es) n ≡ state es n
