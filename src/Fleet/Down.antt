-- ===== src/Fleet/Down.antt =====
-- `Down` of internal/cache/cache.go.
use regcachectl.Base.{Bool, List, [], ◌∷◌, ◌++◌, if◌then◌else◌}
use regcachectl.Text.{Text, codes}
use regcachectl.Upstream.{Upstream, upstreams}
use regcachectl.Engine.{container, volume}
use regcachectl.Io.{Io, Runtime, pure, attempt, ◌>>=◌, ◌>>◌, run, log}
use regcachectl.Fleet.Commands.{rm_args, volume_rm_args}
use regcachectl.Fleet.Query.{container_state, pad9}

pub removed_line : Upstream → Text
removed_line u = codes "  - " ++ (pad9 u.name ++ codes " removed")

pub purged_line : Upstream → Text
purged_line u = codes "  x " ++ (pad9 u.name ++ codes " volume purged")

module _ (rt : Runtime) (purge : Bool) where
  -- the result of `volume rm` is ignored
  unfoldable pub down_one : Upstream → Io (Unit {0})
  down_one u = do
    c ← container_state rt (container u)
    if c.exists then (do gone ← run rt (rm_args (container u)); log (removed_line u)) else pure tt
    if purge
        then (do ignored ← attempt (run rt (volume_rm_args (volume u))); log (purged_line u))
        else pure tt

  unfoldable pub down_loop : List Upstream → Io (Unit {0})
  down_loop [] = pure tt
  down_loop (u ∷ us) = do down_one u; down_loop us

  unfoldable pub down : Io (Unit {0})
  down = down_loop upstreams
