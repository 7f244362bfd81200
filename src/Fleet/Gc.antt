-- ===== src/Fleet/Gc.antt =====
-- `GC` and `gcOne` of internal/cache/cache.go.
use regcachectl.Base.{Bool, not, List, [], ◌∷◌, ◌++◌, if◌then◌else◌}
use regcachectl.Base.Results.{Result, ok, err}
use regcachectl.Text.{utf8, Text, codes, contains}
use regcachectl.Upstream.{Upstream, upstreams}
use regcachectl.Engine.{container}
use regcachectl.Io.{Io, Runtime, pure, lift, attempt, wrapped, ◌>>=◌, ◌>>◌, run, run_detached, log}
use regcachectl.Fleet.Summary.{gc_summary}
use regcachectl.Fleet.Commands.{stop_args, start_args, gc_args}
use regcachectl.Fleet.Query.{container_state, container_image, pad9}

pub blobcache_line : Upstream → Text
blobcache_line u = utf8 "  · " ++ (pad9 u.name ++ codes " blobcache (digest-keyed; no gc)")

pub empty_line : Upstream → Text
empty_line u = utf8 "  · " ++ (pad9 u.name ++ codes " empty")

pub gc_error : Upstream → Text → Text
gc_error u e = codes "gc " ++ (u.name ++ (codes ": " ++ e))

pub path_not_found : Text
path_not_found = codes "Path not found"

module _ (rt : Runtime) where
  pub summary_line : Upstream → Text → Text
  summary_line u out = utf8 "  ♻ " ++ (pad9 u.name ++ (codes " " ++ gc_summary out))

  -- what is done with the result of the run: an empty cache is no error
  unfoldable pub collected : Upstream → Result Text → Io (Unit {0})
  collected u (ok out) = log (summary_line u out)
  collected u (err e) = if contains e path_not_found then log (empty_line u) else lift (err e)

  abbrev first_error : Result (Unit {0}) → Result Text → Result (Unit {0})
  first_error (ok x) (ok y) = ok tt
  first_error (ok x) (err e) = err e
  first_error (err e) r = err e

  -- The deferred start comes last on every path, and its error counts where there is no other.
  unfoldable pub collect : Upstream → Text → Bool → Io (Unit {0})
  collect u image delete_untagged = do
    out ← attempt (run rt (gc_args u image delete_untagged))
    result ← attempt (collected u out)
    started ← attempt (run_detached rt (start_args (container u)))
    lift (first_error result started)

  unfoldable pub gc_one : Upstream → Bool → Io (Unit {0})
  gc_one u delete_untagged = do
    image ← container_image rt (container u)
    stopped ← run rt (stop_args (container u))
    collect u image delete_untagged

  unfoldable pub gc_cache : Bool → Upstream → Io (Unit {0})
  gc_cache delete_untagged u = do
    c ← container_state rt (container u)
    if not c.running
        then pure tt
        else if u.blobcache
        then log (blobcache_line u)
        else wrapped (gc_error u) (gc_one u delete_untagged)

  unfoldable pub gc_loop : Bool → List Upstream → Io (Unit {0})
  gc_loop delete_untagged [] = pure tt
  gc_loop delete_untagged (u ∷ us) = do gc_cache delete_untagged u; gc_loop delete_untagged us

  unfoldable pub gc : Bool → Io (Unit {0})
  gc delete_untagged = gc_loop delete_untagged upstreams
