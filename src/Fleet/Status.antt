-- ===== src/Fleet/Status.antt =====
-- `Status` and `DetectRuntime` of internal/cache/cache.go. `total` is the size that `/_cache` of the blob
-- cache reports at a port, absent where `httpJSON` fails.
use regcachectl.Base.{ℕ, Bool, ◌&&◌, List, [], ◌∷◌, ◌++◌, Option, none, some, if◌then◌else◌}
use regcachectl.Base.Results.{Result, ok, err}
use regcachectl.Base.Stateful.{pure, attempt, ◌>>=◌}
use regcachectl.Text.{Text, codes, is_empty}
use regcachectl.Text.Paths.{fields}
use regcachectl.Upstream.{Upstream, indexed}
use regcachectl.Engine.{Engine, port, container}
use regcachectl.Io.{History, Runtime, Io, run}
use regcachectl.Fleet.Query.{Container, container_state}
use regcachectl.Listing.{human_bytes}

-- `Status`, less the field that nothing sets
pub record CacheStatus : Type 0 where
  pub name : Text
  pub host : Text
  pub port : ℕ
  pub state : Text
  pub disk_usage : Text

abbrev pub sized : CacheStatus → Option ℕ → CacheStatus
sized s none = s
sized s (some n) = record s { disk_usage = human_bytes n }

-- `strings.Fields(du)[0]`, which panics where there is no field
abbrev pub first_usage : CacheStatus → List Text → Option CacheStatus
first_usage s [] = none
first_usage s (f ∷ fs) = some (record s { disk_usage = f })

abbrev pub measured : CacheStatus → Result Text → Option CacheStatus
measured s (err x) = some s
measured s (ok du) = first_usage s (fields du)

unfoldable pub du_args : Text → List Text
du_args name = codes "exec" ∷ name ∷ codes "du" ∷ codes "-sh" ∷ codes "/var/lib/registry" ∷ []

abbrev pub with_status : CacheStatus → Option (List CacheStatus) → Option (List CacheStatus)
with_status s none = none
with_status s (some ss) = some (s ∷ ss)

module _ (rt : Runtime) (total : History → ℕ → Option ℕ) (e : Engine) where
  -- the status of a cache that runs; none is a panic
  unfoldable pub running_status : Upstream → CacheStatus → Io (Option CacheStatus)
  running_status u s =
      if u.blobcache
      then (λ es. (ok (some (sized s (total es s.port))), es))
      else (do du ← attempt (run rt (du_args (container u))); pure (measured s du))

  unfoldable pub status_of_cache : Upstream → Container → CacheStatus → Io (Option CacheStatus)
  status_of_cache u c s =
      if c.exists && c.running
      then running_status u (record s { state = codes "running" })
      else pure (some (if c.exists then record s { state = codes "stopped" } else s))

  abbrev pub or_panic :
      Io (Option (List CacheStatus)) → Option CacheStatus → Io (Option (List CacheStatus))
  or_panic rest none = pure none
  or_panic rest (some s) = do ss ← rest; pure (with_status s ss)

  unfoldable pub status_loop : List (ℕ × Upstream) → Io (Option (List CacheStatus))
  status_loop [] = pure (some [])
  status_loop ((i, u) ∷ us) = do
    c ← container_state rt (container u)
    s ← status_of_cache u c (record {
      name = u.name;
      host = u.host;
      port = port e i u;
      state = codes "absent";
      disk_usage = [];
    })
    or_panic (status_loop us) s

  -- `Status`
  unfoldable pub status : Io (Option (List CacheStatus))
  status = status_loop indexed

-- what the PATH and `version` tell of the runtimes
pub record Host : Type 0 where
  pub on_path : Text → Bool
  pub version_error : Text → Option Text

abbrev pub or_first : Text → Option Text → Option Text
or_first x none = some x
or_first x (some first) = some first

abbrev pub no_runtime : Option Text → Result Text
no_runtime none = err (codes "no container runtime found (tried docker and podman)")
no_runtime (some x) = err x

module _ (h : Host) where
  -- a candidate that is on the PATH, and the candidates behind it
  abbrev pub checked : Text → (Option Text → Result Text) → Option Text → Option Text → Result Text
  checked c rest first none = ok c
  checked c rest first (some x) = rest (or_first (c ++ codes " version: " ++ x) first)

  unfoldable pub try_runtimes : List Text → Option Text → Result Text
  try_runtimes [] first = no_runtime first
  try_runtimes (c ∷ cs) first =
      if is_empty c
      then try_runtimes cs first
      else (if h.on_path c
          then checked c (try_runtimes cs) first (h.version_error c)
          else try_runtimes cs (or_first (c ++ codes " not found on PATH") first))

  -- `DetectRuntime`
  unfoldable pub detect_runtime : Text → Result Text
  detect_runtime prefer = try_runtimes (prefer ∷ codes "docker" ∷ codes "podman" ∷ []) none
