-- ===== src/Cli/Process.antt =====
-- The process that main.go starts: its state, what it meets, and `buildEngine`.
use regcachectl.Base.{ℕ, Bool, List, [], ◌∷◌, ◌++◌, Option, if◌then◌else◌}
use regcachectl.Base.Results.{Result, ok}
use regcachectl.Base.Stateful.{Stateful, pure, lift, ◌>>=◌, ◌>>◌}
use regcachectl.Text.{Text, codes}
use regcachectl.Dict.{Dict}
use regcachectl.Io.{logged, History, Runtime, Io}
use regcachectl.Upstream.{Upstream}
use regcachectl.Engine.{Engine, Mismatch, port_mismatch, mismatch_line}
use regcachectl.Fleet.Discover.{discover_ports}
use regcachectl.Fleet.Status
use regcachectl.Fleet.Status.{detect_runtime}
use regcachectl.Coverage.{Codec, Store}
use regcachectl.Client.{Network}
use regcachectl.Listing.Inventory.{Web}
use regcachectl.Release.{World, WarmResult}
use regcachectl.Transfer.{Host, Os}
use regcachectl.Blobcache.Types.{Proxy}
use regcachectl.Cli.Commands.{Conversions}

-- the engine's world, the host's files, and the lines on the standard error output
pub record Process : Type 0 where
  pub world : World
  pub files : Dict Text
  pub warnings : List Text

-- What the program meets: the runtimes, the answers of the network, package os, the texts that the
-- standard library prints or reads, and any behaviour of `warmAll` and `openStore`.
pub record Machine : Type 0 where
  pub conversions : Conversions
  pub runtimes : Status.Host
  pub runtime : Text → Runtime
  pub web : Web
  pub blobcache_total : History → ℕ → Option ℕ
  pub reached : World → ℕ → Result ℕ
  pub network : Network
  pub codec : Codec
  pub index_depth : ℕ
  pub open_store : Text → Engine → Upstream → Stateful World Store
  pub warm_all : Text → Engine → ℕ → Text → Text → List Text → Stateful World (List WarmResult)
  pub elapsed : World → Text
  pub os : Os
  pub ngc_key : Option Text
  pub tabulate : List (List Text) → Text
  pub executable : Option Text
  pub write_error : Text → Option Text
  pub parse_url : Text → Result (Text × Text)
  pub mkdir_all : Text → Option Text
  pub listen : Proxy → Text → Result (Unit {0})

-- how `run` ends, when it does not fail: it returns, `flag.ExitOnError` exits, `Status` panics, or
-- the depth to which indexes are followed is too small
pub data Ending : Type 0 where
  returned : Ending
  exited : ℕ → Ending
  panicked : Ending
  too_deep : Ending

abbrev pub Run {ℓ} : Type ℓ → Type ℓ
Run A = Stateful Process A

module _ {ℓ} {A : Type ℓ} where
  -- an action on the world of the engine
  unfoldable pub on_world : Stateful World A → Run A
  on_world m s = let (r, w) = m s.world in (r, record s { world = w })

  -- an action on the runtime only
  unfoldable pub on_io : Io A → Run A
  on_io m s =
      let (r, es) = m s.world.history in (r, record s { world = record s.world { history = es } })

  -- an action on the runtime and the host's files
  unfoldable pub on_host : Stateful Host A → Run A
  on_host m s =
      let (r, h) = m (record { history = s.world.history; files = s.files }) in
      (r, record s { world = record s.world { history = h.history }; files = h.files })

-- `fmt.Println`, to the standard output, to which `e.logf` writes too
unfoldable pub print_line : Text → Run (Unit {0})
print_line line s =
    (ok tt, record s { world = record s.world { history = logged line ∷ s.world.history } })

unfoldable pub print_lines : List Text → Run (Unit {0})
print_lines [] = pure tt
print_lines (l ∷ ls) = print_line l >> print_lines ls

-- `fmt.Fprintln(os.Stderr, …)`
unfoldable pub warn : Text → Run (Unit {0})
warn line s = (ok tt, record s { warnings = line ∷ s.warnings })

unfoldable pub warn_mismatches : List Mismatch → Run (Unit {0})
warn_mismatches [] = pure tt
warn_mismatches (m ∷ ms) =
    warn (codes "regcachectl: warning: " ++ mismatch_line m) >> warn_mismatches ms

-- the runtime of an engine, by its name, and the engine
abbrev pub Built : Type 0
Built = Text × Engine

module _ (m : Machine) where
  -- `buildEngine`
  unfoldable pub build_engine : Text → Text → ℕ → Bool → Run Built
  build_engine runtime image port_base base_set = do
    name ← lift (detect_runtime m.runtimes runtime)
    e ← on_io (
        discover_ports (m.runtime name) (record {
          image = image;
          port_base = port_base;
          port_base_set = base_set;
          ports = [];
          proxy_ttl = codes "0s";
        }))
    if base_set then warn_mismatches (port_mismatch e) else pure tt
    pure (name, e)
