-- ===== src/Cli/Safety.antt =====
-- `run` of main.go removes the volume of a cache for one command line only: `down` with `--purge`.
-- (Garbage collection, which `gc` runs inside a container, deletes content within a volume.)
use regcachectl.Base.{◌≡◌, ℕ, Bool, false, List, [], ◌∷◌, Option, none, some}
use regcachectl.Base.Stateful.{pure, ◌>>=◌}
use regcachectl.Base.Kept.{Kept, Kept-bind, Kept-pure, Kept-if, Kept-lift, Kept-raise, Kept-attempt}
use regcachectl.Text.{Text, codes}
use regcachectl.Upstream.{Upstream}
use regcachectl.Engine.{Engine}
use regcachectl.Fleet.Removal.{KeepsData}
use regcachectl.Cli.Flags.{Settings, Parsed, parsed, exited}
use regcachectl.Cli.Commands.{Command, command, is_on}
use regcachectl.Cli.Process.{Process, Machine, Ending, Run}
use regcachectl.Cli.Print.{print_coverage}
use regcachectl.Cli.Run.{
  engine_of, run_up, run_down, run_status, run_list, run_pull, run_pull_release, run_gc, run_export,
  run_import, run_print_registries, run_serve_blobcache, run_command, run_parsed, parse_command,
  run,
}
use regcachectl.Cli.Keeps.{up-Keeps, down-Keeps, gc-Keeps}
use regcachectl.Cli.Keeps.Views.{of_Keeps}
use regcachectl.Cli.Keeps.Transfer.{export-Kept, import_from-Kept}
use regcachectl.Cli.Keeps.Release.{OnWorld, report-Kept, pull_release-Kept, pull-Kept}
use regcachectl.Cli.Keeps.Print.{
  OnProcess, on_world-Kept, on_io-Kept, on_host-Kept, print_line-Kept, warn-Kept, build_engine-Kept,
  print_status-Kept, show_coverage-Kept, print_list-Kept, install_systemd-Kept,
}

-- The parts of the program that are parameters delete no volume: `warmAll`, which sends requests and
-- writes lines, and `openStore`, which reads directories.
pub record IsReader (m : Machine) : Type 0 where
  pub opens : (name : Text) (e : Engine) (u : Upstream) → Kept OnWorld (m.open_store name e u)
  pub warms :
      (name : Text) (e : Engine) (jobs : ℕ) (platform creds : Text) (refs : List Text)
      → Kept OnWorld (m.warm_all name e jobs platform creds refs)

module _ (m : Machine) (r : IsReader m) (set : Settings) where
  engine_of-Kept : Kept OnProcess (engine_of m set)
  unfolding engine_of
  engine_of-Kept = build_engine-Kept m _ _ _ _

  abbrev silent :
      (a : Run (Unit {0})) → Kept OnProcess a → Kept OnProcess (a >>= λ done. pure Ending.returned)
  silent a k = Kept-bind _ _ k (λ done. Kept-pure _)

  run_up-Kept : Kept OnProcess (run_up m set)
  unfolding run_up
  run_up-Kept = Kept-if _ _ _ (Kept-raise _) (
      Kept-bind _ _ engine_of-Kept (λ (name, e).
        Kept-bind _ _ (print_line-Kept _)
          (λ done. silent _ (on_io-Kept _ (of_Keeps _ (up-Keeps (m.runtime name) _))))))

  run_down-Kept : is_on (codes "purge") set ≡ false → Kept OnProcess (run_down m set)
  unfolding run_down
  run_down-Kept h = rw h (
      Kept-bind _ _ engine_of-Kept (λ (name, e).
        Kept-bind _ _ (print_line-Kept _)
          (λ done. silent _ (on_io-Kept _ (of_Keeps _ (down-Keeps (m.runtime name)))))))

  run_status-Kept : Kept OnProcess (run_status m set)
  unfolding run_status
  run_status-Kept = Kept-bind _ _ engine_of-Kept (λ (name, e). print_status-Kept m name e)

  run_list-Kept : Kept OnProcess (run_list m set)
  unfolding run_list print_coverage
  run_list-Kept = Kept-bind _ _ engine_of-Kept (λ (name, e).
      Kept-if _ _ _
        (Kept-bind _ _
          (on_world-Kept _
            (report-Kept (m.open_store name e) m.codec _ (r.opens name e) m.index_depth _))
          (show_coverage-Kept m _ _))
        (print_list-Kept m name e _ _))

  run_pull-Kept : (args : List Text) → Kept OnProcess (run_pull m set args)
  unfolding run_pull
  run_pull-Kept [] = Kept-raise _
  run_pull-Kept (a ∷ args) =
      Kept-bind _ _ engine_of-Kept
        (λ (name, e). silent _ (on_world-Kept _ (pull-Kept m.ngc_key e m.network m.codec _ _)))

  run_pull_release-Kept : (args : List Text) → Kept OnProcess (run_pull_release m set args)
  unfolding run_pull_release
  run_pull_release-Kept [] = Kept-raise _
  run_pull_release-Kept (ref ∷ []) = Kept-if _ _ _ (Kept-raise _) (
      Kept-bind _ _ engine_of-Kept (λ (name, e). silent _ (
        on_world-Kept _ (
          pull_release-Kept (m.open_store name e) _ m.elapsed e m.network m.codec _ (r.opens name e)
            (r.warms name e _ _ _) _ _ _))))
  run_pull_release-Kept (a ∷ b ∷ args) = Kept-raise _

  run_gc-Kept : Kept OnProcess (run_gc m set)
  unfolding run_gc
  run_gc-Kept = Kept-bind _ _ engine_of-Kept (λ (name, e).
      Kept-bind _ _ (print_line-Kept _) (λ done.
        Kept-bind _ _ (Kept-if _ _ _ (print_line-Kept _) (Kept-pure _))
          (λ said. silent _ (on_io-Kept _ (of_Keeps _ (gc-Keeps (m.runtime name) _))))))

  run_export-Kept : (args : List Text) → Kept OnProcess (run_export m set args)
  unfolding run_export
  run_export-Kept args =
      Kept-bind _ _ engine_of-Kept
        (λ (name, e). silent _ (on_host-Kept _ (export-Kept (m.runtime name) e m.os _ _)))

  run_import-Kept : (args : List Text) → Kept OnProcess (run_import m set args)
  unfolding run_import
  run_import-Kept [] = Kept-raise _
  run_import-Kept (path ∷ args) =
      Kept-bind _ _ engine_of-Kept
        (λ (name, e). silent _ (on_host-Kept _ (import_from-Kept (m.runtime name) e m.os path)))

  run_print_registries-Kept : Kept OnProcess (run_print_registries m set)
  unfolding run_print_registries
  run_print_registries-Kept = Kept-bind _ _ (Kept-attempt _ (build_engine-Kept m _ _ _ _)) (λ built.
      Kept-bind _ _ (Kept-lift _)
        (λ out. Kept-bind _ _ (print_line-Kept out) (λ done. Kept-pure _)))

  run_serve_blobcache-Kept : Kept OnProcess (run_serve_blobcache m set)
  unfolding run_serve_blobcache
  run_serve_blobcache-Kept = Kept-if _ _ _ (Kept-raise _) (
      Kept-bind _ _ (Kept-lift _)
        (λ bp. Kept-bind _ _ (print_line-Kept _) (λ done. silent _ (Kept-lift _))))

-- `down` with `--purge`
abbrev pub purges : Command → Settings → Bool
purges Command.down set = is_on (codes "purge") set
purges _ set = false

abbrev purges_parsed : Command → Option Parsed → Bool
purges_parsed c (some (parsed set args)) = purges c set
purges_parsed c (some (exited code)) = false
purges_parsed c none = false

-- whether a command line asks for the cached data to be deleted
unfoldable pub asks_purge : Machine → List Text → Bool
asks_purge m [] = false
asks_purge m (cmd ∷ rest) = purges_parsed (command cmd) (parse_command m (command cmd) rest)

module _ (m : Machine) (r : IsReader m) where
  run_command-Kept :
      (cmd : Text) (c : Command) (set : Settings) (args : List Text)
      → purges c set ≡ false
      → Kept OnProcess (run_command m cmd c set args)
  unfolding run_command
  run_command-Kept cmd Command.up set args h = run_up-Kept m r set
  run_command-Kept cmd Command.down set args h = run_down-Kept m r set h
  run_command-Kept cmd Command.status set args h = run_status-Kept m r set
  run_command-Kept cmd Command.list set args h = run_list-Kept m r set
  run_command-Kept cmd Command.pull set args h = run_pull-Kept m r set args
  run_command-Kept cmd Command.pull_release set args h = run_pull_release-Kept m r set args
  run_command-Kept cmd Command.gc set args h = run_gc-Kept m r set
  run_command-Kept cmd Command.export set args h = run_export-Kept m r set args
  run_command-Kept cmd Command.import set args h = run_import-Kept m r set args
  run_command-Kept cmd Command.print_registries set args h = run_print_registries-Kept m r set
  run_command-Kept cmd Command.serve_blobcache set args h = run_serve_blobcache-Kept m r set
  run_command-Kept cmd Command.install_systemd set args h =
      silent m r set _ (install_systemd-Kept m _)
  run_command-Kept cmd Command.version set args h = silent m r set _ (print_line-Kept _)
  run_command-Kept cmd Command.help set args h = silent m r set _ (warn-Kept _)
  run_command-Kept cmd Command.unknown set args h =
      Kept-bind _ _ (warn-Kept _) (λ done. Kept-raise _)

  run_parsed-Kept :
      (cmd : Text) (c : Command) (p : Option Parsed)
      → purges_parsed c p ≡ false
      → Kept OnProcess (run_parsed m cmd c p)
  unfolding run_parsed
  run_parsed-Kept cmd c none h = Kept-pure _
  run_parsed-Kept cmd c (some (exited code)) h = Kept-pure _
  run_parsed-Kept cmd c (some (parsed set args)) h = run_command-Kept cmd c set args h

  -- No command line but `down` with `--purge` deletes a volume, whatever the runtime, the network and
  -- the files answer, and also where the command fails. What warms the images of a release and what
  -- reads a store on disk are parameters that delete none.
  pub run-KeepsData :
      (argv : List Text) (s : Process)
      → asks_purge m argv ≡ false
      → KeepsData s.world.history
      → KeepsData (run m argv s).1.world.history
  unfolding run asks_purge
  run-KeepsData [] s h p = (Kept-bind _ _ (warn-Kept _) (λ done. Kept-raise _)).at s p
  run-KeepsData (cmd ∷ rest) s h p = (run_parsed-Kept cmd _ _ h).at s p
