-- ===== src/Cli/Run.antt =====
-- `run` of main.go: the commands.
use regcachectl.Base.{
  ℕ, Bool, true, false, not, ◌||◌, List, [], ◌∷◌, ◌++◌, Option, none, some, if◌then◌else◌, ltb,
  length, suc,
}
use regcachectl.Base.Results.{Result, ok, err}
use regcachectl.Base.Stateful.{pure, raise, lift, attempt, ◌>>=◌, ◌>>◌}
use regcachectl.Text.{Text, codes, comma, is_empty, split, trim_space}
use regcachectl.Text.Quote.{quoted}
use regcachectl.Engine.{Engine, default_port_base}
use regcachectl.Fleet.Up
use regcachectl.Fleet.Down
use regcachectl.Fleet.Gc
use regcachectl.Mirrors.{default_host, render}
use regcachectl.Transfer
use regcachectl.Release.Image
use regcachectl.Release.Pull
use regcachectl.Blobcache.Start.{new_proxy, serving_line}
use regcachectl.Cli.Flags.{Settings, Parsed, parsed, exited, parse}
use regcachectl.Cli.Positional.{parse_args}
use regcachectl.Cli.Commands.{
  Command, command, flags_of, Duration, valid, number_of, duration_of, text_of, is_on,
  port_base_set,
}
use regcachectl.Cli.Process.{
  Process, Machine, Ending, returned, Run, on_world, on_io, on_host, print_line, warn, Built,
  build_engine,
}
use regcachectl.Cli.Print.{print_status, print_coverage, print_list}
use regcachectl.Cli.Systemd.{install_systemd}
use regcachectl.Cli.Usage.{usage_text}

abbrev no_ttl : Duration
no_ttl = record { negative = false; printed = codes "0s" }

abbrev release_platform : Text
release_platform = codes "linux/amd64"

-- the cache names of `--cache`
unfoldable pub names_in : List Text → List Text
names_in [] = []
names_in (c ∷ cs) =
    let rest = names_in cs in let name = trim_space c in if is_empty name then rest else name ∷ rest

abbrev first_or : Text → List Text → Text
first_or default [] = default
first_or default (a ∷ args) = a

abbrev no_error : Run (Unit {0}) → Run Ending
no_error done = done >>= λ _. pure returned

module _ (m : Machine) (set : Settings) where
  -- the engine of a command, from its flags
  unfoldable pub engine_of : Run Built
  engine_of =
      build_engine m (text_of (codes "runtime") [] set) (text_of (codes "image") [] set)
        (number_of m.conversions (codes "port-base") default_port_base set) (port_base_set set)

  abbrev ttl : Duration
  ttl = duration_of m.conversions (codes "proxy-ttl") no_ttl set

  unfoldable pub run_up : Run Ending
  unfolding engine_of
  run_up = if ttl.negative then raise (codes "up: --proxy-ttl must not be negative") else (do
    (name, e) ← engine_of
    print_line
        (codes "Bringing up pull-through cache fleet (" ++ name ++ codes ", holds no credentials):")
    no_error (on_io (Up.up (m.runtime name) (record e { proxy_ttl = ttl.printed }))))

  unfoldable pub run_down : Run Ending
  unfolding engine_of
  run_down = do
    (name, e) ← engine_of
    print_line (codes "Tearing down cache fleet:")
    no_error (on_io (Down.down (m.runtime name) (is_on (codes "purge") set)))

  unfoldable pub run_status : Run Ending
  unfolding engine_of
  run_status = do (name, e) ← engine_of; print_status m name e

  unfoldable pub run_list : Run Ending
  unfolding engine_of
  run_list = do
    let objects = is_on (codes "objects") set
    let blobs = is_on (codes "blobs") set
    let release = text_of (codes "okd-release") [] set
    (name, e) ← engine_of
    if not (is_empty release)
        then print_coverage m name e release (text_of (codes "platform") release_platform set)
            objects
        else print_list m name e (objects || blobs) blobs

  unfoldable pub run_pull : List Text → Run Ending
  unfolding engine_of
  run_pull [] = raise (
      codes
        "pull: at least one image ref required (e.g. regcachectl pull nvcr.io/nvidia/doca/dpf-system:v26.4.0)")
  run_pull (r ∷ refs) = do
    (name, e) ← engine_of
    no_error (
        on_world
          (Image.pull m.ngc_key e m.network m.codec (r ∷ refs) (text_of (codes "creds") [] set)))

  abbrev one_release : Text
  one_release =
      codes
        "pull-release: exactly one release image required (e.g. regcachectl pull-release quay.io/okd/scos-release:4.22.0-okd-scos.10 -j 8)"

  unfoldable pub run_pull_release : List Text → Run Ending
  unfolding engine_of
  run_pull_release [] = raise one_release
  run_pull_release (ref ∷ []) =
      let jobs = number_of m.conversions (codes "j") 4 set in
      let platform = text_of (codes "platform") release_platform set in
      let creds = text_of (codes "creds") [] set in
      if ltb jobs 1 then raise (codes "pull-release: -j must be at least 1") else (do
        (name, e) ← engine_of
        no_error (
            on_world (
              Pull.pull_release (m.open_store name e) (m.warm_all name e jobs platform creds)
                m.elapsed e m.network m.codec platform jobs ref creds)))
  run_pull_release (r ∷ s ∷ refs) = raise one_release

  unfoldable pub run_gc : Run Ending
  unfolding engine_of
  run_gc = do
    let untagged = is_on (codes "delete-untagged") set
    (name, e) ← engine_of
    print_line (codes "Garbage-collecting caches (each is stopped for the run):")
    if untagged
        then print_line (codes "  ! --delete-untagged: digest-pulled images are deleted too")
        else pure tt
    no_error (on_io (Gc.gc (m.runtime name) untagged))

  unfoldable pub run_export : List Text → Run Ending
  unfolding engine_of names_in
  run_export args = do
    let out = first_or (text_of (codes "o") (codes "regcache-export.tgz") set) args
    let caches = names_in (split comma (text_of (codes "cache") [] set))
    (name, e) ← engine_of
    no_error (on_host (Transfer.export (m.runtime name) e m.os out caches))

  unfoldable pub run_import : List Text → Run Ending
  unfolding engine_of
  run_import [] = raise (codes "import: bundle path required (regcachectl import <file.tgz>)")
  run_import (path ∷ args) = do
    (name, e) ← engine_of
    no_error (on_host (Transfer.import_from (m.runtime name) e m.os path))

  -- the engine that renders: without a runtime, one that has not looked for ports
  abbrev or_bare : ℕ → Bool → Result Built → Engine
  or_bare base base_set (ok (name, e)) = e
  or_bare base base_set (err x) = record {
    image = [];
    port_base = base;
    port_base_set = base_set;
    ports = [];
    proxy_ttl = codes "0s";
  }

  unfoldable pub run_print_registries : Run Ending
  run_print_registries = do
    let base = number_of m.conversions (codes "port-base") default_port_base set
    let base_set = port_base_set set
    built ← attempt (build_engine m [] [] base base_set)
    out ← lift (
        render (or_bare base base_set built) (text_of (codes "host") default_host set)
          (text_of (codes "format") (codes "k3s") set) (not (is_on (codes "no-fallback") set)))
    print_line out
    pure returned

  unfoldable pub run_serve_blobcache : Run Ending
  run_serve_blobcache =
      let upstream = text_of (codes "upstream") [] set in
      if is_empty upstream then raise (codes "serve-blobcache: --upstream is required") else (do
        let addr = text_of (codes "listen") (codes ":5000") set
        let cache_dir = text_of (codes "cache-dir") (codes "/var/lib/blobcache") set
        bp ← lift (new_proxy m.parse_url m.mkdir_all upstream cache_dir)
        print_line (serving_line bp cache_dir addr)
        no_error (lift (m.listen bp addr)))

-- A command with its settings and its positional arguments. Those that take none ignore what `Parse`
-- leaves.
unfoldable pub run_command : Machine → Text → Command → Settings → List Text → Run Ending
run_command m cmd Command.up set args = run_up m set
run_command m cmd Command.down set args = run_down m set
run_command m cmd Command.status set args = run_status m set
run_command m cmd Command.list set args = run_list m set
run_command m cmd Command.pull set args = run_pull m set args
run_command m cmd Command.pull_release set args = run_pull_release m set args
run_command m cmd Command.gc set args = run_gc m set
run_command m cmd Command.export set args = run_export m set args
run_command m cmd Command.import set args = run_import m set args
run_command m cmd Command.print_registries set args = run_print_registries m set
run_command m cmd Command.serve_blobcache set args = run_serve_blobcache m set
run_command m cmd Command.install_systemd set args =
    no_error (install_systemd m (is_on (codes "write") set))
run_command m cmd Command.version set args = no_error (print_line (codes "regcachectl 0.1.0"))
run_command m cmd Command.help set args = no_error (warn usage_text)
run_command m cmd Command.unknown set args =
    warn usage_text >> raise (codes "unknown command " ++ quoted cmd)

-- the commands whose flags may stand behind positional arguments
unfoldable pub takes_args : Command → Bool
takes_args Command.pull = true
takes_args Command.pull_release = true
takes_args Command.export = true
takes_args Command.import = true
takes_args _ = false

-- the commands that have no flag set
unfoldable pub is_bare : Command → Bool
is_bare Command.version = true
is_bare Command.help = true
is_bare Command.unknown = true
is_bare _ = false

module _ (m : Machine) where
  -- how a command reads its arguments, with enough fuel
  unfoldable pub parse_command : Command → List Text → Option Parsed
  unfolding takes_args is_bare
  parse_command c rest =
      let fuel = suc (length rest) in
      if is_bare c
      then some (parsed [] rest)
      else if takes_args c
      then parse_args (valid m.conversions) (flags_of c) fuel [] [] rest
      else parse (valid m.conversions) (flags_of c) fuel [] rest

  -- fuel is not lacking
  unfoldable pub run_parsed : Text → Command → Option Parsed → Run Ending
  run_parsed cmd c none = pure Ending.too_deep
  run_parsed cmd c (some (exited code)) = pure (Ending.exited code)
  run_parsed cmd c (some (parsed set args)) = run_command m cmd c set args

  -- `run`
  unfoldable pub run : List Text → Run Ending
  run [] = warn usage_text >> raise (codes "no command given")
  run (cmd ∷ rest) = run_parsed cmd (command cmd) (parse_command (command cmd) rest)

  -- the exit status that `main` leaves behind, and its message on the standard error output
  abbrev pub exit_status : Result Ending × Process → ℕ × Process
  exit_status (ok Ending.returned, s) = (0, s)
  exit_status (ok (Ending.exited code), s) = (code, s)
  exit_status (ok _, s) = (2, s)
  exit_status (err x, s) = (1, record s { warnings = (codes "regcachectl: " ++ x) ∷ s.warnings })

  -- `main`
  unfoldable pub main : List Text → Process → ℕ × Process
  main argv s = exit_status (run argv s)
