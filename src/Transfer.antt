-- ===== src/Transfer.antt =====
-- `Export`, `Import` and `helperImage` of internal/cache/transfer.go.
pub mod Bundle
pub mod Volumes
pub mod Unpack
mod Tests
use regcachectl.Base.{
  ℕ, Bool, true, false, not, ◌&&◌, ◌||◌, ◌==◌, List, [], ◌∷◌, ◌++◌, Option, none, some,
  if◌then◌else◌, length,
}
use regcachectl.Base.Results.{Result, ok, err}
use regcachectl.Base.Stateful.{Stateful, pure, raise, attempt, wrapped, ◌>>=◌, ◌>>◌}
use regcachectl.Text.{utf8, Text, codes, eq, is_empty, mem, join}
use regcachectl.Dict.{Dict, get, put, remove}
use regcachectl.Upstream.{Upstream, upstreams, known_caches}
use regcachectl.Engine.{Engine, image_name, volume}
use regcachectl.Io.{ran, logged, History, Runtime, Io, run, log as log_io, or_empty}
use regcachectl.Fleet.Commands.{volume_ls_args}
use regcachectl.Fleet.Query.{image_exists, ensure_volume}
use regcachectl.Listing.{human_bytes}

-- the runtime's history, and the host's files
pub record Host : Type 0 where
  pub history : History
  pub files : Dict Text

-- What a command did whose output goes to a file: the bytes it wrote until it ended, and the error it
-- ended with.
pub record Streamed : Type 0 where
  pub written : Text
  pub failure : Option Text

-- The operations of package os and `runStream`, which may all depend on what was done before:
-- `os.Create` and `os.Open` may refuse a path, and `f.Stat` may fail.
pub record Os : Type 0 where
  pub create_error : Host → Text → Option Text
  pub open_error : Host → Text → Text
  pub refuses : Host → Text → Bool
  pub stat_fails : Host → Text → Bool
  pub stream : Host → List Text → Text → Streamed

abbrev pub mount : Upstream → Text
mount u = volume u ++ codes ":/caches/" ++ u.name

abbrev pub read_only_mount : Upstream → Text
read_only_mount u = mount u ++ codes ":ro"

pub mounts : (Upstream → Text) → List Upstream → List Text
mounts m [] = []
mounts m (u ∷ us) = codes "-v" ∷ m u ∷ mounts m us

unfoldable pub export_args : Text → List Upstream → List Text
export_args helper us =
    (codes "run" ∷ codes "--rm" ∷ mounts read_only_mount us)
    ++ (helper
        ∷ codes "tar"
        ∷ codes "czf"
        ∷ codes "-"
        ∷ codes "-C"
        ∷ codes "/caches"
        ∷ codes "."
        ∷ [])

unfoldable pub import_args : Text → List Upstream → List Text
import_args helper us =
    (codes "run" ∷ codes "--rm" ∷ codes "-i" ∷ mounts mount us)
    ++ (helper ∷ codes "tar" ∷ codes "xzf" ∷ codes "-" ∷ codes "-C" ∷ codes "/caches" ∷ [])

abbrev pub names_of : List Upstream → List Text
names_of [] = []
names_of (u ∷ us) = u.name ∷ names_of us

module _ {ℓ} {A : Type ℓ} where
  -- an action on the runtime only
  unfoldable pub io : Io A → Stateful Host A
  io m w = let (r, es) = m w.history in (r, record w { history = es })

unfoldable pub log : Text → Stateful Host (Unit {0})
log line w = (ok tt, record w { history = logged line ∷ w.history })

abbrev pub is_wanted : List Text → Upstream → Bool
is_wanted only u = (length only == 0) || mem u.name only

abbrev pub nothing_to_export : List Text → Text
nothing_to_export [] = utf8 "no cache volumes to export — run `up` and pull some images first"
nothing_to_export (o ∷ only) =
    codes "no matching cache volumes for "
    ++ join (codes ", ") (o ∷ only)
    ++ codes " (known: "
    ++ known_caches
    ++ codes ")"

abbrev pub absent_line : Text → Text
absent_line helper = codes "helper image " ++ helper ++ utf8 " absent — pulling ..."

abbrev pub no_helper : Text → Text → Text
no_helper helper x =
    codes "helper image "
    ++ helper
    ++ codes " not present and pull failed ("
    ++ x
    ++ utf8 ") — run `regcachectl up` first"

abbrev pub exporting_line : List Upstream → Text → Text
exporting_line us path =
    codes "exporting " ++ join (codes ", ") (names_of us) ++ utf8 " → " ++ path ++ codes " ..."

abbrev pub wrote_line : Text → Text → Text
wrote_line path bytes =
    codes "wrote "
    ++ path
    ++ codes " ("
    ++ human_bytes (length bytes)
    ++ utf8 ") — copy it to another host and `regcachectl import` there"

-- `ok`, in `ok, _ := e.imageExists(…)`
abbrev pub or_false : Result Bool → Bool
or_false (ok b) = b
or_false (err x) = false

abbrev pub contents : Option Text → Text
contents none = []
contents (some s) = s

abbrev pub created : Text → Host → Option Text → Result (Unit {0}) × Host
created path w (some x) = (err x, w)
created path w none = (ok tt, record w { files = put path [] w.files })

-- `os.Remove`, whose error is ignored
unfoldable pub remove_file : Text → Stateful Host (Unit {0})
remove_file path w = (ok tt, record w { files = remove path w.files })

abbrev pub ended : Option Text → Result (Unit {0})
ended none = ok tt
ended (some x) = err x

module _ (os : Os) where
  -- `os.Create`: the file is there, and empty
  unfoldable pub create : Text → Stateful Host (Unit {0})
  create path w = created path w (os.create_error w path)

  abbrev pub opened : Text → Host → Option Text → Result Text
  opened path w none = err (os.open_error w path)
  opened path w (some s) = if os.refuses w path then err (os.open_error w path) else ok s

  -- `os.Open`, as the bytes that the file has
  unfoldable pub open_file : Text → Stateful Host Text
  open_file path w = (opened path w (get path w.files), w)

  -- `runStream` to a file that is open: what the command wrote is in the file also if it fails
  unfoldable pub stream_to : Text → List Text → Stateful Host (Unit {0})
  stream_to path args w =
      let r = os.stream w args [] in
      (
        ended r.failure,
        record { history = ran args ∷ w.history; files = put path r.written w.files },
      )

  -- `runStream` from a file, whose output is discarded
  unfoldable pub stream_from : Text → List Text → Stateful Host (Unit {0})
  stream_from input args w =
      (ended (os.stream w args input).failure, record w { history = ran args ∷ w.history })

  -- the size of the file is logged, if `f.Stat` gives one
  unfoldable pub log_size : Text → Stateful Host (Unit {0})
  log_size path w =
      if os.stat_fails w path
      then (ok tt, w)
      else log (wrote_line path (contents (get path w.files))) w

  -- what is done with the outcome of `runStream`
  unfoldable pub conclude : Text → Result (Unit {0}) → Stateful Host (Unit {0})
  conclude path (err x) = do
    remove_file path  -- no partial bundle is left
    raise x
  conclude path (ok done) = log_size path

module _ (rt : Runtime) where
  -- `volumeExists`
  unfoldable pub volume_exists : Text → Io Bool
  volume_exists name = do
    out ← attempt (run rt (volume_ls_args name))
    pure (eq (or_empty out) name)

  -- the caches that have a volume, of those that are asked for
  unfoldable pub exported : List Text → List Upstream → Io (List Upstream)
  exported only [] = pure []
  exported only (u ∷ us) =
      if is_wanted only u
      then (do
        found ← volume_exists (volume u)
        rest ← exported only us
        pure (if found then u ∷ rest else rest))
      else exported only us

  unfoldable pub ensure_volumes : List Upstream → Io (Unit {0})
  ensure_volumes [] = pure tt
  ensure_volumes (u ∷ us) = do ensure_volume rt (volume u); ensure_volumes us

  module _ (e : Engine) where
    unfoldable pub helper_image : Io Text
    helper_image = do
      let helper = image_name e
      found ← attempt (image_exists rt helper)
      if or_false found then pure helper else (do
        noted ← log_io (absent_line helper)
        pulled ← wrapped (no_helper helper) (run rt (codes "pull" ∷ helper ∷ []))
        pure helper)

    module _ (os : Os) where
      unfoldable pub bundle : Text → List Upstream → Stateful Host (Unit {0})
      bundle path us = do
        helper ← io helper_image
        create os path
        log (exporting_line us path)
        r ← attempt (stream_to os path (export_args helper us))
        conclude os path r

      abbrev pub bundle_some : Text → List Text → List Upstream → Stateful Host (Unit {0})
      bundle_some path only [] = raise (nothing_to_export only)
      bundle_some path only (u ∷ us) = bundle path (u ∷ us)

      -- `Export`
      unfoldable pub export : Text → List Text → Stateful Host (Unit {0})
      export path only = do us ← io (exported only upstreams); bundle_some path only us

      -- `Import`
      unfoldable pub import_from : Text → Stateful Host (Unit {0})
      import_from path = do
        input ← open_file os path
        helper ← io helper_image
        io (ensure_volumes upstreams)
        log (codes "importing " ++ path ++ codes " into the cache volumes ...")
        stream_from os input (import_args helper upstreams)
        log (codes "imported. run `regcachectl up` to (re)start the fleet serving the data.")
