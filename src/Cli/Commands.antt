-- ===== src/Cli/Commands.antt =====
-- The commands of main.go and their flags.
use regcachectl.Base.{ℕ, Bool, true, false, ◌||◌, [], ◌∷◌, ◌++◌, Option, none, some, if◌then◌else◌}
use regcachectl.Text.{Text, codes, eq, mem}
use regcachectl.Dict.{get}
use regcachectl.Cli.Flags.{
  Kind, bool_flag, text_flag, number_flag, duration_flag, FlagSet, Settings,
}

-- the cases of the switch of `run`
pub data Command : Type 0 where
  up down status list pull pull_release gc export import print_registries : Command
  serve_blobcache install_systemd version help unknown : Command

unfoldable pub command : Text → Command
command cmd =
    if eq cmd (codes "up")
    then up
    else if eq cmd (codes "down")
    then down
    else if eq cmd (codes "status")
    then status
    else if eq cmd (codes "list") || eq cmd (codes "ls")
    then list
    else if eq cmd (codes "pull")
    then pull
    else if eq cmd (codes "pull-release")
    then pull_release
    else if eq cmd (codes "gc")
    then gc
    else if eq cmd (codes "export")
    then export
    else if eq cmd (codes "import")
    then import
    else if eq cmd (codes "print-registries")
    then print_registries
    else if eq cmd (codes "serve-blobcache")
    then serve_blobcache
    else if eq cmd (codes "install-systemd")
    then install_systemd
    else if eq cmd (codes "version") || eq cmd (codes "-v") || eq cmd (codes "--version")
    then version
    else if eq cmd (codes "help") || eq cmd (codes "-h") || eq cmd (codes "--help")
    then help
    else unknown

-- `addRuntimeFlags`
unfoldable pub runtime_flags : FlagSet
runtime_flags =
    (codes "runtime", text_flag)
    ∷ (codes "image", text_flag)
    ∷ (codes "host", text_flag)
    ∷ (codes "port-base", number_flag)
    ∷ []

-- the flags of a command
unfoldable pub flags_of : Command → FlagSet
unfolding runtime_flags
flags_of up = runtime_flags ++ (codes "proxy-ttl", duration_flag) ∷ []
flags_of down = runtime_flags ++ (codes "purge", bool_flag) ∷ []
flags_of status = runtime_flags
flags_of list =
    runtime_flags
    ++ (codes "objects", bool_flag)
      ∷ (codes "blobs", bool_flag)
      ∷ (codes "okd-release", text_flag)
      ∷ (codes "platform", text_flag)
      ∷ []
flags_of pull = runtime_flags ++ (codes "creds", text_flag) ∷ []
flags_of pull_release =
    runtime_flags
    ++ (codes "platform", text_flag) ∷ (codes "j", number_flag) ∷ (codes "creds", text_flag) ∷ []
flags_of gc = runtime_flags ++ (codes "delete-untagged", bool_flag) ∷ []
flags_of export = runtime_flags ++ (codes "o", text_flag) ∷ (codes "cache", text_flag) ∷ []
flags_of import = runtime_flags
flags_of print_registries =
    (codes "host", text_flag)
    ∷ (codes "port-base", number_flag)
    ∷ (codes "no-fallback", bool_flag)
    ∷ (codes "format", text_flag)
    ∷ []
flags_of serve_blobcache =
    (codes "upstream", text_flag)
    ∷ (codes "listen", text_flag)
    ∷ (codes "cache-dir", text_flag)
    ∷ []
flags_of install_systemd = (codes "write", bool_flag) ∷ []
flags_of version = []
flags_of help = []
flags_of unknown = []

-- `strconv.ParseBool`, absent where it fails
unfoldable pub parse_bool : Text → Option Bool
parse_bool s =
    if mem s (codes "1" ∷ codes "t" ∷ codes "T" ∷ codes "TRUE" ∷ codes "true" ∷ codes "True" ∷ [])
    then some true
    else if mem s
        (codes "0" ∷ codes "f" ∷ codes "F" ∷ codes "FALSE" ∷ codes "false" ∷ codes "False" ∷ [])
    then some false
    else none

-- a `time.Duration`: whether it is negative, and its `String()`
pub record Duration : Type 0 where
  pub negative : Bool
  pub printed : Text

-- `strconv.ParseInt` with base 0, of a number that is not negative, and `time.ParseDuration`
pub record Conversions : Type 0 where
  pub number : Text → Option ℕ
  pub duration : Text → Option Duration

abbrev pub is_there {ℓ} : {A : Type ℓ} → Option A → Bool
is_there none = false
is_there (some a) = true

abbrev pub or_else {ℓ} : {A : Type ℓ} → A → Option A → A
or_else a none = a
or_else a (some b) = b

module _ (k : Conversions) where
  -- whether `Value.Set` succeeds
  unfoldable pub valid : Kind → Text → Bool
  unfolding parse_bool
  valid bool_flag s = is_there (parse_bool s)
  valid text_flag s = true
  valid number_flag s = is_there (k.number s)
  valid duration_flag s = is_there (k.duration s)

  abbrev converted {ℓ} : {A : Type ℓ} → (Text → Option A) → A → Option Text → A
  converted f a none = a
  converted f a (some s) = or_else a (f s)

  -- the values of the flags, with the defaults of those that are not set
  unfoldable pub number_of : Text → ℕ → Settings → ℕ
  number_of name default set = converted k.number default (get name set)

  unfoldable pub duration_of : Text → Duration → Settings → Duration
  duration_of name default set = converted k.duration default (get name set)

unfoldable pub text_of : Text → Text → Settings → Text
text_of name default set = or_else default (get name set)

abbrev true_if : Option Text → Bool
true_if none = false
true_if (some s) = or_else false (parse_bool s)

-- a flag that is off by default
unfoldable pub is_on : Text → Settings → Bool
unfolding parse_bool
is_on name set = true_if (get name set)

-- `portBaseSet`
unfoldable pub port_base_set : Settings → Bool
port_base_set set = is_there (get (codes "port-base") set)
