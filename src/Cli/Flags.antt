-- ===== src/Cli/Flags.antt =====
-- A flag set of package flag, as main.go uses it: `Parse` with flag.ExitOnError.
use regcachectl.Base.{
  ℕ, zero, suc, Bool, ◌||◌, List, [], ◌∷◌, Option, none, some, ◌==◌, if◌then◌else◌,
}
use regcachectl.Text.{Text, codes, eq}
use regcachectl.Dict.{Dict, get, put}

-- the kinds of flags that main.go registers
pub data Kind : Type 0 where
  bool_flag : Kind
  text_flag : Kind
  number_flag : Kind
  duration_flag : Kind

-- `formal`: the kind of each flag
abbrev pub FlagSet : Type 0
FlagSet = Dict Kind

-- `actual`: the flags that were set, with their last value
abbrev pub Settings : Type 0
Settings = Dict Text

-- What one argument is, before the flags of the set are known.
pub data Token : Type 0 where
  positional : Token
  terminator : Token
  malformed : Token
  named : Text → Option Text → Token

abbrev pub dash : ℕ
dash = b'-'

abbrev pub equals : ℕ
equals = b'='

abbrev pub dashes : Text
dashes = dash ∷ dash ∷ []

-- the name up to the first `=` behind its first byte, and the value behind that
abbrev prefixed : ℕ → Token → Token
prefixed c (named n v) = named (c ∷ n) v
prefixed c t = t

unfoldable pub split_value : Text → Token
split_value [] = named [] none
split_value (c ∷ s) = if c == equals then named [] (some s) else prefixed c (split_value s)

unfoldable pub flag_name : Text → Token
unfolding split_value
flag_name [] = malformed
flag_name (c ∷ s) = if c == dash || c == equals then malformed else prefixed c (split_value s)

unfoldable pub behind_dash : Text → Token
unfolding flag_name
behind_dash [] = positional
behind_dash (d ∷ []) = if d == dash then terminator else flag_name (d ∷ [])
behind_dash (d ∷ e ∷ s) = if d == dash then flag_name (e ∷ s) else flag_name (d ∷ e ∷ s)

-- how `parseOne` reads its first argument
unfoldable pub token : Text → Token
unfolding behind_dash
token [] = positional
token (c ∷ s) = if c == dash then behind_dash s else positional

-- What `parseOne` comes to: another flag was read, the flags end, or the program exits with a code.
pub data Step : Type 0 where
  read_flag : Settings → List Text → Step
  ended : List Text → Step
  exits : ℕ → Step

-- `IsValid`: the conversion of a value to the kind of its flag succeeds (`Value.Set`).
module _ (valid : Kind → Text → Bool) (flags : FlagSet) (set : Settings) where
  abbrev set_to : Kind → Text → Text → List Text → Step
  set_to k name v rest = if valid k v then read_flag (put name v set) rest else exits 2

  abbrev next_value : Kind → Text → List Text → Step
  next_value k name [] = exits 2
  next_value k name (v ∷ rest) = set_to k name v rest

  -- a flag of the set with the value of its argument, if it has one
  unfoldable pub set_flag : Kind → Text → Option Text → List Text → Step
  set_flag k name (some v) rest = set_to k name v rest
  set_flag bool_flag name none rest = read_flag (put name (codes "true") set) rest
  set_flag k name none rest = next_value k name rest

  -- `-h` and `-help` are known where the set does not define them
  unfoldable pub defined_flag : Option Kind → Text → Option Text → List Text → Step
  defined_flag (some k) name v rest = set_flag k name v rest
  defined_flag none name v rest =
      exits (if eq name (codes "help") || eq name (codes "h") then 0 else 2)

  unfoldable pub take_token : Token → Text → List Text → Step
  take_token positional a rest = ended (a ∷ rest)
  take_token terminator a rest = ended rest
  take_token malformed a rest = exits 2
  take_token (named name v) a rest = defined_flag (get name flags) name v rest

  -- `parseOne`
  unfoldable pub parse_one : List Text → Step
  parse_one [] = ended []
  parse_one (a ∷ rest) = take_token (token a) a rest

-- What `Parse` comes to: the settings with `Args()`, or the exit.
pub data Parsed : Type 0 where
  parsed : Settings → List Text → Parsed
  exited : ℕ → Parsed

-- what the loop of `Parse` does with the outcome of `parseOne`
abbrev pub resume : (Settings → List Text → Option Parsed) → Settings → Step → Option Parsed
resume next set (read_flag now rest) = next now rest
resume next set (ended rest) = some (parsed set rest)
resume next set (exits code) = some (exited code)

module _ (valid : Kind → Text → Bool) (flags : FlagSet) where
  -- `Parse` on fuel, absent where that runs out
  unfoldable pub parse : ℕ → Settings → List Text → Option Parsed
  parse zero set args = none
  parse (suc fuel) set args = resume (parse fuel) set (parse_one valid flags set args)
