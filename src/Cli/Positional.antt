-- ===== src/Cli/Positional.antt =====
-- `parseArgs` of main.go, which parses flags wherever they stand among the arguments.
use regcachectl.Base.{
  ◌≡◌, refl, ℕ, zero, suc, ◌-◌, Bool, false, ◌&&◌, ◌||◌, List, [], ◌∷◌, ◌++◌, Option, none, some,
  if◌then◌else◌, length, ltb, get_elem?, arith,
}
use regcachectl.Text.{Text, codes, eq}
use regcachectl.Cli.Flags.{
  Kind, FlagSet, Settings, Step, read_flag, ended, exits, Parsed, parsed, exited, parse_one, parse,
  dashes, Token, positional, terminator, malformed, named, token, bool_flag, text_flag, number_flag,
  duration_flag, set_flag, defined_flag, take_token,
}
use regcachectl.Dict.{get, put}

-- the test behind `args[consumed-1]`
abbrev pub is_terminator : Option Text → Bool
is_terminator none = false
is_terminator (some a) = eq a dashes

-- whether `--` is the last of the arguments that `Parse` consumed
unfoldable pub ends_flags : List Text → List Text → Bool
ends_flags args rest =
    let consumed = length args - length rest in
    ltb 0 consumed && is_terminator (get_elem? args (consumed - 1))

-- `append(pos, …)` in front of a result
abbrev pub append_to : List Text → Parsed → Parsed
append_to pos (parsed set rest) = parsed set (pos ++ rest)
append_to pos (exited code) = exited code

-- what `parseArgs` does with the outcome of `Parse`; `next` is its next round
unfoldable pub after :
    (Settings → List Text → List Text → Option Parsed)
    → List Text
    → List Text
    → Option Parsed
    → Option Parsed
after next args pos none = none
after next args pos (some (exited code)) = some (exited code)
after next args pos (some (parsed set [])) = some (parsed set pos)
after next args pos (some (parsed set (r ∷ rest))) =
    let more = next set (pos ++ r ∷ []) rest in
    if ends_flags args (r ∷ rest) then some (parsed set (pos ++ r ∷ rest)) else more

module _ (valid : Kind → Text → Bool) (flags : FlagSet) where
  -- `parseArgs` on fuel: the settings with the positional arguments
  unfoldable pub parse_args : ℕ → Settings → List Text → List Text → Option Parsed
  unfolding after parse
  parse_args zero set pos args = none
  parse_args (suc fuel) set pos args =
      after (parse_args fuel) args pos (parse valid flags (suc (length args)) set args)

abbrev pub append_to? : List Text → Option Parsed → Option Parsed
append_to? pos none = none
append_to? pos (some p) = some (append_to pos p)

-- What one argument means: a positional one, the end of the flags, an exit, a flag with its value, or a
-- flag whose value is the next argument.
pub data Meaning : Type 0 where
  plain : Meaning
  stops : Meaning
  fails : ℕ → Meaning
  sets : Text → Text → Meaning
  wants : Kind → Text → Meaning

module _ (valid : Kind → Text → Bool) (flags : FlagSet) where
  abbrev pub defined : Option Kind → Text → Option Text → Meaning
  defined none name v = fails (if eq name (codes "help") || eq name (codes "h") then 0 else 2)
  defined (some k) name (some v) = if valid k v then sets name v else fails 2
  defined (some bool_flag) name none = sets name (codes "true")
  defined (some k) name none = wants k name

  abbrev pub meaning_of : Token → Meaning
  meaning_of positional = plain
  meaning_of terminator = stops
  meaning_of malformed = fails 2
  meaning_of (named name v) = defined (get name flags) name v

  abbrev pub act :
      (Settings → Option (Kind × Text) → Option Parsed)
      → Settings
      → Text
      → List Text
      → Meaning
      → Option Parsed
  act next set a rest plain = append_to? (a ∷ []) (next set none)
  act next set a rest stops = some (parsed set rest)
  act next set a rest (fails code) = some (exited code)
  act next set a rest (sets name v) = next (put name v set) none
  act next set a rest (wants k name) = next set (some (k, name))

  -- What `parseArgs` is for, in one pass over the arguments: a flag of the set is set, `--` makes all
  -- behind it positional, and so is every other argument. `waiting` is a flag that lacks its value.
  -- Absent where that value is `--`.
  unfoldable pub interpret : Settings → Option (Kind × Text) → List Text → Option Parsed
  interpret set none [] = some (parsed set [])
  interpret set (some waiting) [] = some (exited 2)
  interpret set (some (k, name)) (v ∷ rest) =
      let more = interpret (put name v set) none rest in
      if eq v dashes then none else if valid k v then more else some (exited 2)
  interpret set none (a ∷ rest) =
      act (λ now waiting. interpret now waiting rest) set a rest (meaning_of (token a))

  abbrev pub value_step : Settings → Kind → Text → List Text → Step
  value_step set k name [] = exits 2
  value_step set k name (v ∷ rest) = if valid k v then read_flag (put name v set) rest else exits 2

  abbrev pub step_of : Settings → Text → List Text → Meaning → Step
  step_of set a rest plain = ended (a ∷ rest)
  step_of set a rest stops = ended rest
  step_of set a rest (fails code) = exits code
  step_of set a rest (sets name v) = read_flag (put name v set) rest
  step_of set a rest (wants k name) = value_step set k name rest

  -- `parseOne` acts on the meaning of its first argument.
  pub parse_one-step_of :
      (set : Settings) (a : Text) (rest : List Text)
      → parse_one valid flags set (a ∷ rest) ≡ step_of set a rest (meaning_of (token a))
  unfolding parse_one set_flag defined_flag take_token
  parse_one-step_of set a rest = go (token a)
    where
      flagged :
          (o : Option Kind) (name : Text) (v : Option Text) (rest : List Text)
          → defined_flag valid flags set o name v rest ≡ step_of set a rest (defined o name v)
      flagged none name v rest = refl
      flagged (some k) name (some v) rest = ground arith
      flagged (some bool_flag) name none rest = refl
      flagged (some text_flag) name none [] = refl
      flagged (some number_flag) name none [] = refl
      flagged (some duration_flag) name none [] = refl
      flagged (some text_flag) name none (v ∷ rest) = refl
      flagged (some number_flag) name none (v ∷ rest) = refl
      flagged (some duration_flag) name none (v ∷ rest) = refl

      go : (t : Token) → take_token valid flags set t a rest ≡ step_of set a rest (meaning_of t)
      go positional = refl
      go terminator = refl
      go malformed = refl
      go (named name v) = flagged (get name flags) name v rest
