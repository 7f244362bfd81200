-- ===== src/Cli/Ends.antt =====
-- The loops of `Parse` and of `parseArgs` of main.go end.
use regcachectl.Base.{
  ◌≡◌, refl, ℕ, zero, suc, ◌≤◌, ◌<◌, Bool, List, [], ◌∷◌, ◌++◌, Option, none, some, length, arith,
  Bool-cases, inl, inr,
}
use regcachectl.Text.{Text}
use regcachectl.Cli.Flags.{
  Kind, FlagSet, Settings, Step, read_flag, ended, exits, Parsed, parsed, exited, token, parse_one,
  parse, resume,
}
use regcachectl.Cli.Commands.{Command, flags_of, valid}
use regcachectl.Cli.Process.{Machine}
use regcachectl.Cli.Run.{is_bare, takes_args, parse_command}
use regcachectl.Cli.Positional.{
  ends_flags, after, parse_args, Meaning, plain, stops, fails, sets, wants, meaning_of, step_of,
  parse_one-step_of,
}

-- A step leaves fewer arguments if it reads a flag, and no more if it ends them.
abbrev IsShort : ℕ → Step → Type 0
IsShort n (read_flag set rest) = length rest ≤ n
IsShort n (ended rest) = length rest ≤ suc n
IsShort n (exits code) = Unit

-- An outcome with at most `n` arguments left.
abbrev IsEnd : ℕ → Option Parsed → Type 0
IsEnd n none = ⊥
IsEnd n (some (parsed set rest)) = length rest ≤ n
IsEnd n (some (exited code)) = Unit

module _ (valid : Kind → Text → Bool) (flags : FlagSet) where
  step_of-IsShort :
      (set : Settings) (a : Text) (rest : List Text) (m : Meaning)
      → IsShort (length rest) (step_of valid flags set a rest m)
  step_of-IsShort set a rest plain = omega arith
  step_of-IsShort set a rest stops = omega arith
  step_of-IsShort set a rest (fails code) = tt
  step_of-IsShort set a rest (sets name v) = omega arith
  step_of-IsShort set a [] (wants k name) = tt
  step_of-IsShort set a (v ∷ rest) (wants k name) = elim (Bool-cases (valid k v)) [
    | inl good ↦ rw good (omega arith)
    | inr bad ↦ rw bad tt
  ]

  parse-IsEnd :
      (f n : ℕ) (set : Settings) (args : List Text)
      → length args < f
      → length args ≤ n
      → IsEnd n (parse valid flags f set args)
  unfolding parse parse_one
  parse-IsEnd zero n set args hf hn = absurd (omega arith)
  parse-IsEnd (suc f) n set [] hf hn = hn
  parse-IsEnd (suc f) n set (a ∷ rest) hf hn = rw (parse_one-step_of valid flags set a rest) (
      go (step_of valid flags set a rest (meaning_of valid flags (token a)))
        (step_of-IsShort set a rest (meaning_of valid flags (token a)))
        (λ now left short. parse-IsEnd f n now left (omega arith) (omega arith)))
    where
      go :
          (s : Step)
          → IsShort (length rest) s
          → ((now : Settings) (left : List Text)
              → length left ≤ length rest
              → IsEnd n (parse valid flags f now left))
          → IsEnd n (resume (parse valid flags f) set s)
      go (read_flag now left) short next = next now left short
      go (ended left) short next = omega arith
      go (exits code) short next = tt

  parse_args-ends :
      (g : ℕ) (set : Settings) (pos args : List Text)
      → length args < g
      → (p : Parsed) × (parse_args valid flags g set pos args ≡ some p)
  unfolding parse_args after
  parse_args-ends zero set pos args h = absurd (omega arith)
  parse_args-ends (suc g) set pos args h =
      go (parse valid flags (suc (length args)) set args)
        (parse-IsEnd (suc (length args)) (length args) set args (omega arith) (omega arith))
        (λ now more left short. parse_args-ends g now more left (omega arith))
    where
      go :
          (o : Option Parsed)
          → IsEnd (length args) o
          → ((now : Settings) (more left : List Text)
              → length left < length args
              → (p : Parsed) × (parse_args valid flags g now more left ≡ some p))
          → (p : Parsed) × (after (parse_args valid flags g) args pos o ≡ some p)
      go none short next = absurd short
      go (some (exited code)) short next = (exited code, refl)
      go (some (parsed now [])) short next = (parsed now pos, refl)
      go (some (parsed now (r ∷ rest))) short next =
          elim (Bool-cases (ends_flags args (r ∷ rest))) [
            | inl here ↦ (parsed now (pos ++ r ∷ rest), rw here)
            | inr on ↦ let (p, h) = next now (pos ++ r ∷ []) rest (omega arith) in (p, rw on h)
          ]

  parse-total :
      (set : Settings) (args : List Text)
      → (p : Parsed) × (parse valid flags (suc (length args)) set args ≡ some p)
  parse-total set args =
      go (parse valid flags (suc (length args)) set args)
        (parse-IsEnd (suc (length args)) (length args) set args (omega arith) (omega arith))
    where
      go : (o : Option Parsed) → IsEnd (length args) o → (p : Parsed) × (o ≡ some p)
      go none h = absurd h
      go (some p) h = (p, refl)

  -- `parseArgs` ends on all arguments: one more unit of fuel than there are arguments is enough.
  pub parse_args_total :
      (set : Settings) (args : List Text)
      → (p : Parsed) × (parse_args valid flags (suc (length args)) set [] args ≡ some p)
  parse_args_total set args = parse_args-ends (suc (length args)) set [] args (omega arith)

-- Every command reads its arguments to the end: with the fuel that `run` gives, the parsing of flags
-- comes to settings with positional arguments, or to an exit.
pub parse_command_total :
    (m : Machine) (c : Command) (rest : List Text)
    → (p : Parsed) × (parse_command m c rest ≡ some p)
unfolding parse_command
parse_command_total m c rest = elim (Bool-cases (is_bare c)) [
  | inl bare ↦ (parsed [] rest, rw bare)
  | inr flagged ↦ elim (Bool-cases (takes_args c)) [
    | inl takes ↦
        let (p, h) = parse_args_total (valid m.conversions) (flags_of c) [] rest in
        (p, rw (flagged, takes) h)
    | inr none_taken ↦
        let (p, h) = parse-total (valid m.conversions) (flags_of c) [] rest in
        (p, rw (flagged, none_taken) h)
  ]
]
