-- ===== src/Cli/Typed.antt =====
-- The settings of a command of main.go are well typed: what `Parse` and `parseArgs` set is a flag of the
-- command, with a value that its conversion accepts.
use regcachectl.Base.{
  ◌≡◌, refl, ◌∙◌, sym, ap, ℕ, zero, suc, Bool, true, List, [], ◌∷◌, ◌++◌, Option, none, some,
  length, Bool-cases, inl, inr, subst,
}
use regcachectl.Text.{Text, codes, eq, mem}
use regcachectl.Text.Equality.{eq_iff}
use regcachectl.Dict.{get, put, get-put}
use regcachectl.Cli.Flags.{
  Kind, FlagSet, Settings, Step, read_flag, ended, exits, Parsed, parsed, exited, token, parse_one,
  parse, resume, bool_flag, text_flag, number_flag, duration_flag, Token, positional, terminator,
  malformed, named,
}
use regcachectl.Cli.Commands.{Command, Conversions, flags_of, valid, parse_bool}
use regcachectl.Cli.Process.{Machine}
use regcachectl.Cli.Run.{is_bare, takes_args, parse_command}
use regcachectl.Cli.Positional.{
  ends_flags, after, parse_args, Meaning, plain, stops, fails, sets, wants, meaning_of, defined,
  step_of, parse_one-step_of,
}

module _ (valid : Kind → Text → Bool) (flags : FlagSet) where
  -- a flag of the set with a value that can be converted
  pub record IsSetting (name v : Text) : Type 0 where
    pub kind : Kind
    pub registered : get name flags ≡ some kind
    pub valued : valid kind v ≡ true

  abbrev pub IsTyped : Settings → Type 0
  IsTyped set = (name v : Text) → get name set ≡ some v → IsSetting name v

  nil-IsTyped : IsTyped []
  unfolding get
  nil-IsTyped name v h = cc

  put-IsTyped :
      (name v : Text) (set : Settings) → IsSetting name v → IsTyped set → IsTyped (put name v set)
  put-IsTyped name v set s h j w g = elim (Bool-cases (eq name j)) [
    | inl here ↦
        let e : name ≡ j = (eq_iff name j).0 here in
        let f : v ≡ w = cc (rw (get-put name j v set, here) at g) in
        record {
          kind = s.kind;
          registered = ap (λ n. get n flags) (sym e) ∙ s.registered;
          valued = ap (valid s.kind) (sym f) ∙ s.valued;
        }
    | inr there ↦ h j w (rw (get-put name j v set, there) at g)
  ]

  abbrev StepIsTyped : Step → Type 0
  StepIsTyped (read_flag set rest) = IsTyped set
  StepIsTyped (ended rest) = Unit
  StepIsTyped (exits code) = Unit

  -- what an argument means is well typed
  abbrev MeaningIsTyped : Meaning → Type 0
  MeaningIsTyped (sets name v) = IsSetting name v
  MeaningIsTyped (wants k name) = get name flags ≡ some k
  MeaningIsTyped _ = Unit

  -- `Value.Set` of a Boolean flag accepts the value that it has without an argument.
  module _ (truth : valid bool_flag (codes "true") ≡ true) where
    defined-MeaningIsTyped :
        (o : Option Kind) (name : Text) (v : Option Text)
        → get name flags ≡ o
        → MeaningIsTyped (defined valid flags o name v)
    defined-MeaningIsTyped none name v h = tt
    defined-MeaningIsTyped (some k) name (some v) h = elim (Bool-cases (valid k v)) [
      | inl good ↦ rw good (record { kind = k; registered = h; valued = good })
      | inr bad ↦ rw bad tt
    ]
    defined-MeaningIsTyped (some bool_flag) name none h = record {
      kind = bool_flag;
      registered = h;
      valued = truth;
    }
    defined-MeaningIsTyped (some text_flag) name none h = h
    defined-MeaningIsTyped (some number_flag) name none h = h
    defined-MeaningIsTyped (some duration_flag) name none h = h

    meaning_of-MeaningIsTyped : (t : Token) → MeaningIsTyped (meaning_of valid flags t)
    meaning_of-MeaningIsTyped positional = tt
    meaning_of-MeaningIsTyped terminator = tt
    meaning_of-MeaningIsTyped malformed = tt
    meaning_of-MeaningIsTyped (named name v) = defined-MeaningIsTyped (get name flags) name v refl

    step_of-StepIsTyped :
        (set : Settings) (a : Text) (rest : List Text) (m : Meaning)
        → IsTyped set
        → MeaningIsTyped m
        → StepIsTyped (step_of valid flags set a rest m)
    step_of-StepIsTyped set a rest plain h t = tt
    step_of-StepIsTyped set a rest stops h t = tt
    step_of-StepIsTyped set a rest (fails code) h t = tt
    step_of-StepIsTyped set a rest (sets name v) h t = put-IsTyped name v set t h
    step_of-StepIsTyped set a [] (wants k name) h t = tt
    step_of-StepIsTyped set a (v ∷ rest) (wants k name) h t = elim (Bool-cases (valid k v)) [
      | inl good ↦
          rw good (put-IsTyped name v set (record { kind = k; registered = t; valued = good }) h)
      | inr bad ↦ rw bad tt
    ]

    abbrev EndIsTyped : Option Parsed → Type 0
    EndIsTyped (some (parsed set args)) = IsTyped set
    EndIsTyped _ = Unit

    parse-EndIsTyped :
        (f : ℕ) (set : Settings) (args : List Text)
        → IsTyped set
        → EndIsTyped (parse valid flags f set args)
    unfolding parse parse_one
    parse-EndIsTyped zero set args h = tt
    parse-EndIsTyped (suc f) set [] h = h
    parse-EndIsTyped (suc f) set (a ∷ rest) h =
        let m = meaning_of valid flags (token a) in
        rw (parse_one-step_of valid flags set a rest) (
          go (step_of valid flags set a rest m)
            (step_of-StepIsTyped set a rest m h (meaning_of-MeaningIsTyped (token a)))
            (λ now left t. parse-EndIsTyped f now left t))
      where
        go :
            (s : Step)
            → StepIsTyped s
            → ((now : Settings) (left : List Text)
                → IsTyped now
                → EndIsTyped (parse valid flags f now left))
            → EndIsTyped (resume (parse valid flags f) set s)
        go (read_flag now left) t next = next now left t
        go (ended left) t next = h
        go (exits code) t next = tt

    parse_args-EndIsTyped :
        (g : ℕ) (set : Settings) (pos args : List Text)
        → IsTyped set
        → EndIsTyped (parse_args valid flags g set pos args)
    unfolding parse_args after
    parse_args-EndIsTyped zero set pos args h = tt
    parse_args-EndIsTyped (suc g) set pos args h =
        go (parse valid flags (suc (length args)) set args)
          (parse-EndIsTyped (suc (length args)) set args h)
          (λ now more left t. parse_args-EndIsTyped g now more left t)
      where
        go :
            (o : Option Parsed)
            → EndIsTyped o
            → ((now : Settings) (more left : List Text)
                → IsTyped now
                → EndIsTyped (parse_args valid flags g now more left))
            → EndIsTyped (after (parse_args valid flags g) args pos o)
        go none t next = tt
        go (some (exited code)) t next = tt
        go (some (parsed now [])) t next = t
        go (some (parsed now (r ∷ rest))) t next = elim (Bool-cases (ends_flags args (r ∷ rest))) [
          | inl here ↦ rw here t
          | inr on ↦ rw on (next now (pos ++ r ∷ []) rest t)
        ]

true-valid : (k : Conversions) → valid k bool_flag (codes "true") ≡ true
unfolding valid parse_bool mem eq
true-valid k = refl

parse_command-EndIsTyped :
    (m : Machine) (c : Command) (rest : List Text)
    → EndIsTyped
        (valid m.conversions)
        (flags_of c)
        (true-valid m.conversions)
        (parse_command m c rest)
unfolding parse_command
parse_command-EndIsTyped m c rest =
    let truth = true-valid m.conversions in
    let empty = nil-IsTyped (valid m.conversions) (flags_of c) in
    elim (Bool-cases (is_bare c)) [
      | inl bare ↦ rw bare empty
      | inr flagged ↦ elim (Bool-cases (takes_args c)) [
        | inl takes ↦
            rw (flagged, takes)
              (parse_args-EndIsTyped (valid m.conversions) (flags_of c) truth (suc (length rest)) []
                [] rest empty)
        | inr leaves ↦
            rw (flagged, leaves)
              (parse-EndIsTyped (valid m.conversions) (flags_of c) truth (suc (length rest)) [] rest
                empty)
      ]
    ]

-- The settings with which a command runs are well typed: each is a flag of the command, and its value is
-- one that the conversion of its kind accepts.
pub parse_command-IsTyped :
    (m : Machine) (c : Command) (rest : List Text) (set : Settings) (args : List Text)
    → parse_command m c rest ≡ some (parsed set args)
    → IsTyped (valid m.conversions) (flags_of c) set
parse_command-IsTyped m c rest set args h =
    subst (EndIsTyped (valid m.conversions) (flags_of c) (true-valid m.conversions)) h
      (parse_command-EndIsTyped m c rest)
