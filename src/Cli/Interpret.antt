-- ===== src/Cli/Interpret.antt =====
-- `parseArgs` of main.go ends, and gives every argument its meaning, wherever it stands.
use regcachectl.Base.{
  ◌≡◌, ◌≢◌, ◌⊎◌, refl, sym, ◌∙◌, ap, ℕ, zero, suc, ◌-◌, ◌≤◌, ◌<◌, Bool, true, false, ◌==◌, List, [],
  ◌∷◌, ◌++◌, Option, none, some, length, length-append, get_elem?, arith, append_assoc, append-nil,
  Bool-cases, Option-cases, inl, inr,
}
use regcachectl.Text.{Text, eq}
use regcachectl.Cli.Flags.{
  Kind, FlagSet, Settings, Token, Step, Parsed, parsed, exited, token, behind_dash, flag_name,
  split_value, equals, parse_one, parse, dashes, resume, bool_flag, text_flag, number_flag,
  duration_flag, positional, terminator, malformed, named,
}
use regcachectl.Text.Equality.{eq_sound}
use regcachectl.Cli.Positional.{
  is_terminator, ends_flags, append_to, after, parse_args, Meaning, plain, stops, fails, sets,
  wants, meaning_of, defined, interpret, value_step, step_of, act, parse_one-step_of,
}
use regcachectl.Dict.{get, put}

last_dashed : List Text → Bool
last_dashed [] = false
last_dashed (x ∷ []) = eq x dashes
last_dashed (x ∷ y ∷ xs) = last_dashed (y ∷ xs)

last_dashed-append : (xs : List Text) (x : Text) → last_dashed (xs ++ x ∷ []) ≡ eq x dashes
unfolding last_dashed
last_dashed-append [] x = refl
last_dashed-append (y ∷ []) x = refl
last_dashed-append (y ∷ z ∷ xs) x = last_dashed-append (z ∷ xs) x

append-one :
    (pre : List Text) (a : Text) (rest : List Text) → pre ++ a ∷ rest ≡ (pre ++ a ∷ []) ++ rest
append-one pre a rest = sym (append_assoc pre (a ∷ []) rest)

append-two :
    (pre : List Text) (a v : Text) (rest : List Text)
    → pre ++ a ∷ v ∷ rest ≡ (pre ++ a ∷ v ∷ []) ++ rest
append-two pre a v rest = sym (append_assoc pre (a ∷ v ∷ []) rest)

get_elem?-last :
    (x : Text) (pre args : List Text)
    → is_terminator (get_elem? ((x ∷ pre) ++ args) (length pre)) ≡ last_dashed (x ∷ pre)
unfolding last_dashed
get_elem?-last x [] args = refl
get_elem?-last x (y ∷ pre) args = get_elem?-last y pre args

-- The test looks at the last of the arguments before the rest.
ends_flags-append : (pre args : List Text) → ends_flags (pre ++ args) args ≡ last_dashed pre
unfolding ends_flags last_dashed
ends_flags-append [] args = ground arith
ends_flags-append (x ∷ pre) args =
    let n : suc (length (pre ++ args)) - length args ≡ suc (length pre) =
      omega (arith, length-append pre args) in
    let m : suc (length pre) - 1 ≡ length pre = omega arith in
    rw (n, m, get_elem?-last x pre args) (ground arith)

split_value-named : (s : Text) → (n : Text) × (v : Option Text) × (split_value s ≡ named n v)
unfolding split_value
split_value-named [] = ([], none, refl)
split_value-named (c ∷ s) = elim (Bool-cases (c == equals)) [
  | inl here ↦ ([], some s, rw here)
  | inr there ↦ let (n, v, h) = split_value-named s in (c ∷ n, v, rw (there, h))
]

flag_name_lem : (s : Text) → flag_name s ≢ terminator
unfolding flag_name
flag_name_lem [] h = cc
flag_name_lem (c ∷ s) h = let (n, v, q) = split_value-named s in ground (arith, q)

token-dashes : (a : Text) → token a ≡ terminator → eq a dashes ≡ true
unfolding token behind_dash eq
token-dashes [] h = cc
token-dashes (c ∷ []) h = ground arith
token-dashes (c ∷ d ∷ []) h = ground (arith, flag_name_lem (d ∷ []))
token-dashes (c ∷ d ∷ e ∷ s) h = ground (arith, flag_name_lem (e ∷ s), flag_name_lem (d ∷ e ∷ s))

token_dashed : (a : Text) → eq a dashes ≡ true → token a ≡ terminator
unfolding token
token_dashed a h = let e : a ≡ dashes = eq_sound a dashes h in rw e

module _ (valid : Kind → Text → Bool) (flags : FlagSet) where
  -- A round that has consumed `pre`, none of it a terminator, at its end.
  after-end :
      (next : Settings → List Text → List Text → Option Parsed) (pre rest pos : List Text)
      (set : Settings)
      → last_dashed pre ≡ true
      → after next (pre ++ rest) pos (some (parsed set rest)) ≡ some (parsed set (pos ++ rest))
  unfolding after
  after-end next pre [] pos set h = rw (append-nil pos)
  after-end next pre (r ∷ rest) pos set h = rw (ends_flags-append pre (r ∷ rest), h)

  after-positional :
      (next : Settings → List Text → List Text → Option Parsed) (pre : List Text) (a : Text)
      (rest pos : List Text) (set : Settings)
      → last_dashed pre ≡ false
      → after next (pre ++ a ∷ rest) pos (some (parsed set (a ∷ rest)))
        ≡ next set (pos ++ a ∷ []) rest
  unfolding after
  after-positional next pre a rest pos set h = rw (ends_flags-append pre (a ∷ rest), h)

  ended_by_dashes : (a : Text) → meaning_of valid flags (token a) ≡ stops → eq a dashes ≡ true
  ended_by_dashes a h = token-dashes a (go (token a) h)
    where
      go : (t : Token) → meaning_of valid flags t ≡ stops → t ≡ terminator
      go positional h = cc
      go terminator h = refl
      go malformed h = cc
      go (named name v) h = absurd (other (get name flags) v h)
        where
          other : (o : Option Kind) (v : Option Text) → defined valid flags o name v ≢ stops
          other none v h = cc
          other (some k) (some v) h = ground arith
          other (some bool_flag) none h = cc
          other (some text_flag) none h = cc
          other (some number_flag) none h = cc
          other (some duration_flag) none h = cc

  -- An argument that means anything but the end of the flags is not `--`.
  not_dashes : (a : Text) → meaning_of valid flags (token a) ≢ stops → eq a dashes ≡ false
  not_dashes a h = elim (Bool-cases (eq a dashes)) [
    | inl here ↦ absurd (h (rw (token_dashed a here)))
    | inr there ↦ there
  ]

  append_to-append :
      (pos : List Text) (a : Text) (p : Parsed)
      → append_to (pos ++ a ∷ []) p ≡ append_to pos (append_to (a ∷ []) p)
  append_to-append pos a (parsed set rest) = ap (parsed set) (append_assoc pos (a ∷ []) rest)
  append_to-append pos a (exited code) = refl

  append_to-nil : (p : Parsed) → append_to [] p ≡ p
  append_to-nil (parsed set rest) = refl
  append_to-nil (exited code) = refl

  -- A round that has consumed `pre` does with at most `n` arguments what they mean.
  abbrev Runs : ℕ → Type 0
  Runs n =
      (f g : ℕ) (pre args pos : List Text) (set : Settings) (p : Parsed)
      → length args ≤ n
      → length args < f
      → length args ≤ g
      → last_dashed pre ≡ false
      → interpret valid flags set none args ≡ some p
      → after (parse_args valid flags g) (pre ++ args) pos (parse valid flags f set args)
        ≡ some (append_to pos p)

  module _ (n f g : ℕ) (again : Runs n) (pre : List Text) (a : Text) (pos : List Text)
      (set : Settings) (p : Parsed) (hp : last_dashed pre ≡ false) where
    -- how the round goes on from its next flag
    abbrev GoesOn : Text → List Text → Step → Type 0
    GoesOn a rest s =
        after (parse_args valid flags (suc g)) (pre ++ a ∷ rest) pos
          (resume (parse valid flags f) set s)
        ≡ some (append_to pos p)

    run_value :
        (k : Kind) (name v : Text) (rest : List Text)
        → meaning_of valid flags (token a) ≢ stops
        → interpret valid flags set (some (k, name)) (v ∷ rest) ≡ some p
        → suc (length rest) ≤ n
        → suc (length rest) < f
        → suc (length rest) ≤ suc g
        → GoesOn a (v ∷ rest) (value_step valid flags set k name (v ∷ rest))
    unfolding interpret after
    run_value k name v rest q h hn hf hg = go (Bool-cases (eq v dashes)) (Bool-cases (valid k v))
      where
        go :
            ((eq v dashes ≡ true) ⊎ (eq v dashes ≡ false))
            → ((valid k v ≡ true) ⊎ (valid k v ≡ false))
            → GoesOn a (v ∷ rest) (value_step valid flags set k name (v ∷ rest))
        go (inl dashed) _ = absurd (cc (rw dashed at h))
        go (inr other) (inr bad) = let e : exited 2 ≡ p = cc (rw (other, bad) at h) in rw (bad, ← e)
        go (inr other) (inl good) =
            rw (good, append-two pre a v rest)
              (again f (suc g) (pre ++ a ∷ v ∷ []) rest pos (put name v set) p (omega arith)
                (omega arith) (omega arith)
                (rw (append-one pre a (v ∷ [])) (last_dashed-append (pre ++ a ∷ []) v ∙ other))
                (rw (other, good) at h))

    run_stop :
        (rest : List Text)
        → meaning_of valid flags (token a) ≡ stops
        → after (parse_args valid flags (suc g)) (pre ++ a ∷ rest) pos (some (parsed set rest))
          ≡ some (parsed set (pos ++ rest))
    run_stop rest q = rw (append-one pre a rest) (
        after-end (parse_args valid flags (suc g)) (pre ++ a ∷ []) rest pos set
          (last_dashed-append pre a ∙ ended_by_dashes a q))

    run_argument :
        (m : Meaning) (rest : List Text)
        → meaning_of valid flags (token a) ≡ m
        → act valid flags (λ now waiting. interpret valid flags now waiting rest) set a rest m
          ≡ some p
        → length rest ≤ n
        → length rest < f
        → length rest ≤ g
        → GoesOn a rest (step_of valid flags set a rest m)
    unfolding after parse_args interpret last_dashed
    run_argument plain rest q h hn hf hg =
        elim (Option-cases (interpret valid flags set none rest)) [
          | inl nothing ↦ absurd (cc (rw nothing at h))
          | inr (p', done) ↦
              let e : append_to (a ∷ []) p' ≡ p = cc (rw done at h) in
              after-positional (parse_args valid flags (suc g)) pre a rest pos set hp
              ∙ again (suc (length rest)) g [] rest (pos ++ a ∷ []) set p' hn (omega arith) hg refl
                  done
              ∙ ap some (append_to-append pos a p' ∙ ap (append_to pos) e)
        ]
    run_argument stops rest q h hn hf hg =
        let e : parsed set rest ≡ p = cc in run_stop rest q ∙ ap (λ z. some (append_to pos z)) e
    run_argument (fails code) rest q h hn hf hg = let e : exited code ≡ p = cc in rw (← e)
    run_argument (sets name v) rest q h hn hf hg = rw (append-one pre a rest) (
        again f (suc g) (pre ++ a ∷ []) rest pos (put name v set) p hn hf (omega arith)
          (last_dashed-append pre a ∙ not_dashes a (λ z. cc (z, q))) h)
    run_argument (wants k name) [] q h hn hf hg = let e : exited 2 ≡ p = cc in rw (← e)
    run_argument (wants k name) (v ∷ rest) q h hn hf hg =
        run_value k name v rest (λ z. cc (z, q)) h hn hf (omega arith)

  runs : (n : ℕ) → Runs n
  unfolding parse parse_one after parse_args interpret
  runs n zero g pre args pos set p hn hf hg hp h = absurd (omega arith)
  runs n (suc f) g pre [] pos set p hn hf hg hp h =
      let e : parsed set [] ≡ p = cc in rw (← e, append-nil pos)
  runs zero (suc f) g pre (a ∷ rest) pos set p hn hf hg hp h = absurd (omega arith)
  runs (suc n) (suc f) zero pre (a ∷ rest) pos set p hn hf hg hp h = absurd (omega arith)
  runs (suc n) (suc f) (suc g) pre (a ∷ rest) pos set p hn hf hg hp h =
      rw (parse_one-step_of valid flags set a rest) (
        run_argument n f g (runs n) pre a pos set p hp (meaning_of valid flags (token a)) rest refl
          h (omega arith) (omega arith) (omega arith))

  -- Where no flag takes the argument `--` as its value, `parseArgs` gives every argument its meaning in one
  -- pass: flags are read before, between and behind the positional arguments, up to `--`, behind which all
  -- are positional. The fuel is one more than there are arguments.
  pub parse_args-interpret :
      (set : Settings) (args : List Text) (p : Parsed)
      → interpret valid flags set none args ≡ some p
      → parse_args valid flags (suc (length args)) set [] args ≡ some p
  unfolding parse_args last_dashed
  parse_args-interpret set args p h =
      runs (length args) (suc (length args)) (length args) [] args [] set p (omega arith)
        (omega arith) (omega arith) refl h
      ∙ ap some (append_to-nil p)
