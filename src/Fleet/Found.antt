-- ===== src/Fleet/Found.antt =====
-- What `DiscoverPorts` of internal/cache/cache.go finds, and where the engine then addresses the caches.
use regcachectl.Base.{
  ◌≡◌, ◌<◌, refl, ℕ, zero, suc, List, [], ◌∷◌, Option, none, some, arith, ap, if◌then◌else◌, ◌∙◌,
  All, All-imp, ◌+◌, ◌==◌, Option-cases, inl, inr,
}
use regcachectl.Base.Results.{Result, ok, err}
use regcachectl.Text.{
  Text, eq, cut, trim_space, last_line, atoi_positive, if_positive, read_unsigned,
}
use regcachectl.Dict.{Dict, get, get-put}
use regcachectl.Upstream.{Upstream, upstreams, dockerhub, ghcr, quay, f5, nvcr}
use regcachectl.Engine.{Engine, container, base_port, port}
use regcachectl.Io.{History, Runtime, pure, attempt, ◌>>=◌, continue, run, ran, trimmed}
use regcachectl.Fleet.Commands.{port_args}
use regcachectl.Fleet.Discover.{
  first_some, halves, candidate, port_in, note_port, note_answer, discover_loop, discover_ports,
}

get-note_port :
    (name k : Text) (o : Option ℕ) (m : Dict ℕ)
    → get k (note_port name o m) ≡ (if eq name k then first_some o (get k m) else get k m)
unfolding note_port
get-note_port name k none m = ground arith
get-note_port name k (some p) m = ground (arith, get-put name k p m)

if_positive_lem : (o : Option ℕ) (p : ℕ) → if_positive o ≡ some p → 0 < p
if_positive_lem none p h = cc
if_positive_lem (some zero) p h = cc
if_positive_lem (some (suc n)) p h = ground arith

atoi_positive_lem : (s : Text) (p : ℕ) → atoi_positive s ≡ some p → 0 < p
unfolding atoi_positive
atoi_positive_lem s p h = if_positive_lem (read_unsigned s) p h

candidate_lem : (a : Text × Text) (p : ℕ) → candidate a ≡ some p → 0 < p
unfolding candidate
candidate_lem (a, b) p h = go (atoi_positive (trim_space a)) refl h
  where
    go :
        (o : Option ℕ)
        → atoi_positive (trim_space a) ≡ o
        → first_some o (atoi_positive (trim_space b)) ≡ some p
        → 0 < p
    go none q h = atoi_positive_lem (trim_space b) p h
    go (some n) q h = atoi_positive_lem (trim_space a) p (cc (q, h))

-- the text in front of the first bar and the one behind it
unfoldable pub before_bar : Text → Text
before_bar [] = []
before_bar (x ∷ s) = let rest = before_bar s in if x == b'|' then [] else x ∷ rest

unfoldable pub after_bar : Text → Text
after_bar [] = []
after_bar (x ∷ s) = let rest = after_bar s in if x == b'|' then s else rest

halves-cut : (s : Text) → halves s (cut b'|' s) ≡ (before_bar s, after_bar s)
unfolding cut before_bar after_bar
halves-cut [] = refl
halves-cut (x ∷ s) = ground (arith, halves-cut s)

-- The port that the answer to an inspection tells, by its last line, which is a label and a binding
-- with a bar between: the label's if it is a positive number, else the binding's if it is one.
unfoldable pub told_port : Result Text → Option ℕ
told_port (err e) = none
told_port (ok out) =
    let line = last_line (trim_space out) in
    first_some (atoi_positive (trim_space (before_bar line)))
      (atoi_positive (trim_space (after_bar line)))

port_in_lem : (out : Text) → port_in (trim_space out) ≡ told_port (ok out)
unfolding port_in told_port
port_in_lem out = ap candidate (halves-cut (last_line (trim_space out))) ∙ unfold candidate in refl

told_port_lem : (r : Result Text) (p : ℕ) → told_port r ≡ some p → 0 < p
unfolding told_port candidate
told_port_lem (err e) p h = cc
told_port_lem (ok out) p h =
    let line = last_line (trim_space out) in candidate_lem (before_bar line, after_bar line) p h

told_port-err : (e : Text) → told_port (err e) ≡ none
unfolding told_port
told_port-err e = refl

-- what is found under the name `k` after these upstreams, with the port of each
look : Text → List (Upstream × Option ℕ) → Option ℕ → Option ℕ
look k [] o = o
look k ((u, p) ∷ us) o = look k us (if eq u.name k then first_some p o else o)

get-note_answer :
    (name k : Text) (r : Result Text) (m : Dict ℕ)
    → get k (note_answer name (trimmed r) m)
      ≡ (if eq name k then first_some (told_port r) (get k m) else get k m)
unfolding note_answer
get-note_answer name k (err e) m = ground (arith, told_port-err e)
get-note_answer name k (ok out) m =
    rw (port_in_lem out) (get-note_port name k (told_port (ok out)) m)

abbrev pub default_to : ℕ → Option ℕ → ℕ
default_to n none = n
default_to n (some p) = p

first_some-none : (o : Option ℕ) → first_some o none ≡ o
first_some-none none = refl
first_some-none (some p) = refl

module _ (rt : Runtime) where
  -- the port that the container of an upstream tells
  pub published : Upstream → Option ℕ
  published u = told_port (rt [] (ran (port_args (container u))))

  -- The containers stay as they are while they are asked.
  abbrev pub AreSteady : Type 0
  AreSteady =
      (es : History) (u : Upstream)
      → rt es (ran (port_args (container u))) ≡ rt [] (ran (port_args (container u)))

  with_ports : List Upstream → List (Upstream × Option ℕ)
  with_ports [] = []
  with_ports (u ∷ us) = (u, published u) ∷ with_ports us

  discover_loop_found :
      (found : Dict ℕ) (us : List Upstream) (es : History)
      → AreSteady
      → (m : Dict ℕ) × ((discover_loop rt found us es).0 ≡ ok m)
        × ((k : Text) → get k m ≡ look k (with_ports us) (get k found))
  unfolding discover_loop pure attempt run ◌>>=◌ look with_ports published
  discover_loop_found found [] es steady = (found, refl, λ k. refl)
  discover_loop_found found (u ∷ us) es steady =
      let answer = rt es (ran (port_args (container u))) in
      let (m, q, h) =
        discover_loop_found (note_answer u.name (trimmed answer) found) us
          (ran (port_args (container u)) ∷ es) steady in
      (
        m,
        q,
        λ k.
            h k
            ∙ ap (look k (with_ports us)) (
                get-note_answer u.name k answer found
                ∙ ap
                    (λ r.
                      if eq u.name k then first_some (told_port r) (get k found) else get k found)
                    (steady es u)),
      )

  -- What is found for an upstream, and where the engine then addresses its cache: at the port that
  -- its container tells, and where it tells none or an explicit base was asked for, at the port that
  -- the base and the index give.
  pub record IsAddressed (e : Engine) (m : Dict ℕ) (u : Upstream) : Type 0 where
    pub found : get u.name m ≡ published u
    pub at :
        (i : ℕ)
        → port (record e { ports = m }) i u ≡ (
            if e.port_base_set then base_port e + i else default_to (base_port e + i) (published u))

  found-IsAddressed :
      (e : Engine) (m : Dict ℕ) (u : Upstream) → get u.name m ≡ published u → IsAddressed e m u
  unfolding port published base_port
  found-IsAddressed e m u q = record {
    found = q;
    at = λ i. elim (Option-cases (published u)) [
      | inl silent ↦ ground (arith, q ∙ silent, silent)
      | inr (p, told) ↦ ground (arith, told_port_lem _ p told, q ∙ told, told)
    ];
  }

  -- The upstreams of the table have different names.
  each_found :
      (m : Dict ℕ)
      → ((k : Text) → get k m ≡ look k (with_ports upstreams) none)
      → All (λ u. get u.name m ≡ published u) upstreams
  unfolding look with_ports upstreams eq dockerhub ghcr quay f5 nvcr
  each_found m h =
      let at : (u : Upstream) → get u.name m ≡ look u.name (with_ports upstreams) none =
        λ u. h u.name in
      (
        at dockerhub ∙ first_some-none _,
        (
          at ghcr ∙ first_some-none _,
          (
            at quay ∙ first_some-none _,
            (at f5 ∙ first_some-none _, (at nvcr ∙ first_some-none _, tt)),
          ),
        ),
      )

  -- While the containers stay as they are, looking for ports never fails, and changes nothing of the
  -- engine but the ports. What is found for each upstream of the table is exactly the port that the
  -- answer to the inspection of its container tells: that of the label, else that of the binding. So
  -- without an explicit base this cache is addressed at that port, and where none is told, or with an
  -- explicit base, at the one that the base and its index give.
  pub discover_ports_found :
      (e : Engine) (es : History)
      → AreSteady
      → (m : Dict ℕ) × ((discover_ports rt e es).0 ≡ ok (record e { ports = m }))
        × All (IsAddressed e m) upstreams
  unfolding discover_ports pure ◌>>=◌ get
  discover_ports_found e es steady =
      let (m, q, h) = discover_loop_found [] upstreams es steady in
      (
        m,
        ap
            (λ (r : Result (Dict ℕ)).
              (continue r (λ found. pure (record e { ports = found }))
                (discover_loop rt [] upstreams es).1).0)
            q,
        All-imp upstreams (found-IsAddressed e m) (each_found m h),
      )
