-- ===== src/Fleet/Result.antt =====
-- A successful `Up` of internal/cache/cache.go leaves every cache of a public registry running.
use regcachectl.Base.{◌≡◌, refl, ℕ, Bool, true, false, ◌∷◌, Option, none, some, if◌then◌else◌, ap}
use regcachectl.Base.Results.{Result, ok, err}
use regcachectl.Text.{Text, trim_space}
use regcachectl.Upstream.{Upstream}
use regcachectl.Engine.{Engine, container, port}
use regcachectl.Io.{
  ran, History, Io, Runtime, ◌>>=◌, continue, run, wrapped, wrap_error, trimmed, pure,
}
use regcachectl.Io.Keeps.{Keeps, keeps_rules}
use regcachectl.Fleet.Commands.{ps_args, start_args, run_args}
use regcachectl.Fleet.Query.{Container, container_state, note_image_drift, container_answer}
use regcachectl.Fleet.Up.{reuse, create, bring_up, up_one}
use regcachectl.Fleet.Docker.{Docker, reported}
use regcachectl.Fleet.Running.{
  Reaches, Reaches-later, Reaches-kept, At, logged-At, note_image_drift-At, ps-At,
}

module _ (rt : Runtime) (k : Docker rt) (e : Engine) (u : Upstream) where
  start-Reaches : Reaches k (container u) (run rt (start_args (container u)))
  unfolding run
  start-Reaches = record { at = λ es a h. go (rt es (ran (start_args (container u)))) es a refl h }
    where
      go :
          (r : Result Text) (es : History) (a : Text)
          → rt es (ran (start_args (container u))) ≡ r
          → trimmed r ≡ ok a
          → k.state (ran (start_args (container u)) ∷ es) (container u) ≡ some true
      go (ok out) es a q h = k.starts es (container u) out q
      go (err m) es a q h = cc

  run-Reaches :
      (f : Text → Text) (p : ℕ) → Reaches k (container u) (wrapped f (run rt (run_args e u p)))
  unfolding run wrapped
  run-Reaches f p = record { at = λ es a h. go (rt es (ran (run_args e u p))) es a refl h }
    where
      go :
          (r : Result Text) (es : History) (a : Text)
          → rt es (ran (run_args e u p)) ≡ r
          → wrap_error f (trimmed r) ≡ ok a
          → k.state (ran (run_args e u p) ∷ es) (container u) ≡ some true
      go (ok out) es a q h = k.creates es e u p out q
      go (err m) es a q h = cc

  create-Reaches : (p : ℕ) → Reaches k (container u) (create rt e u p)
  unfolding create
  create-Reaches p = Reaches-kept _ _ (run-Reaches _ p) (λ a. search (keeps_rules, logged-At))

  -- the tail of `reuse`, which changes no container
  drift-Keeps :
      Keeps
        (At rt k (container u) (some true))
        (if u.blobcache then pure tt else note_image_drift rt e u)
  drift-Keeps = search (keeps_rules, note_image_drift-At)

  reuse_stopped :
      (p : ℕ) (c : Container) → c.running ≡ false → Reaches k (container u) (reuse rt e u p c)
  unfolding reuse
  reuse_stopped p c h = simp h (
      Reaches-kept _ _ (Reaches-kept _ _ start-Reaches (λ a. search (keeps_rules, logged-At)))
        (λ a. drift-Keeps))

  reuse_running :
      (p : ℕ) (c : Container)
      → c.running ≡ true
      → Keeps (At rt k (container u) (some true)) (reuse rt e u p c)
  unfolding reuse
  reuse_running p c h = simp h (search (keeps_rules, logged-At, drift-Keeps))

  -- what is done on what `ps` reported
  act : ℕ → Container → Io (Unit {0})
  act p c = if c.exists then reuse rt e u p c else create rt e u p

  act-runs :
      (p : ℕ) (c : Container) (es : History) (s : Option Bool) (a : Unit {0})
      → c ≡ reported s
      → k.state es (container u) ≡ s
      → (act p c es).0 ≡ ok a
      → k.state (act p c es).1 (container u) ≡ some true
  unfolding act
  act-runs p c es none a seen now h =
      let gone : c.exists ≡ false = ap (λ (d : Container). d.exists) seen in go gone h
    where
      go :
          c.exists ≡ false
          → (act p c es).0 ≡ ok a
          → k.state (act p c es).1 (container u) ≡ some true
      go gone h = simp gone ((create-Reaches p).at es a (simp gone at h))
  act-runs p c es (some false) a seen now h =
      let there : c.exists ≡ true = ap (λ (d : Container). d.exists) seen in
      let idle : c.running ≡ false = ap (λ (d : Container). d.running) seen in
      simp there ((reuse_stopped p c idle).at es a (simp there at h))
  act-runs p c es (some true) a seen now h =
      let there : c.exists ≡ true = ap (λ (d : Container). d.exists) seen in
      let busy : c.running ≡ true = ap (λ (d : Container). d.running) seen in
      simp there ((reuse_running p c busy).at es now)

  look-Reaches : (p : ℕ) → Reaches k (container u) (container_state rt (container u) >>= act p)
  unfolding container_state run ◌>>=◌
  look-Reaches p = record { at = λ es a h. go (rt es (ran (ps_args (container u)))) es a refl h }
    where
      go :
          (r : Result Text) (es : History) (a : Unit {0})
          → rt es (ran (ps_args (container u))) ≡ r
          → (continue
              (continue
                (trimmed r)
                (λ out. pure (container_answer out))
                (ran (ps_args (container u)) ∷ es)).0
              (act p)
              (continue
                (trimmed r)
                (λ out. pure (container_answer out))
                (ran (ps_args (container u)) ∷ es)).1).0
            ≡ ok a
          → k.state
              (continue
                (continue
                  (trimmed r)
                  (λ out. pure (container_answer out))
                  (ran (ps_args (container u)) ∷ es)).0
                (act p)
                (continue
                  (trimmed r)
                  (λ out. pure (container_answer out))
                  (ran (ps_args (container u)) ∷ es)).1).1
              (container u)
            ≡ some true
      go (ok out) es a q h =
          act-runs p (container_answer (trim_space out)) (ran (ps_args (container u)) ∷ es)
            (k.state es (container u)) a (k.observed es (container u) out q)
            ((ps-At rt k (container u) (k.state es (container u)) (container u)).step es refl) h
      go (err m) es a q h = cc

  bring_up-Reaches : (i : ℕ) → Reaches k (container u) (bring_up rt e i u)
  unfolding bring_up act
  bring_up-Reaches i = Reaches-later _ _ (λ a. look-Reaches (port e i u))

  pub up_one-Reaches : (i : ℕ) → u.blobcache ≡ false → Reaches k (container u) (up_one rt e i u)
  unfolding up_one
  up_one-Reaches i public = simp public (bring_up-Reaches i)
