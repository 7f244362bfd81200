-- ===== src/Release/Schedules.antt =====
-- What holds in every schedule of the warmers of `warmAll` of internal/cache/release.go.
use regcachectl.Base.{
  ◌≡◌, ◌≢◌, ◌⊎◌, inl, inr, refl, sym, ap, subst, ◌∙◌, ℕ, zero, suc, ◌+◌, ◌≤◌, ◌<◌, List, [], ◌∷◌,
  Option, none, some, arith, ◌==◌, ==_iff, length, get_elem?, set, length-set, get_elem?-set_self,
  get_elem?-set_ne, Bool-cases, true, false,
}
use regcachectl.Base.Results.{Result}
use regcachectl.Text.{Text}
use regcachectl.Release.{WarmResult}
use regcachectl.Release.Workers.{
  Pool, at_least_one, start_pool, write, take_next, finish, Run, start, next, busy, busy-set,
  length-idle_workers, busy-idle_workers, idle_workers_free,
}

-- A worker's slot behind a write to one slot.
pub set_cases {ℓ} :
    {A : Type ℓ} (xs : List A) (w v : ℕ) (x y : A)
    → get_elem? (set xs w x) v ≡ some y
    → ((w ≡ v) × (x ≡ y)) ⊎ ((w ≢ v) × (get_elem? xs v ≡ some y))
set_cases [] w v x y h = cc
set_cases (a ∷ xs) zero zero x y h = inl (refl, cc)
set_cases (a ∷ xs) zero (suc v) x y h = inr (cc, h)
set_cases (a ∷ xs) (suc w) zero x y h = inr (cc, h)
set_cases (a ∷ xs) (suc w) (suc v) x y h = deeper (set_cases xs w v x y h)
  where
    deeper :
        ((w ≡ v) × (x ≡ y)) ⊎ ((w ≢ v) × (get_elem? xs v ≡ some y))
        → ((suc w ≡ suc v) × (x ≡ y)) ⊎ ((suc w ≢ suc v) × (get_elem? xs v ≡ some y))
    deeper (inl (e, q)) = inl (ap suc e, q)
    deeper (inr (n, q)) = inr (λ e. n (omega arith), q)

module _ (Warmed : Text → Result (ℕ × ℕ) → Type 0) (refs : List Text) where
  -- the entry of a result is its image's
  abbrev pub IsResult : ℕ → WarmResult → Type 0
  IsResult i r = (get_elem? refs i ≡ some r.ref) × Warmed r.ref r.outcome

  -- what an image in hand is: it was sent, has no result yet, and no other worker has it
  pub record Held (s : Pool) (w i : ℕ) : Type 0 where
    pub sent : i < s.next
    pub open_entry : s.results i ≡ none
    pub alone : (v : ℕ) → get_elem? s.workers v ≡ some (some i) → v ≡ w

  pub record Inv (jobs n : ℕ) (s : Pool) : Type 0 where
    pub size : length s.workers ≡ at_least_one jobs
    pub within : s.next ≤ length refs
    pub counted : s.done + busy s.workers ≡ s.next
    pub steps : n ≡ s.next + s.done
    pub held : (w i : ℕ) → get_elem? s.workers w ≡ some (some i) → Held s w i
    pub kept :
        (i : ℕ)
        → i < s.next
        → ((w : ℕ) × (get_elem? s.workers w ≡ some (some i)))
          ⊎ ((r : WarmResult) × (s.results i ≡ some r) × IsResult i r)
    pub unsent : (i : ℕ) → s.next ≤ i → s.results i ≡ none

  start-Inv : (jobs : ℕ) → Inv jobs 0 (start_pool jobs)
  unfolding start_pool
  start-Inv jobs = record {
    size = length-idle_workers _;
    within = omega arith;
    counted = omega (arith, busy-idle_workers (at_least_one jobs));
    steps = omega arith;
    held = λ w i h. absurd (idle_workers_free _ w i h);
    kept = λ i h. absurd (omega arith);
    unsent = λ i h. refl;
  }

  module _ {jobs n : ℕ} {s : Pool} (inv : Inv jobs n s) where
    take_next-Inv :
        (w : ℕ)
        → get_elem? s.workers w ≡ some none
        → s.next < length refs
        → Inv jobs (suc n) (record s { next = s.next + 1; workers = set s.workers w (some s.next) })
    take_next-Inv w free more = record {
      size = length-set s.workers w (some s.next) ∙ inv.size;
      within = omega arith;
      counted = omega (arith, inv.counted, busy-set s.workers w (some s.next) free);
      steps = omega (arith, inv.steps);
      held = λ v i h. taken v i (set_cases s.workers w v (some s.next) (some i) h);
      kept = λ i h. elim (Bool-cases (i == s.next)) [
        | inl last ↦
            let e : s.next ≡ i = sym ((==_iff i s.next).0 last) in
            inl (
              w,
              get_elem?-set_self s.workers w (some s.next) free ∙ ap (λ (k : ℕ). some (some k)) e,
            )
        | inr earlier ↦ before i (inv.kept i (ground arith))
      ];
      unsent = λ i h. inv.unsent i (omega arith);
    }
      where
        fresh :
            (u v i : ℕ)
            → w ≡ v
            → s.next ≡ i
            → ((w ≡ u) × (◌≡◌ {A = Option ℕ} (some s.next) (some i)))
              ⊎ ((w ≢ u) × (get_elem? s.workers u ≡ some (some i)))
            → u ≡ v
        fresh u v i here e (inl (q, same)) = sym q ∙ here
        fresh u v i here e (inr (other, old)) = absurd (omega (arith, (inv.held u i old).sent))

        older :
            (u v i : ℕ)
            → Held s v i
            → ((w ≡ u) × (◌≡◌ {A = Option ℕ} (some s.next) (some i)))
              ⊎ ((w ≢ u) × (get_elem? s.workers u ≡ some (some i)))
            → u ≡ v
        older u v i h0 (inl (q, same)) = let e : s.next ≡ i = cc in absurd (omega (arith, h0.sent))
        older u v i h0 (inr (other, old)) = h0.alone u old

        taken :
            (v i : ℕ)
            → ((w ≡ v) × (◌≡◌ {A = Option ℕ} (some s.next) (some i)))
              ⊎ ((w ≢ v) × (get_elem? s.workers v ≡ some (some i)))
            → Held (record s { next = s.next + 1; workers = set s.workers w (some s.next) }) v i
        taken v i (inl (here, same)) =
            let e : s.next ≡ i = cc in
            record {
              sent = omega arith;
              open_entry = inv.unsent i (omega arith);
              alone = λ u h. fresh u v i here e (set_cases s.workers w u (some s.next) (some i) h);
            }
        taken v i (inr (there, old)) =
            let h0 = inv.held v i old in
            record {
              sent = omega (arith, h0.sent);
              open_entry = h0.open_entry;
              alone = λ u h. older u v i h0 (set_cases s.workers w u (some s.next) (some i) h);
            }

        before :
            (i : ℕ)
            → ((v : ℕ) × (get_elem? s.workers v ≡ some (some i)))
              ⊎ ((r : WarmResult) × (s.results i ≡ some r) × IsResult i r)
            → ((v : ℕ) × (get_elem? (set s.workers w (some s.next)) v ≡ some (some i)))
              ⊎ ((r : WarmResult) × (s.results i ≡ some r) × IsResult i r)
        before i (inr result) = inr result
        before i (inl (v, h)) = inl (v, get_elem?-set_ne s.workers w v (some s.next) (λ e. cc) ∙ h)

    finish-Inv :
        (w i : ℕ) (r : WarmResult)
        → get_elem? s.workers w ≡ some (some i)
        → IsResult i r
        → Inv jobs (suc n) (record s {
          workers = set s.workers w none;
          results = write s.results i r;
          done = s.done + 1;
        })
    finish-Inv w i r mine good = record {
      size = length-set s.workers w none ∙ inv.size;
      within = inv.within;
      counted = omega (arith, inv.counted, busy-set s.workers w none mine);
      steps = omega (arith, inv.steps);
      held = λ v j h. others v j (set_cases s.workers w v none (some j) h);
      kept = λ j h. done_or_held j (Bool-cases (i == j)) (inv.kept j h);
      unsent = λ j h. ground (arith, (inv.held w i mine).sent, inv.unsent j h);
    }
      where
        others :
            (v j : ℕ)
            → ((w ≡ v) × (◌≡◌ {A = Option ℕ} none (some j)))
              ⊎ ((w ≢ v) × (get_elem? s.workers v ≡ some (some j)))
            → Held
                (record s {
                  workers = set s.workers w none;
                  results = write s.results i r;
                  done = s.done + 1;
                })
                v
                j
        others v j (inl (here, absent)) = cc
        others v j (inr (there, old)) =
            let h0 = inv.held v j old in
            let apart : i ≢ j = λ e.
              there
                (sym ((inv.held w i mine).alone v (old ∙ ap (λ (k : ℕ). some (some k)) (sym e)))) in
            record {
              sent = h0.sent;
              open_entry = ground (arith, h0.open_entry);
              alone = λ u h. still u v j h0 (set_cases s.workers w u none (some j) h);
            }
          where
            still :
                (u v j : ℕ)
                → Held s v j
                → ((w ≡ u) × (◌≡◌ {A = Option ℕ} none (some j)))
                  ⊎ ((w ≢ u) × (get_elem? s.workers u ≡ some (some j)))
                → u ≡ v
            still u v j h0 (inl (q, absent)) = cc
            still u v j h0 (inr (other, old)) = h0.alone u old

        done_or_held :
            (j : ℕ)
            → ((i == j) ≡ true) ⊎ ((i == j) ≡ false)
            → ((v : ℕ) × (get_elem? s.workers v ≡ some (some j)))
              ⊎ ((q : WarmResult) × (s.results j ≡ some q) × IsResult j q)
            → ((v : ℕ) × (get_elem? (set s.workers w none) v ≡ some (some j)))
              ⊎ ((q : WarmResult) × (write s.results i r j ≡ some q) × IsResult j q)
        done_or_held j (inl this) k =
            inr (r, rw this refl, subst (λ (k : ℕ). IsResult k r) ((==_iff i j).0 this) good)
        done_or_held j (inr other) (inr (q, found, is)) = inr (q, rw other found, is)
        done_or_held j (inr other) (inl (v, h)) =
            inl (v, get_elem?-set_ne s.workers w v none (λ e. ground arith) ∙ h)

  pub Run-Inv : {jobs n : ℕ} {s : Pool} → Run Warmed refs jobs n s → Inv jobs n s
  Run-Inv {jobs} start = start-Inv jobs
  Run-Inv (next run (take_next w free more)) = take_next-Inv (Run-Inv run) w free more
  Run-Inv (next run (finish w i r mine named warmed)) =
      finish-Inv (Run-Inv run) w i r mine (named, warmed)
