-- ===== src/Release/Workers.antt =====
-- The goroutines of `warmAll` of internal/cache/release.go as a step relation: an idle worker receives
-- the next index from the channel, and a worker that has an image in hand stores its result. In which
-- order these happen is open.
use regcachectl.Base.{
  ◌≡◌, ◌≢◌, ◌⊎◌, inl, inr, refl, ap, ℕ, zero, suc, ◌+◌, ◌≤◌, ◌<◌, ltb, List, [], ◌∷◌, Option, none,
  some, arith, if◌then◌else◌, ◌==◌, length, get_elem?, set,
}
use regcachectl.Base.Results.{Result}
use regcachectl.Text.{Text}
use regcachectl.Release.{WarmResult}

-- `next` is the index that the main goroutine sends next; a worker waits at the channel, or has the
-- image of an index in hand; `results` are the entries of the slice that were written.
pub record Pool : Type 0 where
  pub next : ℕ
  pub workers : List (Option ℕ)
  pub results : ℕ → Option WarmResult
  pub done : ℕ

unfoldable pub idle_workers : ℕ → List (Option ℕ)
idle_workers zero = []
idle_workers (suc n) = none ∷ idle_workers n

-- `if jobs < 1 { jobs = 1 }`
abbrev pub at_least_one : ℕ → ℕ
at_least_one jobs = if ltb jobs 1 then 1 else jobs

unfoldable pub start_pool : ℕ → Pool
start_pool jobs = record {
  next = 0;
  workers = idle_workers (at_least_one jobs);
  results = λ i. none;
  done = 0;
}

abbrev pub write : (ℕ → Option WarmResult) → ℕ → WarmResult → ℕ → Option WarmResult
write results i r j = if i == j then some r else results j

-- `Warmed ref outcome` says that `warmRef` may come to that outcome.
module _ (Warmed : Text → Result (ℕ × ℕ) → Type 0) (refs : List Text) where
  pub data Step (s : Pool) : Pool → Type 0 where
    take_next :
        (w : ℕ)
        → get_elem? s.workers w ≡ some none
        → s.next < length refs
        → Step s (record s { next = s.next + 1; workers = set s.workers w (some s.next) })
    finish :
        (w i : ℕ) (r : WarmResult)
        → get_elem? s.workers w ≡ some (some i)
        → get_elem? refs i ≡ some r.ref
        → Warmed r.ref r.outcome
        → Step s (record s {
          workers = set s.workers w none;
          results = write s.results i r;
          done = s.done + 1;
        })

  -- the runs, with their number of steps
  pub data Run (jobs : ℕ) : ℕ → Pool → Type 0 where
    start : Run jobs 0 (start_pool jobs)
    next : {n : ℕ} {s t : Pool} → Run jobs n s → Step s t → Run jobs (suc n) t

  -- `wg.Wait` returns: all indices were sent, and no worker has one in hand.
  pub record IsFinal (s : Pool) : Type 0 where
    pub sent : s.next ≡ length refs
    pub idle : (w i : ℕ) → get_elem? s.workers w ≢ some (some i)

-- how many workers have an image in hand
abbrev pub weight : Option ℕ → ℕ
weight none = 0
weight (some i) = 1

pub busy : List (Option ℕ) → ℕ
busy [] = 0
busy (x ∷ xs) = weight x + busy xs

pub busy-set :
    (xs : List (Option ℕ)) (w : ℕ) (v : Option ℕ) {a : Option ℕ}
    → get_elem? xs w ≡ some a
    → busy (set xs w v) + weight a ≡ busy xs + weight v
unfolding busy
busy-set [] w v h = cc
busy-set (x ∷ xs) zero v {a} h = let e : x ≡ a = cc in omega (arith, ap weight e)
busy-set (x ∷ xs) (suc w) v h = omega (arith, busy-set xs w v h)

pub length-idle_workers : (n : ℕ) → length (idle_workers n) ≡ n
unfolding idle_workers
length-idle_workers zero = refl
length-idle_workers (suc n) = ap suc (length-idle_workers n)

pub busy-idle_workers : (n : ℕ) → busy (idle_workers n) ≡ 0
unfolding idle_workers busy
busy-idle_workers zero = refl
busy-idle_workers (suc n) = omega (arith, busy-idle_workers n)

pub idle_workers_free : (n w i : ℕ) → get_elem? (idle_workers n) w ≢ some (some i)
unfolding idle_workers
idle_workers_free zero w i h = cc
idle_workers_free (suc n) zero i h = cc
idle_workers_free (suc n) (suc w) i h = idle_workers_free n w i h

-- Some worker has an image in hand, or none has.
pub busy-cases :
    (xs : List (Option ℕ))
    → ((w : ℕ) × (i : ℕ) × (get_elem? xs w ≡ some (some i)))
      ⊎ ((w i : ℕ) → get_elem? xs w ≢ some (some i))
busy-cases [] = inr (λ w i h. cc)
busy-cases (some i ∷ xs) = inl (0, i, refl)
busy-cases (none ∷ xs) = shift (busy-cases xs)
  where
    shift :
        ((w : ℕ) × (i : ℕ) × (get_elem? xs w ≡ some (some i)))
          ⊎ ((w i : ℕ) → get_elem? xs w ≢ some (some i))
        → ((w : ℕ) × (i : ℕ) × (get_elem? (none ∷ xs) w ≡ some (some i)))
          ⊎ ((w i : ℕ) → get_elem? (none ∷ xs) w ≢ some (some i))
    shift (inl (w, i, h)) = inl (suc w, i, h)
    shift (inr free) = inr λ w i h. still w i h free
      where
        still :
            (w i : ℕ)
            → get_elem? (none ∷ xs) w ≡ some (some i)
            → ((w i : ℕ) → get_elem? xs w ≢ some (some i))
            → ⊥
        still zero i h free = cc
        still (suc w) i h free = free w i h

pub busy-free : (xs : List (Option ℕ)) → ((w i : ℕ) → get_elem? xs w ≢ some (some i)) → busy xs ≡ 0
unfolding busy
busy-free [] free = refl
busy-free (none ∷ xs) free = omega (arith, busy-free xs (λ w. free (suc w)))
busy-free (some i ∷ xs) free = absurd (free zero i refl)

-- A free slot of a pool that is not empty.
pub free_slot :
    (xs : List (Option ℕ))
    → 1 ≤ length xs
    → ((w i : ℕ) → get_elem? xs w ≢ some (some i))
    → get_elem? xs 0 ≡ some none
free_slot [] h free = absurd (omega (arith, h))
free_slot (none ∷ xs) h free = refl
free_slot (some i ∷ xs) h free = absurd (free zero i refl)
