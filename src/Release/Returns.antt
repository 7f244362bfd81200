-- ===== src/Release/Returns.antt =====
-- That `warmAll` of internal/cache/release.go returns, and what it returns then.
use regcachectl.Base.{
  ◌≡◌, ◌≢◌, ◌⊎◌, inl, inr, ℕ, ◌*◌, ◌≤◌, ◌<◌, ltb, List, some, arith, length, get_elem?,
  get_elem?-lt, Bool-cases,
}
use regcachectl.Base.Results.{Result}
use regcachectl.Text.{Text}
use regcachectl.Release.{WarmResult}
use regcachectl.Release.Workers.{
  Pool, at_least_one, Step, take_next, finish, Run, IsFinal, busy-cases, busy-free, free_slot,
}
use regcachectl.Release.Schedules.{IsResult, Run-Inv}

at_least_one-positive : (jobs : ℕ) → 1 ≤ at_least_one jobs
at_least_one-positive jobs = ground arith

more_or_all : {i n : ℕ} → i ≤ n → (i < n) ⊎ (i ≡ n)
more_or_all {i} {n} h = elim (Bool-cases (ltb i n)) [
  | inl less ↦ inl (ground arith)
  | inr more ↦ inr (ground arith)
]

module _ {Warmed : Text → Result (ℕ × ℕ) → Type 0} {refs : List Text} {jobs n : ℕ} {s : Pool} where
  -- In no schedule do two workers have the same image in hand.
  pub Run-exclusive :
      (v w i : ℕ)
      → Run Warmed refs jobs n s
      → get_elem? s.workers v ≡ some (some i)
      → get_elem? s.workers w ≡ some (some i)
      → v ≡ w
  Run-exclusive v w i run hv hw = let inv = Run-Inv Warmed refs run in (inv.held w i hw).alone v hv

  -- When `wg.Wait` returns, whichever worker took which image and in whichever order they finished, each
  -- reference has had one take and one finish, and the entry of each of its positions holds a result
  -- that carries the reference of that position and an outcome that warming it may have.
  pub Run-returns :
      Run Warmed refs jobs n s
      → IsFinal Warmed refs s
      → (n ≡ 2 * length refs)
        × ((i : ℕ)
            → i < length refs
            → (r : WarmResult) × (s.results i ≡ some r) × IsResult Warmed refs i r)
  Run-returns run fin =
      let inv = Run-Inv Warmed refs run in
      (
        omega (arith, inv.steps, inv.counted, fin.sent, busy-free s.workers fin.idle),
        λ i h. stored i (inv.kept i (omega (arith, fin.sent))),
      )
    where
      stored :
          (i : ℕ)
          → ((w : ℕ) × (get_elem? s.workers w ≡ some (some i)))
            ⊎ ((r : WarmResult) × (s.results i ≡ some r) × IsResult Warmed refs i r)
          → (r : WarmResult) × (s.results i ≡ some r) × IsResult Warmed refs i r
      stored i (inl (w, h)) = absurd (fin.idle w i h)
      stored i (inr found) = found

  -- Where each image's warming has some outcome, no schedule of the workers gets stuck or runs on: it
  -- has at most two steps for each reference, and while `wg.Wait` does not return some worker has a step
  -- to take, also where `jobs` is zero.
  pub Run-progress :
      ((ref : Text) → (o : Result (ℕ × ℕ)) × Warmed ref o)
      → Run Warmed refs jobs n s
      → (n ≤ 2 * length refs) × (IsFinal Warmed refs s ⊎ ((t : Pool) × Step Warmed refs s t))
  Run-progress some_outcome run =
      let inv = Run-Inv Warmed refs run in
      (omega (arith, inv.steps, inv.counted, inv.within), move (busy-cases s.workers))
    where
      end :
          (free : (w i : ℕ) → get_elem? s.workers w ≢ some (some i))
          → (s.next < length refs) ⊎ (s.next ≡ length refs)
          → IsFinal Warmed refs s ⊎ ((t : Pool) × Step Warmed refs s t)
      end free (inl more) = inr (
        _,
        take_next 0
            (free_slot s.workers
              (omega (arith, (Run-Inv Warmed refs run).size, at_least_one-positive jobs)) free)
            more,
      )
      end free (inr all) = inl (record { sent = all; idle = free })

      named :
          (w i : ℕ)
          → get_elem? s.workers w ≡ some (some i)
          → (ref : Text) × (get_elem? refs i ≡ some ref)
          → (t : Pool) × Step Warmed refs s t
      named w i h (ref, e) =
          let (o, warmed) = some_outcome ref in
          (_, finish w i (record { ref = ref; outcome = o }) h e warmed)

      move :
          ((w : ℕ) × (i : ℕ) × (get_elem? s.workers w ≡ some (some i)))
            ⊎ ((w i : ℕ) → get_elem? s.workers w ≢ some (some i))
          → IsFinal Warmed refs s ⊎ ((t : Pool) × Step Warmed refs s t)
      move (inl (w, i, h)) =
          let inv = Run-Inv Warmed refs run in
          let sent = (inv.held w i h).sent in
          inr (named w i h (get_elem?-lt refs i (omega (arith, sent, inv.within))))
      move (inr free) = end free (more_or_all (Run-Inv Warmed refs run).within)
