-- ===== src/Fleet/Restart.antt =====
-- `gcOne` of internal/cache/cache.go starts again each cache that it stopped.
use regcachectl.Base.{◌≡◌, ◌⊎◌, inl, inr, refl, Bool, ◌∷◌}
use regcachectl.Base.Results.{Result, ok, err}
use regcachectl.Text.{Text, trim_space}
use regcachectl.Upstream.{Upstream}
use regcachectl.Engine.{container}
use regcachectl.Io.{
  ran, ran_detached, History, Runtime, continue, ◌>>=◌, run, run_detached, trimmed,
}
use regcachectl.Fleet.Commands.{stop_args, start_args, gc_args, image_of_args}
use regcachectl.Fleet.Query.{container_image}
use regcachectl.Fleet.Gc.{collected, collect, gc_one}

-- What a cache is left with: the newest event on the history starts its container again, at an
-- instant when an interrupt does not stop the command.
pub record EndsStarted (u : Upstream) (es : History) : Type 0 where
  pub before : History
  pub ends : es ≡ ran_detached (start_args (container u)) ∷ before

-- The command that stops the container of `u` failed, and was the last.
pub record StopFailed (rt : Runtime) (u : Upstream) (es : History) : Type 0 where
  pub before : History
  pub reason : Text
  pub ends : es ≡ ran (stop_args (container u)) ∷ before
  pub failed : rt before (ran (stop_args (container u))) ≡ err reason

module _ (rt : Runtime) (u : Upstream) (delete_untagged : Bool) where
  collect-EndsStarted :
      (image : Text) (es : History) → EndsStarted u (collect rt u image delete_untagged es).1
  unfolding collect ◌>>=◌ run_detached
  collect-EndsStarted image es =
      let asked = run rt (gc_args u image delete_untagged) es in
      record { before = (collected rt u asked.0 asked.1).1; ends = refl }

  -- On every path of `gcOne` the container was not stopped (its image could not be read, or the
  -- stop failed, and nothing more was done), or starting it is the last thing that is done.
  pub gc_one-EndsStarted :
      (es : History)
      → EndsStarted u (gc_one rt u delete_untagged es).1
        ⊎ StopFailed rt u (gc_one rt u delete_untagged es).1
        ⊎ ((gc_one rt u delete_untagged es).1 ≡ ran (image_of_args (container u)) ∷ es)
  unfolding gc_one container_image run ◌>>=◌
  gc_one-EndsStarted es = image_read (rt es (ran (image_of_args (container u)))) refl
    where
      hist : History
      hist = ran (image_of_args (container u)) ∷ es

      after : Result Text → History
      after r =
          (continue (trimmed r)
            (λ image.
              run rt (stop_args (container u)) >>= λ stopped. collect rt u image delete_untagged)
            hist).1

      stop_done :
          (image : Text) (r : Result Text)
          → rt hist (ran (stop_args (container u))) ≡ r
          → EndsStarted u
              (continue
                (trimmed r)
                (λ stopped. collect rt u image delete_untagged)
                (ran (stop_args (container u)) ∷ hist)).1
            ⊎ StopFailed rt u
                (continue
                  (trimmed r)
                  (λ stopped. collect rt u image delete_untagged)
                  (ran (stop_args (container u)) ∷ hist)).1
      stop_done image (ok out) q =
          inl (collect-EndsStarted image (ran (stop_args (container u)) ∷ hist))
      stop_done image (err e) q =
          inr (record { before = hist; reason = e; ends = refl; failed = q })

      image_read :
          (r : Result Text)
          → rt es (ran (image_of_args (container u))) ≡ r
          → EndsStarted u (after r) ⊎ StopFailed rt u (after r) ⊎ (after r ≡ hist)
      image_read (ok image) q =
          elim (stop_done (trim_space image) (rt hist (ran (stop_args (container u)))) refl) [
            | inl done ↦ inl done
            | inr failed ↦ inr (inl failed)
          ]
      image_read (err e) q = inr (inr refl)
