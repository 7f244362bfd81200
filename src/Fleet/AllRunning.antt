-- ===== src/Fleet/AllRunning.antt =====
-- `Up` of internal/cache/cache.go: the loop over all caches.
use regcachectl.Base.{◌≡◌, refl, ℕ, true, false, List, [], ◌∷◌, some, All}
use regcachectl.Base.Results.{Result, ok, err}
use regcachectl.Text.{eq}
use regcachectl.Upstream.{Upstream, indexed}
use regcachectl.Engine.{Engine, container}
use regcachectl.Io.{History, Runtime, ◌>>=◌, continue}
use regcachectl.Fleet.Up.{up_one, up_loop, up}
use regcachectl.Fleet.Docker.{Docker}
use regcachectl.Fleet.Running.{up_loop-At}
use regcachectl.Fleet.Result.{up_one-Reaches}

-- No two upstreams of the table share a container.
abbrev Apart : List (ℕ × Upstream) → Type 0
Apart [] = Unit
Apart ((i, u) ∷ us) = All (λ v. eq (container v.1) (container u) ≡ false) us × Apart us

indexed-Apart : Apart indexed
unfolding indexed container eq
indexed-Apart = (
  (refl, (refl, (refl, (refl, tt)))),
  ((refl, (refl, (refl, tt))), ((refl, (refl, tt)), ((refl, tt), (tt, tt)))),
)

module _ (rt : Runtime) (k : Docker rt) (e : Engine) where
  -- The public caches of `us` run behind `es`.
  abbrev pub Running : History → List (ℕ × Upstream) → Type 0
  Running es = All (λ v. v.1.blobcache ≡ false → k.state es (container v.1) ≡ some true)

  up_loop-Running :
      (us : List (ℕ × Upstream)) (es : History) (a : Unit {0})
      → Apart us
      → (up_loop rt e us es).0 ≡ ok a
      → Running (up_loop rt e us es).1 us
  unfolding up_loop ◌>>=◌
  up_loop-Running [] es a h ran_well = tt
  up_loop-Running ((i, u) ∷ us) es a (hu, hs) ran_well =
      go (up_one rt e i u es).0 (up_one rt e i u es).1
        (λ public b done. (up_one-Reaches rt k e u i public).at es b done) ran_well
        (λ es' well. up_loop-Running us es' a hs well)
    where
      go :
          (r : Result (Unit {0})) (es' : History)
          → (u.blobcache ≡ false
              → (b : Unit {0}) → r ≡ ok b
              → k.state es' (container u) ≡ some true)
          → (continue r (λ _. up_loop rt e us) es').0 ≡ ok a
          → ((es'' : History)
              → (up_loop rt e us es'').0 ≡ ok a
              → Running (up_loop rt e us es'').1 us)
          → Running (continue r (λ _. up_loop rt e us) es').1 ((i, u) ∷ us)
      go (ok b) es' first well rest = (
        λ public. (up_loop-At rt k (container u) (some true) e us hu).at es' (first public b refl),
        rest es' well,
      )
      go (err m) es' first well rest = cc

  -- If `Up` succeeds then every public cache runs, whatever state the containers were in before.
  -- The runtime is one that reports, starts and creates containers as docker does.
  pub up-Running :
      (es : History) (a : Unit {0}) → (up rt e es).0 ≡ ok a → Running (up rt e es).1 indexed
  unfolding up
  up-Running es a = up_loop-Running indexed es a indexed-Apart
