-- ===== src/Fleet/Running.antt =====
-- After a successful `Up` of internal/cache/cache.go every cache of a public registry runs.
use regcachectl.Base.{◌≡◌, refl, ◌∙◌, ℕ, Bool, true, false, List, [], ◌∷◌, Option, some, All}
use regcachectl.Base.Results.{Result, ok, err}
use regcachectl.Text.{Text, eq}
use regcachectl.Upstream.{Upstream}
use regcachectl.Engine.{Engine, container}
use regcachectl.Io.{Event, ran, logged, History, Io, Runtime, ◌>>=◌, continue}
use regcachectl.Io.Keeps.{Keeps, IsStable, keeps_rules}
use regcachectl.Fleet.Commands.{
  ps_args, images_args, volume_ls_args, volume_create_args, start_args, image_of_args, run_args,
}
use regcachectl.Fleet.Query.{
  Container, container_state, image_exists, container_image, ensure_volume, note_image_drift,
}
use regcachectl.Fleet.Up.{reuse, create, bring_up, up_one, up_loop}
use regcachectl.Fleet.Docker.{Docker, changed_by}

module _ (rt : Runtime) (k : Docker rt) (n : Text) (x : Option Bool) where
  -- the container `n` is in the state `x`
  abbrev pub At : History → Type 0
  At es = k.state es n ≡ x

  settled-IsStable : (ev : Event) → changed_by n ev ≡ false → IsStable At ev
  settled-IsStable ev h = record { step = λ es p. k.settled es n ev h ∙ p }

  pub logged-At : (line : Text) → IsStable At (logged line)
  logged-At line = settled-IsStable (logged line) (unfold changed_by in refl)

  pub ps-At : (m : Text) → IsStable At (ran (ps_args m))
  ps-At m = settled-IsStable (ran (ps_args m)) (unfold changed_by ps_args eq in refl)

  pub images-At : (m : Text) → IsStable At (ran (images_args m))
  images-At m = settled-IsStable (ran (images_args m)) (unfold changed_by images_args eq in refl)

  pub volume_ls-At : (m : Text) → IsStable At (ran (volume_ls_args m))
  volume_ls-At m =
      settled-IsStable (ran (volume_ls_args m)) (unfold changed_by volume_ls_args eq in refl)

  pub volume_create-At : (m : Text) → IsStable At (ran (volume_create_args m))
  volume_create-At m =
      settled-IsStable (ran (volume_create_args m))
        (unfold changed_by volume_create_args eq in refl)

  pub image_of-At : (m : Text) → IsStable At (ran (image_of_args m))
  image_of-At m =
      settled-IsStable (ran (image_of_args m)) (unfold changed_by image_of_args eq in refl)

  pub start-At : (m : Text) → eq m n ≡ false → IsStable At (ran (start_args m))
  start-At m h = settled-IsStable (ran (start_args m)) (unfold changed_by start_args eq in h)

  pub run-At :
      (e : Engine) (u : Upstream) (p : ℕ)
      → eq (container u) n ≡ false
      → IsStable At (ran (run_args e u p))
  run-At e u p h = settled-IsStable (ran (run_args e u p)) (unfold changed_by run_args eq in h)

  pub ensure_volume-At : (m : Text) → Keeps At (ensure_volume rt m)
  unfolding ensure_volume
  ensure_volume-At m = search (keeps_rules, volume_ls-At, volume_create-At)

  pub container_state-At : (m : Text) → Keeps At (container_state rt m)
  unfolding container_state
  container_state-At m = search (keeps_rules, ps-At)

  pub image_exists-At : (m : Text) → Keeps At (image_exists rt m)
  unfolding image_exists
  image_exists-At m = search (keeps_rules, images-At)

  pub note_image_drift-At : (e : Engine) (u : Upstream) → Keeps At (note_image_drift rt e u)
  unfolding note_image_drift container_image
  note_image_drift-At e u = search (keeps_rules, image_of-At, logged-At)

  module _ (e : Engine) (u : Upstream) (other : eq (container u) n ≡ false) where
    pub reuse-At : (p : ℕ) (c : Container) → Keeps At (reuse rt e u p c)
    unfolding reuse
    reuse-At p c =
        search (keeps_rules, start-At (container u) other, logged-At, note_image_drift-At)

    pub create-At : (p : ℕ) → Keeps At (create rt e u p)
    unfolding create
    create-At p = search (keeps_rules, run-At e u p other, logged-At)

    pub bring_up-At : (i : ℕ) → Keeps At (bring_up rt e i u)
    unfolding bring_up
    bring_up-At i = search (keeps_rules, ensure_volume-At, container_state-At, reuse-At, create-At)

    pub up_one-At : (i : ℕ) → Keeps At (up_one rt e i u)
    unfolding up_one
    up_one-At i = search (keeps_rules, image_exists-At, bring_up-At, logged-At)

  -- `up_loop` leaves a container alone that is none of its upstreams'.
  pub up_loop-At :
      (e : Engine) (us : List (ℕ × Upstream))
      → All (λ v. eq (container v.1) n ≡ false) us
      → Keeps At (up_loop rt e us)
  unfolding up_loop
  up_loop-At e [] h = search keeps_rules
  up_loop-At e ((i, u) ∷ us) (hu, hs) = search (keeps_rules, up_one-At e u hu i, up_loop-At e us hs)

-- Where `m` succeeds, `n` runs.
pub record Reaches {ℓ} {A : Type ℓ} {rt : Runtime} (k : Docker rt) (n : Text) (m : Io A)
    : Type ℓ where
  pub at : (es : History) (a : A) → (m es).0 ≡ ok a → k.state (m es).1 n ≡ some true

module _ {rt : Runtime} {k : Docker rt} {n : Text} where
  pub Reaches-later :
      {A B : Type 0} (m : Io A) (f : A → Io B)
      → ((a : A) → Reaches k n (f a))
      → Reaches k n (m >>= f)
  unfolding ◌>>=◌
  Reaches-later {A} {B} m f kf = record { at = λ es b h. go (m es).0 (m es).1 b h }
    where
      go :
          (r : Result A) (es : History) (b : B)
          → (continue r f es).0 ≡ ok b
          → k.state (continue r f es).1 n ≡ some true
      go (ok a) es b h = (kf a).at es b h
      go (err e) es b h = cc

  pub Reaches-kept :
      {A B : Type 0} (m : Io A) (f : A → Io B)
      → Reaches k n m
      → ((a : A) → Keeps (At rt k n (some true)) (f a))
      → Reaches k n (m >>= f)
  unfolding ◌>>=◌
  Reaches-kept {A} {B} m f km kf = record { at = λ es b h. go (m es).0 (m es).1 b (km.at es) h }
    where
      go :
          (r : Result A) (es : History) (b : B)
          → ((a : A) → r ≡ ok a → k.state es n ≡ some true)
          → (continue r f es).0 ≡ ok b
          → k.state (continue r f es).1 n ≡ some true
      go (ok a) es b run h = (kf a).at es (run a refl)
      go (err e) es b run h = cc
