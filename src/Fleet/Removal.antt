-- ===== src/Fleet/Removal.antt =====
-- Which commands of internal/cache/cache.go can lose a container or cached data, and that `Up` and a
-- plain `Down` issue none of them.
use regcachectl.Base.{◌≡◌, refl, ℕ, Bool, false, ◌&&◌, ◌||◌, List, [], ◌∷◌, All}
use regcachectl.Text.{Text, codes, eq}
use regcachectl.Upstream.{Upstream, indexed, upstreams}
use regcachectl.Engine.{Engine}
use regcachectl.Io.{Event, ran, ran_detached, logged, History, Runtime}
use regcachectl.Io.Keeps.{Keeps, IsStable, All-IsStable, keeps_rules}
use regcachectl.Fleet.Commands.{
  ps_args, images_args, volume_ls_args, volume_create_args, start_args, rm_args, image_of_args,
  run_args,
}
use regcachectl.Fleet.Query.{
  Container, container_state, image_exists, container_image, ensure_volume, note_image_drift,
}
use regcachectl.Fleet.Up.{reuse, create, bring_up, up_one, up_loop, up}
use regcachectl.Fleet.Down.{down_one, down_loop, down}

-- `volume rm`
deletes_volume : List Text → Bool
deletes_volume (v ∷ w ∷ args) = eq v (codes "volume") && eq w (codes "rm")
deletes_volume _ = false

-- `rm` and `stop`
ends_container : List Text → Bool
ends_container (w ∷ args) = eq w (codes "rm") || eq w (codes "stop")
ends_container [] = false

pub deletes_data : Event → Bool
unfolding deletes_volume
deletes_data (ran args) = deletes_volume args
deletes_data (ran_detached args) = deletes_volume args
deletes_data (logged line) = false

pub ends : Event → Bool
unfolding ends_container
ends (ran args) = ends_container args
ends (ran_detached args) = ends_container args
ends (logged line) = false

-- An event by which nothing is lost.
abbrev pub IsHarmless : Event → Type 0
IsHarmless ev = (deletes_data ev ≡ false) × (ends ev ≡ false)

abbrev Harmless : History → Type 0
Harmless = All IsHarmless

-- What outlasts the events by which a cache is brought up, and the questions to the runtime.
pub record Outlasts (Q : History → Type 0) : Type 0 where
  pub line : (l : Text) → IsStable Q (logged l)
  pub ps : (n : Text) → IsStable Q (ran (ps_args n))
  pub images : (n : Text) → IsStable Q (ran (images_args n))
  pub volume_ls : (n : Text) → IsStable Q (ran (volume_ls_args n))
  pub volume_create : (n : Text) → IsStable Q (ran (volume_create_args n))
  pub starting : (n : Text) → IsStable Q (ran (start_args n))
  pub image_of : (n : Text) → IsStable Q (ran (image_of_args n))
  pub running : (e : Engine) (u : Upstream) (p : ℕ) → IsStable Q (ran (run_args e u p))

Harmless-Outlasts : Outlasts Harmless
unfolding deletes_data ends ps_args images_args volume_ls_args volume_create_args start_args
    image_of_args run_args eq
Harmless-Outlasts = record {
  line = λ l. All-IsStable (logged l) (refl, refl);
  ps = λ n. All-IsStable (ran (ps_args n)) (refl, refl);
  images = λ n. All-IsStable (ran (images_args n)) (refl, refl);
  volume_ls = λ n. All-IsStable (ran (volume_ls_args n)) (refl, refl);
  volume_create = λ n. All-IsStable (ran (volume_create_args n)) (refl, refl);
  starting = λ n. All-IsStable (ran (start_args n)) (refl, refl);
  image_of = λ n. All-IsStable (ran (image_of_args n)) (refl, refl);
  running = λ e u p. All-IsStable (ran (run_args e u p)) (refl, refl);
}

module _ {Q : History → Type 0} (o : Outlasts Q) (rt : Runtime) where
  pub container_state-Keeps : (n : Text) → Keeps Q (container_state rt n)
  unfolding container_state
  container_state-Keeps n = search (keeps_rules, o.ps)

  pub image_exists-Keeps : (n : Text) → Keeps Q (image_exists rt n)
  unfolding image_exists
  image_exists-Keeps n = search (keeps_rules, o.images)

  pub ensure_volume-Keeps : (n : Text) → Keeps Q (ensure_volume rt n)
  unfolding ensure_volume
  ensure_volume-Keeps n = search (keeps_rules, o.volume_ls, o.volume_create)

  note_image_drift-Keeps : (e : Engine) (u : Upstream) → Keeps Q (note_image_drift rt e u)
  unfolding note_image_drift container_image
  note_image_drift-Keeps e u = search (keeps_rules, o.image_of, o.line)

  reuse-Keeps : (e : Engine) (u : Upstream) (p : ℕ) (c : Container) → Keeps Q (reuse rt e u p c)
  unfolding reuse
  reuse-Keeps e u p c = search (keeps_rules, o.line, o.starting, note_image_drift-Keeps)

  create-Keeps : (e : Engine) (u : Upstream) (p : ℕ) → Keeps Q (create rt e u p)
  unfolding create
  create-Keeps e u p = search (keeps_rules, o.line, o.running)

  bring_up-Keeps : (e : Engine) (i : ℕ) (u : Upstream) → Keeps Q (bring_up rt e i u)
  unfolding bring_up
  bring_up-Keeps e i u =
      search (keeps_rules, ensure_volume-Keeps, container_state-Keeps, reuse-Keeps, create-Keeps)

  up_one-Keeps : (e : Engine) (i : ℕ) (u : Upstream) → Keeps Q (up_one rt e i u)
  unfolding up_one
  up_one-Keeps e i u = search (keeps_rules, o.line, image_exists-Keeps, bring_up-Keeps)

  pub up_loop-Keeps : (e : Engine) (us : List (ℕ × Upstream)) → Keeps Q (up_loop rt e us)
  unfolding up_loop
  up_loop-Keeps e [] = search keeps_rules
  up_loop-Keeps e ((i, u) ∷ us) = search (keeps_rules, up_one-Keeps e i u, up_loop-Keeps e us)

-- `Up` never stops or removes a container and never deletes a volume, whatever the runtime answers.
pub up-IsHarmless : (rt : Runtime) (e : Engine) → All IsHarmless (up rt e []).1
unfolding up
up-IsHarmless rt e = (up_loop-Keeps Harmless-Outlasts rt e indexed).at [] tt

-- A history in which no volume is deleted.
abbrev pub KeepsData : History → Type 0
KeepsData = All (λ ev. deletes_data ev ≡ false)

pub KeepsData-Outlasts : Outlasts KeepsData
unfolding deletes_data ps_args images_args volume_ls_args volume_create_args start_args
    image_of_args run_args eq
KeepsData-Outlasts = record {
  line = λ l. All-IsStable (logged l) refl;
  ps = λ n. All-IsStable (ran (ps_args n)) refl;
  images = λ n. All-IsStable (ran (images_args n)) refl;
  volume_ls = λ n. All-IsStable (ran (volume_ls_args n)) refl;
  volume_create = λ n. All-IsStable (ran (volume_create_args n)) refl;
  starting = λ n. All-IsStable (ran (start_args n)) refl;
  image_of = λ n. All-IsStable (ran (image_of_args n)) refl;
  running = λ e u p. All-IsStable (ran (run_args e u p)) refl;
}

-- A command other than `volume` deletes no volume.
pub other-kept :
    (w : Text) (args : List Text)
    → eq w (codes "volume") ≡ false
    → IsStable KeepsData (ran (w ∷ args))
unfolding deletes_data
other-kept w [] h = All-IsStable (ran (w ∷ [])) refl
other-kept w (x ∷ args) h = All-IsStable (ran (w ∷ x ∷ args)) (rw h)

pub other_detached-kept :
    (w : Text) (args : List Text)
    → eq w (codes "volume") ≡ false
    → IsStable KeepsData (ran_detached (w ∷ args))
unfolding deletes_data
other_detached-kept w [] h = All-IsStable (ran_detached (w ∷ [])) refl
other_detached-kept w (x ∷ args) h = All-IsStable (ran_detached (w ∷ x ∷ args)) (rw h)

rm-kept : (n : Text) → IsStable KeepsData (ran (rm_args n))
unfolding deletes_data rm_args eq
rm-kept n = All-IsStable (ran (rm_args n)) refl

down_one-kept : (rt : Runtime) (u : Upstream) → Keeps KeepsData (down_one rt false u)
unfolding down_one container_state
down_one-kept rt u =
    search (keeps_rules, KeepsData-Outlasts.line, KeepsData-Outlasts.ps, rm-kept) depth 9

pub down_loop-kept : (rt : Runtime) (us : List Upstream) → Keeps KeepsData (down_loop rt false us)
unfolding down_loop
down_loop-kept rt [] = search keeps_rules
down_loop-kept rt (u ∷ us) = search (keeps_rules, down_one-kept rt u, down_loop-kept rt us)

-- `Down` without a purge deletes no volume, whatever the runtime answers.
pub down-KeepsData : (rt : Runtime) → KeepsData (down rt false []).1
unfolding down
down-KeepsData rt = (down_loop-kept rt upstreams).at [] tt
