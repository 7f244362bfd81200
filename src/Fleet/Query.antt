-- ===== src/Fleet/Query.antt =====
-- `containerState`, `imageExists`, `containerImage`, `noteImageDrift` and `ensureVolume` of
-- internal/cache/cache.go.
use regcachectl.Base.{ℕ, suc, zero, ◌-◌, Bool, not, ◌||◌, [], ◌∷◌, ◌++◌, if◌then◌else◌, length}
use regcachectl.Text.{utf8, Text, codes, eq, is_empty}
use regcachectl.Upstream.{Upstream}
use regcachectl.Engine.{Engine, image_name, container}
use regcachectl.Io.{Io, Runtime, pure, attempt, ◌>>=◌, run, log, or_empty}
use regcachectl.Fleet.Commands.{
  ps_args, images_args, volume_ls_args, volume_create_args, image_of_args,
}

pub spaces : ℕ → Text
spaces zero = []
spaces (suc n) = 32 ∷ spaces n

-- `%-9s`
pub pad9 : Text → Text
unfolding spaces
pad9 s = s ++ spaces (9 - length s)

-- `(exists, running)`
pub record Container : Type 0 where
  pub exists : Bool
  pub running : Bool

unfoldable pub running_text : Text
running_text = codes "running"

unfoldable pub container_answer : Text → Container
container_answer out = record { exists = not (is_empty out); running = eq out running_text }

module _ (rt : Runtime) where
  unfoldable pub container_state : Text → Io Container
  container_state name = do out ← run rt (ps_args name); pure (container_answer out)

  unfoldable pub image_exists : Text → Io Bool
  image_exists ref = do out ← run rt (images_args ref); pure (not (is_empty out))

  unfoldable pub container_image : Text → Io Text
  container_image name = run rt (image_of_args name)

  unfoldable pub ensure_volume : Text → Io (Unit {0})
  ensure_volume name = do
    out ← attempt (run rt (volume_ls_args name))
    if eq (or_empty out) name
        then pure tt
        else (do created ← run rt (volume_create_args name); pure tt)

  pub drift_line : Engine → Text → Text
  drift_line e img =
      codes "    "
      ++ (pad9 []
          ++ (codes " runs "
              ++ (img
                  ++ (codes ", configured "
                      ++ (image_name e
                          ++ utf8
                              " — `regcachectl down && regcachectl up` switches it (cached data is kept)")))))

  unfoldable pub note_image_drift : Engine → Upstream → Io (Unit {0})
  note_image_drift e u = do
    r ← attempt (container_image (container u))
    let img = or_empty r
    if is_empty img || eq img (image_name e) then pure tt else log (drift_line e img)
