-- ===== src/Fleet/Up.antt =====
-- `Up` of internal/cache/cache.go.
use regcachectl.Base.{ℕ, List, [], ◌∷◌, ◌++◌, if◌then◌else◌}
use regcachectl.Text.{utf8, Text, codes, itoa}
use regcachectl.Upstream.{Upstream, indexed}
use regcachectl.Engine.{Engine, port, container, volume, blobcache_image}
use regcachectl.Io.{Io, Runtime, pure, wrapped, ◌>>=◌, ◌>>◌, run, log}
use regcachectl.Fleet.Commands.{start_args, run_args}
use regcachectl.Fleet.Query.{
  Container, container_state, image_exists, ensure_volume, note_image_drift, pad9,
}

pub skipped_line : Upstream → Text
skipped_line u =
    codes "  ! "
    ++ (pad9 u.name
        ++ (utf8 " skipped — blob-cache image "
            ++ (blobcache_image
                ++ codes " not found (run `make blobcache-image`); public caches still up")))

pub at_port : Upstream → ℕ → Text
at_port u p = u.host ++ (utf8 " → :" ++ itoa p)

pub started_line : Upstream → ℕ → Text
started_line u p = utf8 "  ↑ " ++ (pad9 u.name ++ (codes " started   " ++ at_port u p))

pub running_line : Upstream → ℕ → Text
running_line u p = codes "  = " ++ (pad9 u.name ++ (codes " running   " ++ at_port u p))

pub kind_of : Upstream → Text
kind_of u = if u.blobcache then codes "blobcache, no creds" else codes "proxy"

pub created_line : Upstream → ℕ → Text
created_line u p =
    codes "  + "
    ++ (pad9 u.name
        ++ (codes " created   "
            ++ (at_port u p
                ++ (codes "  (" ++ (kind_of u ++ (codes " " ++ (u.remote ++ codes ")")))))))

pub start_error : Upstream → Text → Text
start_error u e = codes "start " ++ (u.name ++ (codes ": " ++ e))

module _ (rt : Runtime) (e : Engine) where
  -- an existing container is started if it is stopped, and never recreated
  unfoldable pub reuse : Upstream → ℕ → Container → Io (Unit {0})
  reuse u p c = do
    if c.running
        then log (running_line u p)
        else (do started ← run rt (start_args (container u)); log (started_line u p))
    if u.blobcache then pure tt else note_image_drift rt e u

  unfoldable pub create : Upstream → ℕ → Io (Unit {0})
  create u p = do
    started ← wrapped (start_error u) (run rt (run_args e u p))
    log (created_line u p)

  unfoldable pub bring_up : ℕ → Upstream → Io (Unit {0})
  bring_up i u = do
    ensure_volume rt (volume u)
    c ← container_state rt (container u)
    let p = port e i u
    if c.exists then reuse u p c else create u p

  -- one round of the loop: the blob cache is skipped where its image is missing
  unfoldable pub up_one : ℕ → Upstream → Io (Unit {0})
  up_one i u =
      if u.blobcache
      then (do
        found ← image_exists rt blobcache_image
        if found then bring_up i u else log (skipped_line u))
      else bring_up i u

  unfoldable pub up_loop : List (ℕ × Upstream) → Io (Unit {0})
  up_loop [] = pure tt
  up_loop ((i, u) ∷ us) = do up_one i u; up_loop us

  unfoldable pub up : Io (Unit {0})
  up = up_loop indexed
