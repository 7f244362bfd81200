-- ===== src/Release/Missing.antt =====
-- `missingOnDisk` of internal/cache/release.go. `open_store` is `openStore`, on the state `W` of the
-- world.
use regcachectl.Base.{ℕ, Bool, false, List, [], ◌∷◌, Option, none, some, if◌then◌else◌}
use regcachectl.Base.Results.{Result, ok, err}
use regcachectl.Base.Stateful.{Stateful, pure, ◌>>=◌}
use regcachectl.Text.{Text, codes, has_prefix}
use regcachectl.Dict.{Dict, get, put}
use regcachectl.Upstream.{Upstream, upstream_for_host}
use regcachectl.Reference.{ImageRef, parse_ref}
use regcachectl.Coverage.{Codec, Store, image_on_disk}

-- the digest of a reference: its own, or that of the tag on disk
unfoldable pub image_digest : Store → ImageRef → Option Text
image_digest v p =
    if has_prefix p.ref (codes "sha256:") then some p.ref else v.tag_digest p.repo p.ref

module _ {W : Type 0} (open_store : Upstream → Stateful W Store) (c : Codec) (platform : Text) where
  -- the view of a cache, opened once
  unfoldable pub view_for : Upstream → Dict Store → Option Store → Stateful W (Store × Dict Store)
  unfolding pure ◌>>=◌
  view_for u views (some v) = pure (v, views)
  view_for u views none = open_store u >>= λ v. pure (v, put u.name v views)

  unfoldable pub is_full : Store → ImageRef → Option Text → Bool
  is_full v p none = false
  is_full v p (some digest) = (image_on_disk c v p.repo digest platform).full

  -- the reference is missing; on with the rest
  unfoldable pub note_missing : Text → Stateful W (List Text) → Stateful W (List Text)
  unfolding pure ◌>>=◌
  note_missing r rest = rest >>= λ missing. pure (r ∷ missing)

  -- `rest` is the loop over the references behind, with the views that are open then
  module _ (rest : Dict Store → Stateful W (List Text)) (r : Text) (p : ImageRef) where
    unfoldable pub check_view : Store × Dict Store → Stateful W (List Text)
    unfolding note_missing
    check_view (v, views) =
        if is_full v p (image_digest v p) then rest views else note_missing r (rest views)

    unfoldable pub check_host : Dict Store → Option (ℕ × Upstream) → Stateful W (List Text)
    unfolding note_missing ◌>>=◌
    check_host views none = note_missing r (rest views)
    check_host views (some (i, u)) =
        if u.blobcache
        then note_missing r (rest views)
        else (view_for u views (get u.name views) >>= check_view)

  unfoldable pub check_ref :
      (Dict Store → Stateful W (List Text))
      → Text
      → Dict Store
      → Result ImageRef
      → Stateful W (List Text)
  unfolding note_missing
  check_ref rest r views (err e) = note_missing r (rest views)
  check_ref rest r views (ok p) = check_host rest r p views (upstream_for_host p.host)

  unfoldable pub missing_loop : List Text → Dict Store → Stateful W (List Text)
  unfolding pure
  missing_loop [] views = pure []
  missing_loop (r ∷ rs) views = check_ref (missing_loop rs) r views (parse_ref r)

  -- `missingOnDisk`
  unfoldable pub missing_on_disk : List Text → Stateful W (List Text)
  missing_on_disk refs = missing_loop refs []
