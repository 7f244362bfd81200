-- ===== src/Cli/Keeps/Transfer.antt =====
-- `Export` and `Import` delete no volume.
use regcachectl.Base.{refl, List, [], ◌∷◌, Option, none, some, Bool-cases, inl, inr}
use regcachectl.Base.Results.{Result, ok, err}
use regcachectl.Base.Kept.{Kept, Kept-bind, Kept-pure, Kept-if, Kept-attempt, kept_rules}
use regcachectl.Text.{Text, codes, eq}
use regcachectl.Upstream.{Upstream, upstreams}
use regcachectl.Engine.{Engine, image_name, volume}
use regcachectl.Io.{Runtime, Io, run, log as log_io}
use regcachectl.Io.Keeps.{Keeps-run, Keeps-log}
use regcachectl.Fleet.Query.{image_exists}
use regcachectl.Fleet.Removal.{
  Outlasts, KeepsData, KeepsData-Outlasts, other-kept, image_exists-Keeps, ensure_volume-Keeps,
}
use regcachectl.Transfer.{
  Host, Os, export_args, import_args, io, log, remove_file, created, create, open_file, stream_to,
  stream_from, log_size, conclude, volume_exists, exported, ensure_volumes, helper_image, bundle,
  bundle_some, export, import_from,
}
use regcachectl.Cli.Keeps.Views.{of_Keeps}

abbrev o : Outlasts KeepsData
o = KeepsData-Outlasts

abbrev pub OnHost : Host → Type 0
OnHost h = KeepsData h.history

module _ {ℓ} {A : Type ℓ} where
  io-Kept : (m : Io A) → Kept KeepsData m → Kept OnHost (io m)
  unfolding io
  io-Kept m k = record { at = λ h p. k.at h.history p }

log-Kept : (line : Text) → Kept OnHost (log line)
unfolding log
log-Kept line = record { at = λ h p. (o.line line).step h.history p }

module _ (os : Os) where
  create-Kept : (path : Text) → Kept OnHost (create os path)
  unfolding create
  create-Kept path = record { at = λ h p. go h p (os.create_error h path) }
    where
      go : (h : Host) → OnHost h → (x : Option Text) → OnHost (created path h x).1
      go h p none = p
      go h p (some x) = p

  log_size-Kept : (path : Text) → Kept OnHost (log_size os path)
  unfolding log_size
  log_size-Kept path = record {
    at = λ h p. elim (Bool-cases (os.stat_fails h path)) [
      | inl fails ↦ rw fails p
      | inr sized ↦ rw sized ((log-Kept _).at h p)
    ];
  }

  remove_file-Kept : (path : Text) → Kept OnHost (remove_file path)
  unfolding remove_file
  remove_file-Kept path = record { at = λ h p. p }

  conclude-Kept : (path : Text) (r : Result (Unit {0})) → Kept OnHost (conclude os path r)
  unfolding conclude
  conclude-Kept path (ok done) = log_size-Kept path
  conclude-Kept path (err x) = search (kept_rules, remove_file-Kept)

  open_file-Kept : (path : Text) → Kept OnHost (open_file os path)
  unfolding open_file
  open_file-Kept path = record { at = λ h p. p }

  stream_to-Kept :
      (path helper : Text) (us : List Upstream)
      → Kept OnHost (stream_to os path (export_args helper us))
  unfolding stream_to export_args eq
  stream_to-Kept path helper us = record {
    at = λ h p. (other-kept (codes "run") _ refl).step h.history p;
  }

  stream_from-Kept :
      (input helper : Text) (us : List Upstream)
      → Kept OnHost (stream_from os input (import_args helper us))
  unfolding stream_from import_args eq
  stream_from-Kept input helper us = record {
    at = λ h p. (other-kept (codes "run") _ refl).step h.history p;
  }

module _ (rt : Runtime) where
  volume_exists-Kept : (name : Text) → Kept KeepsData (volume_exists rt name)
  unfolding volume_exists
  volume_exists-Kept name =
      Kept-bind _ _ (Kept-attempt _ (of_Keeps _ (Keeps-run rt _ (o.volume_ls name))))
        (λ out. Kept-pure _)

  exported-Kept : (only : List Text) (us : List Upstream) → Kept KeepsData (exported rt only us)
  unfolding exported
  exported-Kept only [] = search kept_rules
  exported-Kept only (u ∷ us) =
      Kept-if _ _ _
        (Kept-bind _ _ (volume_exists-Kept (volume u))
          (λ found. Kept-bind _ _ (exported-Kept only us) (λ rest. Kept-pure _)))
        (exported-Kept only us)

  ensure_volumes-Kept : (us : List Upstream) → Kept KeepsData (ensure_volumes rt us)
  unfolding ensure_volumes
  ensure_volumes-Kept [] = search kept_rules
  ensure_volumes-Kept (u ∷ us) =
      Kept-bind _ _ (of_Keeps _ (ensure_volume-Keeps o rt (volume u)))
        (λ done. ensure_volumes-Kept us)

  module _ (e : Engine) where
    exists-Kept : Kept KeepsData (image_exists rt (image_name e))
    exists-Kept = of_Keeps _ (image_exists-Keeps o rt (image_name e))

    pulls-Kept : Kept KeepsData (run rt (codes "pull" ∷ image_name e ∷ []))
    unfolding eq
    pulls-Kept = of_Keeps _ (Keeps-run rt _ (other-kept (codes "pull") _ refl))

    noted-Kept : (line : Text) → Kept KeepsData (log_io line)
    noted-Kept line = of_Keeps _ (Keeps-log line (o.line line))

    helper_image-Kept : Kept KeepsData (helper_image rt e)
    unfolding helper_image
    helper_image-Kept = search (kept_rules, exists-Kept, pulls-Kept, noted-Kept) depth 9

    module _ (os : Os) where
      bundle-Kept : (path : Text) (us : List Upstream) → Kept OnHost (bundle rt e os path us)
      unfolding bundle
      bundle-Kept path us = Kept-bind _ _ (io-Kept _ helper_image-Kept) (λ helper.
          Kept-bind _ _ (create-Kept os path) (λ c. Kept-bind _ _ (log-Kept _) (λ l.
            Kept-bind _ _ (Kept-attempt _ (stream_to-Kept os path helper us))
              (λ r. conclude-Kept os path r))))

      pub export-Kept : (path : Text) (only : List Text) → Kept OnHost (export rt e os path only)
      unfolding export
      export-Kept path only = Kept-bind _ _ (io-Kept _ (exported-Kept only upstreams)) go
        where
          go : (us : List Upstream) → Kept OnHost (bundle_some rt e os path only us)
          go [] = search kept_rules
          go (u ∷ us) = bundle-Kept path (u ∷ us)

      pub import_from-Kept : (path : Text) → Kept OnHost (import_from rt e os path)
      unfolding import_from
      import_from-Kept path = Kept-bind _ _ (open_file-Kept os path) (λ input.
          Kept-bind _ _ (io-Kept _ helper_image-Kept) (λ helper.
            Kept-bind _ _ (io-Kept _ (ensure_volumes-Kept upstreams)) (λ v.
              Kept-bind _ _ (log-Kept _) (λ l.
                Kept-bind _ _ (stream_from-Kept os input helper upstreams) (λ s. log-Kept _)))))
