-- ===== src/Cli/Keeps/Instances.antt =====
-- The warming by one warmer, and the reading of a store by commands in its container, delete no volume.
use regcachectl.Base.{refl, ℕ, suc, List, [], ◌∷◌, Option, none, some, length}
use regcachectl.Base.Kept.{
  Kept, Kept-bind, Kept-pure, Kept-if, Kept-lift, Kept-raise, Kept-attempt, Kept-wrapped,
}
use regcachectl.Text.{Text, codes, eq}
use regcachectl.Upstream.{Upstream, upstream_for_host}
use regcachectl.Engine.{Engine, container}
use regcachectl.Reference.{ImageRef}
use regcachectl.Coverage.{Codec}
use regcachectl.Client.{Network}
use regcachectl.Fleet.Removal.{KeepsData, other-kept}
use regcachectl.Release.{warm_host, warm_ref}
use regcachectl.Io.{Runtime, run}
use regcachectl.Io.Keeps.{Keeps-run}
use regcachectl.Coverage.Disk.{find_args, check_port, load_blobs, open_store}
use regcachectl.Cli.Keeps.Views.{of_Keeps, state-kept}
use regcachectl.Release.OnDisk.{open_on_disk}
use regcachectl.Release.InOrder.{warm_next, warm_rest, warm_all_in_order}
use regcachectl.Cli.Keeps.Release.{OnWorld, log_line-Kept, with_client-Kept}

-- The warming by one warmer is an instance of `warmAll` that deletes no volume.
module _ (e : Engine) (net : Network) (c : Codec) (platform creds : Text) where
  warm_host-Kept :
      (p : ImageRef) (h : Option (ℕ × Upstream))
      → Kept OnWorld (warm_host e net c platform creds p h)
  unfolding warm_host
  warm_host-Kept p none = Kept-raise _
  warm_host-Kept p (some (i, u)) = Kept-if _ _ _ (Kept-raise _) (with_client-Kept _)

  warm_ref-Kept : (ref : Text) → Kept OnWorld (warm_ref e net c platform creds ref)
  unfolding warm_ref
  warm_ref-Kept ref = Kept-bind _ _ (Kept-lift _) (λ p. warm_host-Kept p (upstream_for_host p.host))

  warm_rest-Kept :
      (done total : ℕ) (refs : List Text)
      → Kept OnWorld (warm_rest e net c platform creds done total refs)
  unfolding warm_rest warm_next
  warm_rest-Kept done total [] = Kept-pure _
  warm_rest-Kept done total (ref ∷ refs) =
      Kept-bind _ _
        (Kept-bind _ _ (Kept-attempt _ (warm_ref-Kept ref))
          (λ outcome. Kept-bind _ _ (log_line-Kept _) (λ logged. Kept-pure _)))
        (λ r. Kept-bind _ _ (warm_rest-Kept (suc done) total refs) (λ rs. Kept-pure _))

  pub warm_all_in_order-Kept :
      (refs : List Text) → Kept OnWorld (warm_all_in_order e net c platform creds refs)
  unfolding warm_all_in_order
  warm_all_in_order-Kept refs = warm_rest-Kept 0 (length refs) refs

-- The opening of a store by commands in its container is an instance of `openStore` that deletes none.
module _ (rt : Runtime) (u : Upstream) where
  find-Kept : Kept KeepsData (run rt (find_args (container u)))
  unfolding find_args eq
  find-Kept = of_Keeps _ (Keeps-run rt _ (other-kept (codes "exec") _ refl))

  check_port-Kept : (asked : ℕ) (other : Option ℕ) → Kept KeepsData (check_port rt u asked other)
  check_port-Kept asked none = Kept-pure _
  check_port-Kept asked (some p) = Kept-raise _

  open_store-Kept : (e : Engine) → Kept KeepsData (open_store rt u e)
  unfolding open_store load_blobs
  open_store-Kept e = Kept-bind _ _ (state-kept rt (container u)) (λ c.
      Kept-bind _ _ (Kept-if _ _ _ (Kept-raise _) (Kept-pure _)) (λ running.
        Kept-bind _ _ (check_port-Kept _ _) (λ checked.
          Kept-bind _ _ (Kept-bind _ _ (Kept-wrapped _ _ find-Kept) (λ out. Kept-pure _))
            (λ blobs. Kept-pure _))))

  pub open_on_disk-Kept :
      (e : Engine) (net : Network) (c : Codec) → Kept OnWorld (open_on_disk rt e net c u)
  unfolding open_on_disk
  open_on_disk-Kept e net c = record { at = λ w p. (open_store-Kept e).at w.history p }
