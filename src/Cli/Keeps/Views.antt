-- ===== src/Cli/Keeps/Views.antt =====
-- The methods of the engine that only look, and those that export and import, delete no volume.
use regcachectl.Base.{refl, ℕ, List, [], ◌∷◌, Option, none, some}
use regcachectl.Base.Kept.{Kept, Kept-bind, Kept-pure, Kept-if, Kept-attempt, kept_rules}
use regcachectl.Text.{Text, codes, eq}
use regcachectl.Upstream.{Upstream, indexed}
use regcachectl.Engine.{Engine, container}
use regcachectl.Io.{History, Runtime, Io, run}
use regcachectl.Io.Keeps.{Keeps, Keeps-run}
use regcachectl.Fleet.Query.{Container, container_state}
use regcachectl.Fleet.Removal.{
  Outlasts, KeepsData, KeepsData-Outlasts, other-kept, container_state-Keeps,
}
use regcachectl.Fleet.Status.{
  CacheStatus, du_args, running_status, status_of_cache, or_panic, status_loop, status,
}
use regcachectl.Listing.Inventory.{Listing, Web}
use regcachectl.Listing.Walk.{
  exec_args, indexes_of, primary_revisions, list_dir, revision_names, names_in, names_in_all,
  with_catalog, fill_registry, fill_blobcache, fill, list_loop, list,
}

abbrev o : Outlasts KeepsData
o = KeepsData-Outlasts

module _ {ℓ} {A : Type ℓ} where
  pub of_Keeps : (m : Io A) → Keeps KeepsData m → Kept KeepsData m
  of_Keeps m k = record { at = k.at }

-- A command in a container deletes no volume.
exec-kept :
    (rt : Runtime) (name : Text) (args : List Text) → Kept KeepsData (run rt (exec_args name args))
unfolding eq
exec-kept rt name args = of_Keeps _ (Keeps-run rt _ (other-kept (codes "exec") (name ∷ args) refl))

du-kept : (rt : Runtime) (name : Text) → Kept KeepsData (run rt (du_args name))
unfolding du_args eq
du-kept rt name = of_Keeps _ (Keeps-run rt _ (other-kept (codes "exec") _ refl))

pub state-kept : (rt : Runtime) (name : Text) → Kept KeepsData (container_state rt name)
state-kept rt name = of_Keeps _ (container_state-Keeps o rt name)

module _ (rt : Runtime) (total : History → ℕ → Option ℕ) (e : Engine) where
  running_status-Kept :
      (u : Upstream) (s : CacheStatus) → Kept KeepsData (running_status rt total e u s)
  unfolding running_status
  running_status-Kept u s = search (kept_rules, du-kept rt)

  status_of_cache-Kept :
      (u : Upstream) (c : Container) (s : CacheStatus)
      → Kept KeepsData (status_of_cache rt total e u c s)
  unfolding status_of_cache
  status_of_cache-Kept u c s = search (kept_rules, running_status-Kept)

  status_loop-Kept : (us : List (ℕ × Upstream)) → Kept KeepsData (status_loop rt total e us)
  unfolding status_loop
  status_loop-Kept [] = search kept_rules
  status_loop-Kept ((i, u) ∷ us) =
      search (kept_rules, state-kept rt, status_of_cache-Kept, or_panic-Kept (status_loop-Kept us))
    where
      or_panic-Kept :
          Kept KeepsData (status_loop rt total e us)
          → (s : Option CacheStatus)
          → Kept KeepsData (or_panic rt total e (status_loop rt total e us) s)
      or_panic-Kept k none = search kept_rules
      or_panic-Kept k (some s) = search kept_rules

  pub status-Kept : Kept KeepsData (status rt total e)
  unfolding status
  status-Kept = status_loop-Kept indexed

module _ (rt : Runtime) (u : Upstream) where
  indexes_of-Kept : (ds : List Text) → Kept KeepsData (indexes_of rt u ds)
  unfolding indexes_of
  indexes_of-Kept [] = search kept_rules
  indexes_of-Kept (d ∷ ds) = Kept-if _ _ _ (indexes_of-Kept ds) (
      Kept-bind _ _ (Kept-attempt _ (exec-kept rt _ _))
        (λ content. Kept-bind _ _ (indexes_of-Kept ds) (λ rest. Kept-pure _)))

  list_dir-Kept : (repo sub : Text) → Kept KeepsData (list_dir rt u repo sub)
  unfolding list_dir
  list_dir-Kept repo sub = search (kept_rules, exec-kept rt)

  revision_names-Kept : (repo revs : Text) → Kept KeepsData (revision_names rt u repo revs)
  unfolding revision_names primary_revisions
  revision_names-Kept repo revs = search (kept_rules, indexes_of-Kept)

  names_in-Kept : (repo : Text) → Kept KeepsData (names_in rt u repo)
  unfolding names_in
  names_in-Kept repo = search (kept_rules, list_dir-Kept, revision_names-Kept)

  names_in_all-Kept : (repos : List Text) → Kept KeepsData (names_in_all rt u repos)
  unfolding names_in_all
  names_in_all-Kept [] = search kept_rules
  names_in_all-Kept (r ∷ rs) =
      Kept-bind _ _ (names_in-Kept r)
        (λ names. Kept-bind _ _ (names_in_all-Kept rs) (λ rest. Kept-pure _))

  with_catalog-Kept :
      (repos : Option (List Text)) (l : Listing) → Kept KeepsData (with_catalog rt u repos l)
  unfolding with_catalog
  with_catalog-Kept none l = search kept_rules
  with_catalog-Kept (some repos) l = search (kept_rules, names_in_all-Kept)

  fill_blobcache-Kept : (web : Web) (l : Listing) → Kept KeepsData (fill_blobcache rt u web l)
  unfolding fill_blobcache
  fill_blobcache-Kept web l = record { at = λ es h. h }

  fill_registry-Kept : (web : Web) (l : Listing) → Kept KeepsData (fill_registry rt u web l)
  unfolding fill_registry
  fill_registry-Kept web l =
      Kept-bind _ _ (Kept-attempt _ (exec-kept rt _ _))
        (λ du. record { at = λ es h. (with_catalog-Kept _ _).at es h })

  fill-Kept : (web : Web) (c : Container) (l : Listing) → Kept KeepsData (fill rt u web c l)
  unfolding fill
  fill-Kept web c l = search (kept_rules, fill_registry-Kept, fill_blobcache-Kept)

module _ (rt : Runtime) (web : Web) (e : Engine) where
  list_loop-Kept : (us : List (ℕ × Upstream)) → Kept KeepsData (list_loop rt web e us)
  unfolding list_loop
  list_loop-Kept [] = search kept_rules
  list_loop-Kept ((i, u) ∷ us) = Kept-bind _ _ (state-kept rt (container u)) (λ c.
      Kept-bind _ _ (fill-Kept rt u web c _)
        (λ l. Kept-bind _ _ (list_loop-Kept us) (λ rest. Kept-pure _)))

  pub list-Kept : Kept KeepsData (list rt web e)
  unfolding list
  list-Kept = list_loop-Kept indexed
