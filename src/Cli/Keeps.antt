-- ===== src/Cli/Keeps.antt =====
-- What the engine's methods that main.go calls do to the volumes with the cached data: nothing.
pub mod Views
pub mod Transfer
pub mod Release
pub mod Instances
pub mod Print
use regcachectl.Base.{◌≡◌, refl, ℕ, Bool, true, false, List, [], ◌∷◌, ◌++◌, Option, none, some}
use regcachectl.Base.Results.{Result, ok, err}
use regcachectl.Text.{Text, codes, eq}
use regcachectl.Dict.{Dict}
use regcachectl.Upstream.{Upstream, upstreams, indexed}
use regcachectl.Engine.{Engine, container}
use regcachectl.Io.{Event, ran, ran_detached, logged, History, Runtime}
use regcachectl.Io.Keeps.{Keeps, IsStable, Keeps-bind, keeps_rules}
use regcachectl.Fleet.Commands.{port_args, stop_args, start_args, gc_args}
use regcachectl.Fleet.Query.{container_image}
use regcachectl.Fleet.Removal.{
  Outlasts, KeepsData, KeepsData-Outlasts, other-kept, other_detached-kept, container_state-Keeps,
  up_loop-Keeps, down_loop-kept,
}
use regcachectl.Fleet.Up.{up}
use regcachectl.Fleet.Down.{down}
use regcachectl.Fleet.Discover.{note_answer, discover_loop, discover_ports}
use regcachectl.Fleet.Gc.{collected, collect, gc_one, gc_cache, gc_loop, gc}

abbrev o : Outlasts KeepsData
o = KeepsData-Outlasts

port-kept : (n : Text) → IsStable KeepsData (ran (port_args n))
unfolding port_args eq
port-kept n = other-kept (codes "inspect") _ refl

stop-kept : (n : Text) → IsStable KeepsData (ran (stop_args n))
unfolding stop_args eq
stop-kept n = other-kept (codes "stop") _ refl

start-kept : (n : Text) → IsStable KeepsData (ran_detached (start_args n))
unfolding start_args eq
start-kept n = other_detached-kept (codes "start") _ refl

gc-kept : (u : Upstream) (image : Text) (b : Bool) → IsStable KeepsData (ran (gc_args u image b))
unfolding gc_args eq
gc-kept u image b = other-kept (codes "run") _ refl

module _ (rt : Runtime) where
  pub up-Keeps : (e : Engine) → Keeps KeepsData (up rt e)
  unfolding up
  up-Keeps e = up_loop-Keeps o rt e indexed

  pub down-Keeps : Keeps KeepsData (down rt false)
  unfolding down
  down-Keeps = down_loop-kept rt upstreams

  discover_loop-Keeps :
      (found : Dict ℕ) (us : List Upstream) → Keeps KeepsData (discover_loop rt found us)
  unfolding discover_loop
  discover_loop-Keeps found [] = search keeps_rules
  discover_loop-Keeps found (u ∷ us) =
      Keeps-bind _ _ (search (keeps_rules, port-kept))
        (λ answer. discover_loop-Keeps (note_answer u.name answer found) us)

  pub discover_ports-Keeps : (e : Engine) → Keeps KeepsData (discover_ports rt e)
  unfolding discover_ports
  discover_ports-Keeps e = search (keeps_rules, discover_loop-Keeps)

  collected-Keeps : (u : Upstream) (r : Result Text) → Keeps KeepsData (collected rt u r)
  unfolding collected
  collected-Keeps u (ok out) = search (keeps_rules, o.line)
  collected-Keeps u (err x) = search (keeps_rules, o.line)

  gc_one-Keeps : (u : Upstream) (b : Bool) → Keeps KeepsData (gc_one rt u b)
  unfolding gc_one collect container_image
  gc_one-Keeps u b =
      search (keeps_rules, o.image_of, stop-kept, gc-kept, start-kept, collected-Keeps) depth 12

  gc_cache-Keeps : (b : Bool) (u : Upstream) → Keeps KeepsData (gc_cache rt b u)
  unfolding gc_cache
  gc_cache-Keeps b u =
      search (keeps_rules, o.line, container_state-Keeps o rt, gc_one-Keeps) depth 12

  gc_loop-Keeps : (b : Bool) (us : List Upstream) → Keeps KeepsData (gc_loop rt b us)
  unfolding gc_loop
  gc_loop-Keeps b [] = search keeps_rules
  gc_loop-Keeps b (u ∷ us) = Keeps-bind _ _ (gc_cache-Keeps b u) (λ done. gc_loop-Keeps b us)

  pub gc-Keeps : (b : Bool) → Keeps KeepsData (gc rt b)
  unfolding gc
  gc-Keeps b = gc_loop-Keeps b upstreams
