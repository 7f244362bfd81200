-- ===== src/Cli/Keeps/Print.antt =====
-- Printing, and the making of an engine, in main.go and systemd.go: no volume is deleted.
use regcachectl.Base.{ℕ, ◌+◌, Bool, List, [], ◌∷◌, Option, none, some}
use regcachectl.Base.Results.{Result, ok, err}
use regcachectl.Base.Stateful.{Stateful}
use regcachectl.Base.Kept.{Kept, Kept-bind, Kept-pure, Kept-if, Kept-lift, Kept-raise}
use regcachectl.Text.{Text}
use regcachectl.Engine.{Engine, Mismatch}
use regcachectl.Io.{Io}
use regcachectl.Fleet.Removal.{KeepsData, KeepsData-Outlasts}
use regcachectl.Fleet.Status.{CacheStatus}
use regcachectl.Coverage.Count.{Coverage}
use regcachectl.Listing.Inventory.{Listing}
use regcachectl.Release.{World}
use regcachectl.Transfer.{Host}
use regcachectl.Cli.Process.{
  Process, Machine, Ending, on_world, on_io, on_host, print_line, print_lines, warn,
  warn_mismatches, build_engine,
}
use regcachectl.Cli.Print.{
  print_table, show_status, print_status, show_coverage, show_listings, print_list,
}
use regcachectl.Cli.Systemd.{written, write_unit, install_systemd}
use regcachectl.Cli.Keeps.{discover_ports-Keeps}
use regcachectl.Cli.Keeps.Views.{of_Keeps, status-Kept, list-Kept}
use regcachectl.Cli.Keeps.Transfer.{OnHost}
use regcachectl.Cli.Keeps.Release.{OnWorld}

abbrev pub OnProcess : Process → Type 0
OnProcess s = KeepsData s.world.history

module _ {ℓ} {A : Type ℓ} where
  pub on_world-Kept : (m : Stateful World A) → Kept OnWorld m → Kept OnProcess (on_world m)
  unfolding on_world
  on_world-Kept m k = record { at = λ s p. k.at s.world p }

  pub on_io-Kept : (m : Io A) → Kept KeepsData m → Kept OnProcess (on_io m)
  unfolding on_io
  on_io-Kept m k = record { at = λ s p. k.at s.world.history p }

  pub on_host-Kept : (m : Stateful Host A) → Kept OnHost m → Kept OnProcess (on_host m)
  unfolding on_host
  on_host-Kept m k = record { at = λ s p. k.at _ p }

pub print_line-Kept : (line : Text) → Kept OnProcess (print_line line)
unfolding print_line
print_line-Kept line = record { at = λ s p. (KeepsData-Outlasts.line line).step s.world.history p }

print_lines-Kept : (ls : List Text) → Kept OnProcess (print_lines ls)
unfolding print_lines
print_lines-Kept [] = Kept-pure _
print_lines-Kept (l ∷ ls) = Kept-bind _ _ (print_line-Kept l) (λ done. print_lines-Kept ls)

pub warn-Kept : (line : Text) → Kept OnProcess (warn line)
unfolding warn
warn-Kept line = record { at = λ s p. p }

warn_mismatches-Kept : (ms : List Mismatch) → Kept OnProcess (warn_mismatches ms)
unfolding warn_mismatches
warn_mismatches-Kept [] = Kept-pure _
warn_mismatches-Kept (m ∷ ms) = Kept-bind _ _ (warn-Kept _) (λ done. warn_mismatches-Kept ms)

module _ (m : Machine) where
  pub build_engine-Kept :
      (runtime image : Text) (base : ℕ) (base_set : Bool)
      → Kept OnProcess (build_engine m runtime image base base_set)
  unfolding build_engine
  build_engine-Kept runtime image base base_set = Kept-bind _ _ (Kept-lift _) (λ name.
      Kept-bind _ _ (on_io-Kept _ (of_Keeps _ (discover_ports-Keeps (m.runtime name) _))) (λ e.
        Kept-bind _ _ (Kept-if _ _ _ (warn_mismatches-Kept _) (Kept-pure _)) (λ done. Kept-pure _)))

  print_table-Kept : (rows : List (List Text)) → Kept OnProcess (print_table m rows)
  unfolding print_table
  print_table-Kept [] = Kept-pure _
  print_table-Kept (r ∷ rs) = print_line-Kept _

  pub print_status-Kept : (name : Text) (e : Engine) → Kept OnProcess (print_status m name e)
  unfolding print_status show_status
  print_status-Kept name e =
      Kept-bind _ _ (on_io-Kept _ (status-Kept (m.runtime name) m.blobcache_total e)) go
    where
      go : (st : Option (List CacheStatus)) → Kept OnProcess (show_status m st)
      go none = record { at = λ s p. p }
      go (some ss) = record {
        at = λ s p. (Kept-bind _ _ (print_table-Kept _) (λ done. Kept-pure Ending.returned)).at s p;
      }

  pub show_coverage-Kept :
      (release : Text) (missing : Bool) (c : Option (Result Coverage))
      → Kept OnProcess (show_coverage m release missing c)
  unfolding show_coverage
  show_coverage-Kept release missing none = Kept-pure _
  show_coverage-Kept release missing (some (err x)) = Kept-raise _
  show_coverage-Kept release missing (some (ok c)) =
      Kept-bind _ _ (print_line-Kept _) (λ l.
        Kept-bind _ _ (Kept-if _ _ _ (print_lines-Kept _) (Kept-pure _)) (λ done. Kept-pure _))

  show_listings-Kept :
      (objects blobs : Bool) (grand : ℕ) (ls : List Listing)
      → Kept OnProcess (show_listings m objects blobs grand ls)
  unfolding show_listings
  show_listings-Kept objects blobs grand [] = Kept-pure _
  show_listings-Kept objects blobs grand (l ∷ ls) = Kept-bind _ _ (print_line-Kept _) (λ done.
      Kept-bind _ _ (Kept-if _ _ _ (print_table-Kept _) (Kept-pure _))
        (λ shown. show_listings-Kept objects blobs (grand + l.bytes) ls))

  pub print_list-Kept :
      (name : Text) (e : Engine) (objects blobs : Bool)
      → Kept OnProcess (print_list m name e objects blobs)
  unfolding print_list
  print_list-Kept name e objects blobs =
      Kept-bind _ _ (on_io-Kept _ (list-Kept (m.runtime name) m.web e)) (λ ls.
        Kept-bind _ _ (show_listings-Kept objects blobs 0 ls) (λ grand.
          Kept-bind _ _ (Kept-if _ _ _ (print_line-Kept _) (Kept-pure _)) (λ done. Kept-pure _)))

  written-OnProcess :
      (unit : Text) (s : Process)
      → OnProcess s
      → (x : Option Text) → OnProcess (written m unit x s).1
  written-OnProcess unit s p none = p
  written-OnProcess unit s p (some x) = p

  pub install_systemd-Kept : (write : Bool) → Kept OnProcess (install_systemd m write)
  unfolding install_systemd write_unit
  install_systemd-Kept write =
      Kept-if _ _ _ (Kept-bind _ _ (print_line-Kept _) (λ done. warn-Kept _)) (
        Kept-bind _ _
          (Kept-bind _ _ (record { at = λ s p. written-OnProcess _ s p (m.write_error _) })
            (λ done. print_line-Kept _))
          (λ done. print_line-Kept _))
