-- ===== src/Cli/Print.antt =====
-- `printStatus`, `printCoverage`, `printList` and `probe` of main.go. `tabulate` is text/tabwriter, on
-- the cells of each line.
use regcachectl.Base.{
  ℕ, ◌+◌, ◌-◌, Bool, not, ◌||◌, List, [], ◌∷◌, ◌++◌, ◌==◌, Option, none, some, if◌then◌else◌,
  length, ltb, map,
}
use regcachectl.Base.Results.{Result, ok, err}
use regcachectl.Base.Stateful.{pure, raise, ◌>>=◌, ◌>>◌}
use regcachectl.Text.{Text, codes, utf8, eq, is_empty, itoa}
use regcachectl.Engine.{Engine}
use regcachectl.Fleet.Status.{CacheStatus, status}
use regcachectl.Coverage.Count.{Coverage}
use regcachectl.Listing.{human_bytes}
use regcachectl.Listing.Inventory.{Listing, Object}
use regcachectl.Listing.Walk
use regcachectl.Release.{World}
use regcachectl.Release.Report.{report}
use regcachectl.Cli.Process.{
  Machine, Ending, returned, panicked, too_deep, Run, on_world, on_io, print_line, print_lines,
}

abbrev reached_text : Result ℕ → Text
reached_text (err x) = codes "DOWN"
reached_text (ok code) =
    if code == 200 || code == 401 then codes "OK" else codes "HTTP " ++ itoa code

abbrev dash_if_empty : Text → Text
dash_if_empty s = if is_empty s then codes "-" else s

module _ (m : Machine) where
  -- what `Flush` writes of a table, less the last newline
  unfoldable pub print_table : List (List Text) → Run (Unit {0})
  print_table [] = pure tt
  print_table (row ∷ rows) = print_line (m.tabulate (row ∷ rows))

  -- `probe`: what a GET of `/v2/` at a port comes to
  unfoldable pub probe : World → ℕ → Text
  probe w port = reached_text (m.reached w port)

  unfoldable pub status_row : World → CacheStatus → List Text
  unfolding probe
  status_row w s =
      s.name
      ∷ s.host
      ∷ itoa s.port
      ∷ s.state
      ∷ dash_if_empty s.disk_usage
      ∷ (if eq s.state (codes "running") then probe w s.port else codes "-")
      ∷ []

  abbrev status_head : List Text
  status_head =
      codes "CACHE"
      ∷ codes "UPSTREAM"
      ∷ codes "PORT"
      ∷ codes "STATE"
      ∷ codes "DISK"
      ∷ codes "REACHABLE"
      ∷ []

  unfoldable pub show_status : Option (List CacheStatus) → Run Ending
  unfolding status_row
  show_status none s = (ok panicked, s)
  show_status (some ss) s =
      (print_table (status_head ∷ map (status_row s.world) ss) >> pure returned) s

  -- `printStatus`
  unfoldable pub print_status : Text → Engine → Run Ending
  print_status name e = do st ← on_io (status (m.runtime name) m.blobcache_total e); show_status st

  unfoldable pub coverage_line : Text → Coverage → Text
  coverage_line release c =
      release
      ++ codes ": "
      ++ itoa c.full
      ++ codes "/"
      ++ itoa (c.total - c.elsewhere)
      ++ codes " payload images cached in "
      ++ c.cache
      ++ (if ltb 0 c.manifest_only
          then codes " (" ++ itoa c.manifest_only ++ codes " more with a layer missing)"
          else [])
      ++ (if ltb 0 c.elsewhere
          then codes ", " ++ itoa c.elsewhere ++ codes " on other registries not checked"
          else [])

  unfoldable pub show_coverage : Text → Bool → Option (Result Coverage) → Run Ending
  show_coverage release missing none = pure too_deep
  show_coverage release missing (some (err x)) = raise x
  show_coverage release missing (some (ok c)) = do
    print_line (coverage_line release c)
    if missing then print_lines (map (λ r. codes "    missing " ++ r) c.missing) else pure tt
    pure returned

  -- `printCoverage`
  unfoldable pub print_coverage : Text → Engine → Text → Text → Bool → Run Ending
  print_coverage name e release platform missing = do
    c ← on_world (report (m.open_store name e) m.codec platform m.index_depth release)
    show_coverage release missing c

  -- the objects that are listed of a cache, and how their number is worded
  unfoldable pub items_of : Bool → Listing → List Object × Text
  items_of blobs l =
      if eq l.engine (codes "blobcache")
      then if blobs then (l.blobs, itoa (length l.blobs) ++ codes " blobs") else (
        l.objects,
        itoa (length l.objects) ++ codes " images (" ++ itoa (length l.blobs) ++ codes " blobs)",
      )
      else (l.objects, itoa (length l.objects) ++ codes " images")

  unfoldable pub listing_line : Listing → Text → Text
  listing_line l count =
      l.host
      ++ codes "  ["
      ++ l.engine
      ++ codes " :"
      ++ itoa l.port
      ++ codes "]  "
      ++ l.state
      ++ utf8 " — "
      ++ count
      ++ codes ", "
      ++ l.size
      ++ (if is_empty l.note then [] else codes "  (" ++ l.note ++ codes ")")

  unfoldable pub object_row : Object → List Text
  object_row o =
      if not (is_empty o.size) || not (is_empty o.detail)
      then (codes "    " ++ o.name) ∷ o.size ∷ o.detail ∷ []
      else (codes "    " ++ o.name) ∷ []

  -- the loop over the caches, with the bytes that were added up
  unfoldable pub show_listings : Bool → Bool → ℕ → List Listing → Run ℕ
  unfolding items_of listing_line object_row
  show_listings objects blobs grand [] = pure grand
  show_listings objects blobs grand (l ∷ ls) = do
    let (items, count) = items_of blobs l
    print_line (listing_line l count)
    if objects then print_table (map object_row items) else pure tt
    show_listings objects blobs (grand + l.bytes) ls

  -- `printList`
  unfoldable pub print_list : Text → Engine → Bool → Bool → Run Ending
  print_list name e objects blobs = do
    listings ← on_io (Walk.list (m.runtime name) m.web e)
    grand ← show_listings objects blobs 0 listings
    if ltb 0 grand then print_line (codes "\nblob-cache total: " ++ human_bytes grand) else pure tt
    pure returned
