-- ===== src/Release/OnDisk.antt =====
-- `openStore` of internal/cache/coverage.go as `PullRelease` and `ReleaseCoverage` use it: the view of a
-- cache as a store, whose questions are answered as the world was when it was opened.
use regcachectl.Base.{Bool, false, Option, none}
use regcachectl.Base.Results.{Result, ok, err}
use regcachectl.Base.Stateful.{Stateful}
use regcachectl.Text.{Text}
use regcachectl.Upstream.{Upstream}
use regcachectl.Engine.{Engine}
use regcachectl.Io.{Runtime}
use regcachectl.Coverage.{Codec, Store}
use regcachectl.Coverage.Disk
use regcachectl.Coverage.Disk.{View}
use regcachectl.Client.{Network}
use regcachectl.Release.{World, view_manifest, view_blob}

abbrev or_no : Result Bool → Bool
or_no (ok b) = b
or_no (err x) = false

abbrev or_nothing : Result (Option Text) → Option Text
or_nothing (ok o) = o
or_nothing (err x) = none

module _ (rt : Runtime) (e : Engine) (net : Network) (c : Codec) (u : Upstream) where
  -- the answer of a view in a world
  abbrev asked {ℓ} : {A : Type ℓ} → World → View → Stateful View A → Result A
  asked w v m = (m (record v { history = w.history })).0

  unfoldable pub store_of : World → View → Store
  store_of w v = record {
    has_manifest = λ repo d. or_no (asked w v (Disk.has_manifest rt u repo d));
    has_blob = λ repo d. or_no (asked w v (Disk.has_blob rt u repo d));
    tag_digest = λ repo t. or_nothing (asked w v (Disk.tag_digest rt u repo t));
    read_manifest = λ repo d. (view_manifest e net c u repo d w).0;
    open_blob = λ repo d. (view_blob e net c u repo d w).0;
  }

  abbrev opened : World → Result View → Result Store
  opened w (ok v) = ok (store_of w v)
  opened w (err x) = err x

  unfoldable pub open_on_disk : Stateful World Store
  open_on_disk w =
      let (r, es) = Disk.open_store rt u e w.history in
      let w' = record w { history = es } in (opened w' r, w')
