-- ===== src/Release.antt =====
-- internal/cache/release.go: warming the caches with a release, and checking on disk that it is there.
-- Here are the state that `PullRelease` and its warmers share, and the warming of one image.
pub mod Missing
pub mod Stored
pub mod Pull
pub mod Verified
pub mod Workers
pub mod Schedules
pub mod Returns
pub mod InOrder
pub mod OnDisk
pub mod Report
pub mod Image
pub mod Told
pub mod Claims
mod Tests
use regcachectl.Base.{
  ◌≡◌, refl, ℕ, ◌+◌, Bool, true, false, List, [], ◌∷◌, ◌++◌, Option, none, some, if◌then◌else◌,
  length,
}
use regcachectl.Base.Results.{Result, ok, err}
use regcachectl.Base.Stateful.{Stateful, pure, raise, lift, ◌>>=◌}
use regcachectl.Text.{Text, codes, utf8, is_empty, itoa}
use regcachectl.Text.Quote.{quoted}
use regcachectl.Upstream.{Upstream, upstream_for_host}
use regcachectl.Engine.{Engine, port}
use regcachectl.Io.{Event, History, logged}
use regcachectl.Reference.{ImageRef, parse_ref}
use regcachectl.Coverage.{Codec}
use regcachectl.Client.{Get, Client, Session, Network, Action, get_manifest}
use regcachectl.Client.Warm.{warm_image}
use regcachectl.Client.Layers.{open_blob}
use regcachectl.Coverage.Disk.{index_of}

-- the runtime's history with the lines that were written, the requests that were sent, and the set of
-- blobs that the warmers have marked as seen
pub record World : Type 0 where
  pub history : History
  pub sent : List Get
  pub seen : List Text

abbrev pub or_none : Option (List Text) → List Text
or_none none = []
or_none (some ks) = ks

-- `e.logf`
unfoldable pub log_line : Text → Stateful World (Unit {0})
log_line line w = (ok tt, record w { history = logged line ∷ w.history })

-- a new `sync.Map`
unfoldable pub fresh_seen : Stateful World (Unit {0})
fresh_seen w = (ok tt, record w { seen = [] })

-- `platformLabel`
pub platform_label : Text → Text
platform_label p = if is_empty p then codes "all platforms" else p

-- `pullClient`: the client of a cache for one repository
unfoldable pub pull_client : Engine → ℕ → Upstream → Text → Text → Client
pull_client e i u repo creds = record {
  base = codes "http://localhost:" ++ itoa (port e i u);
  repo = repo;
  creds = creds;
}

module _ {ℓ} {A : Type ℓ} where
  -- an action of a new client, whose token is lost behind it
  unfoldable pub with_client : Action A → Stateful World A
  with_client m w =
      let (r, s) = m (record { token = []; seen = some w.seen; sent = w.sent }) in
      (r, record w { seen = or_none s.seen; sent = s.sent })

-- `warmResult`, with the manifests and blobs that were counted
pub record WarmResult : Type 0 where
  pub ref : Text
  pub outcome : Result (ℕ × ℕ)

module _ (e : Engine) (net : Network) (c : Codec) (platform creds : Text) where
  unfoldable pub warm_host : ImageRef → Option (ℕ × Upstream) → Stateful World (ℕ × ℕ)
  unfolding raise
  warm_host p none = raise (codes "no cache for host " ++ quoted p.host)
  warm_host p (some (i, u)) =
      if u.blobcache
      then raise (p.host ++ codes " is served by the blob cache, which pull does not warm")
      else with_client (warm_image net c (pull_client e i u p.repo creds) p.ref platform)

  -- `warmRef`
  unfoldable pub warm_ref : Text → Stateful World (ℕ × ℕ)
  unfolding lift ◌>>=◌
  warm_ref ref = lift (parse_ref ref) >>= λ p. warm_host p (upstream_for_host p.host)

  abbrev pub status_of : Result (ℕ × ℕ) → Text
  status_of (ok (manifests, blobs)) = itoa blobs ++ codes " blobs"
  status_of (err x) = codes "FAILED: " ++ x

  pub progress_line : ℕ → ℕ → Text → Result (ℕ × ℕ) → Text
  progress_line done total ref outcome =
      codes "  ["
      ++ itoa done
      ++ codes "/"
      ++ itoa total
      ++ codes "] "
      ++ ref
      ++ utf8 " — "
      ++ status_of outcome

module _ {ℓ} {A : Type ℓ} where
  -- an action of a new client without a set of seen blobs
  unfoldable pub without_seen : Action A → Stateful World A
  without_seen m w =
      let (r, s) = m (record { token = []; seen = none; sent = w.sent }) in
      (r, record w { sent = s.sent })

module _ (e : Engine) (net : Network) (c : Codec) (u : Upstream) where
  -- `readManifest` and `openBlob` of `diskView`: they go through the cache's port
  unfoldable pub view_manifest : Text → Text → Stateful World (Text × Text)
  view_manifest repo digest =
      without_seen (get_manifest net c (pull_client e (index_of u) u repo []) digest)

  unfoldable pub view_blob : Text → Text → Stateful World (Text × Option Text)
  view_blob repo digest =
      without_seen (open_blob net c (pull_client e (index_of u) u repo []) digest)
