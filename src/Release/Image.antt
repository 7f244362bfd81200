-- ===== src/Release/Image.antt =====
-- `Pull`, `pullOne` and `readNGCKey` of internal/cache/pull.go: warming the caches with single images.
use regcachectl.Base.{
  ℕ, ◌-◌, Bool, true, false, not, ◌&&◌, List, [], ◌∷◌, ◌++◌, Option, none, some, if◌then◌else◌,
  length,
}
use regcachectl.Base.Results.{Result, ok, err}
use regcachectl.Base.Stateful.{Stateful, pure, raise, lift, wrapped, ◌>>=◌, ◌>>◌}
use regcachectl.Text.{Text, codes, utf8, eq, is_empty, itoa, trim_space}
use regcachectl.Text.Quote.{quoted}
use regcachectl.Upstream.{Upstream, upstream_for_host, known_hosts}
use regcachectl.Engine.{Engine, port}
use regcachectl.Fleet.Query.{spaces}
use regcachectl.Reference.{ImageRef, parse_ref}
use regcachectl.Platform.{Child, IndexEntry, index_entries, is_index, platform_matches}
use regcachectl.Coverage.{Codec}
use regcachectl.Coverage.Payload.{short_digest}
use regcachectl.Client.{Client, Session, Network, get_manifest}
use regcachectl.Client.Warm.{warm_manifest_blobs, warm_image}
use regcachectl.Release.{World, log_line, pull_client, without_seen}

-- what `each` is told: a platform, a digest and a number of blobs
pub record Told : Type 0 where
  pub plat : Text
  pub digest : Text
  pub blobs : ℕ

-- `%-18s` of an ASCII text
pub pad18 : Text → Text
pad18 s = s ++ spaces (18 - length s)

pub told_line : Told → Text
told_line t =
    utf8 "  • "
    ++ pad18 t.plat
    ++ codes " "
    ++ short_digest t.digest
    ++ codes " ("
    ++ itoa t.blobs
    ++ codes " blobs)"

module _ (net : Network) (c : Codec) (pc : Client) where
  abbrev told_if : Text → Text → Result ℕ → List Told
  told_if plat digest (ok n) = record { plat = plat; digest = digest; blobs = n } ∷ []
  told_if plat digest (err e) = []

  abbrev warmed_from : Result (Text × Text) × Session → Result ℕ × Session
  warmed_from (ok (body, content_type), s) = warm_manifest_blobs net c pc body s
  warmed_from (err e, s) = (err e, s)

  -- What is told of one child, the session behind it, and whether the loop goes on.
  abbrev told_child : Text → IndexEntry → Session → List Told × (Session × Bool)
  told_child platform m s =
      let warmed = warmed_from (get_manifest net c pc m.digest s) in
      if not (platform_matches platform m.plat)
      then ([], (s, true))
      else (told_if m.plat m.digest warmed.0, (warmed.1, is_ok warmed.0))
    where
      is_ok : Result ℕ → Bool
      is_ok (ok n) = true
      is_ok (err e) = false

  -- What `warmImage` tells `each` of the children of an index: the ones that it warms, up to the first
  -- that fails.
  unfoldable pub told_children : Text → List IndexEntry → Session → List Told
  told_children platform [] s = []
  told_children platform (m ∷ ms) s =
      let (told, (s', goes_on)) = told_child platform m s in
      let rest = told_children platform ms s' in told ++ (if goes_on then rest else [])

  abbrev told_index : Text → Session → Result (List Child) → List Told
  told_index platform s (ok cs) = told_children platform (index_entries cs) s
  told_index platform s (err e) = []

  abbrev told_top : Text → Text → Result (Text × Text) × Session → List Told
  told_top ref platform (err e, s) = []
  told_top ref platform (ok (body, content_type), s) =
      if not (is_index content_type)
      then told_if (codes "single-platform") ref (warm_manifest_blobs net c pc body s).0
      else told_index platform s (c.index body)

  -- what `warmImage` tells `each`
  unfoldable pub told_of : Text → Text → Session → List Told
  unfolding told_children
  told_of ref platform s = told_top ref platform (get_manifest net c pc ref s)

unfoldable pub log_told : List Told → Stateful World (Unit {0})
log_told [] = pure tt
log_told (t ∷ ts) = log_line (told_line t) >> log_told ts

-- `readNGCKey`, of what is in `~/.ngc` where that can be read
unfoldable pub read_ngc_key : Option Text → Text
read_ngc_key none = []
read_ngc_key (some content) = trim_space content

-- `nvcr.io` always needs credentials
unfoldable pub default_creds : Option Text → Text → Text → Result Text
unfolding read_ngc_key
default_creds ngc host creds =
    let key = read_ngc_key ngc in
    if not (is_empty creds && eq host (codes "nvcr.io"))
    then ok creds
    else if not (is_empty key)
    then ok (codes "$oauthtoken:" ++ key)
    else err (
        codes
          "nvcr.io needs credentials: pass --creds '$oauthtoken:<key>' or put the key in ~/.ngc")

module _ (ngc : Option Text) (e : Engine) (net : Network) (c : Codec) where
  -- `warmImage` through a new client, and the lines for what it tells
  unfoldable pub warm_and_tell : Client → Text → Stateful World (ℕ × ℕ)
  unfolding ◌>>=◌ lift
  warm_and_tell pc ref w =
      let told = told_of net c pc ref [] (record { token = []; seen = none; sent = w.sent }) in
      let (r, w') = without_seen (warm_image net c pc ref []) w in
      (log_told told >>= λ _. lift r) w'

  unfoldable pub pull_through : ImageRef → Text → ℕ → Upstream → Stateful World (Unit {0})
  pull_through p creds i u = do
    let name = p.host ++ codes "/" ++ p.repo
    log_line (
        codes "warming "
        ++ name
        ++ codes ":"
        ++ p.ref
        ++ codes " (all platforms) via :"
        ++ itoa (port e i u)
        ++ codes " ...")
    counted ← warm_and_tell (pull_client e i u p.repo creds) p.ref
    log_line (
        codes "done: "
        ++ name
        ++ utf8 " — "
        ++ itoa counted.0
        ++ codes " manifest(s), "
        ++ itoa counted.1
        ++ codes " blobs cached on :"
        ++ itoa (port e i u))

  unfoldable pub pull_known : ImageRef → Text → Option (ℕ × Upstream) → Stateful World (Unit {0})
  pull_known p creds none =
      raise (
        codes "no cache for host "
        ++ quoted p.host
        ++ codes " (known: "
        ++ known_hosts
        ++ codes ")")
  pull_known p creds (some (i, u)) = do
    key ← lift (default_creds ngc p.host creds)
    pull_through p key i u

  -- `pullOne`
  unfoldable pub pull_one : Text → Text → Stateful World (Unit {0})
  pull_one raw creds = do p ← lift (parse_ref raw); pull_known p creds (upstream_for_host p.host)

  -- `Pull`
  unfoldable pub pull : List Text → Text → Stateful World (Unit {0})
  pull [] creds = pure tt
  pull (raw ∷ refs) creds =
      wrapped (λ x. codes "pull " ++ raw ++ codes ": " ++ x) (pull_one raw creds) >> pull refs creds
