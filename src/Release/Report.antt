-- ===== src/Release/Report.antt =====
-- `ReleaseCoverage` of internal/cache/coverage.go: how much of a release a cache holds, on the state `W`
-- of the world that `open_store` reads.
use regcachectl.Base.{ℕ, ◌++◌, Option, none, some, if◌then◌else◌}
use regcachectl.Base.Results.{Result}
use regcachectl.Base.Stateful.{Stateful, pure, raise, lift, ◌>>=◌}
use regcachectl.Text.{Text, codes}
use regcachectl.Text.Quote.{quoted}
use regcachectl.Upstream.{Upstream, upstream_for_host}
use regcachectl.Reference.{ImageRef, parse_ref}
use regcachectl.Coverage.{Codec, Store}
use regcachectl.Coverage.Count.{Coverage}
use regcachectl.Coverage.Payload.{release_coverage}

module _ {W : Type 0} (open_store : Upstream → Stateful W Store) (c : Codec) (platform : Text)
    (depth : ℕ) where
  unfoldable pub no_registry : ImageRef → Stateful W (Option (Result Coverage))
  no_registry p = raise (codes "no registry cache for host " ++ quoted p.host)

  -- the release is read through the view of the cache of its registry
  unfoldable pub report_from :
      ImageRef → Option (ℕ × Upstream) → Stateful W (Option (Result Coverage))
  report_from p none = no_registry p
  report_from p (some (i, u)) =
      if u.blobcache
      then no_registry p
      else (open_store u >>= λ v. pure (release_coverage c v u p platform depth))

  -- `ReleaseCoverage`; the inner result is that of `releaseCoverage`
  unfoldable pub report : Text → Stateful W (Option (Result Coverage))
  report ref = lift (parse_ref ref) >>= λ p. report_from p (upstream_for_host p.host)
