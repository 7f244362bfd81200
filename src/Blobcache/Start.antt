-- ===== src/Blobcache/Start.antt =====
-- `New` and `ListenAndServe` of internal/blobcache/blobcache.go: how the proxy comes up. `parse_url` gives
-- the scheme and the host of a URL, `mkdir_all` the error of making a directory.
use regcachectl.Base.{◌||◌, ◌++◌, Option, none, some, if◌then◌else◌}
use regcachectl.Base.Results.{Result, ok, err}
use regcachectl.Text.{Text, codes, is_empty}
use regcachectl.Text.Quote.{quoted}
use regcachectl.Blobcache.Types.{Proxy}

module _ (parse_url : Text → Result (Text × Text)) (mkdir_all : Text → Option Text) where
  abbrev with_dir : Proxy → Option Text → Result Proxy
  with_dir p none = ok p
  with_dir p (some e) = err e

  abbrev with_url : Text → Text → Result (Text × Text) → Result Proxy
  with_url upstream cache_dir (err e) =
      err (codes "parse upstream " ++ quoted upstream ++ codes ": " ++ e)
  with_url upstream cache_dir (ok (scheme, host)) =
      if is_empty scheme || is_empty host
      then err (codes "upstream " ++ quoted upstream ++ codes " must be an absolute URL")
      else with_dir (record { upstream = upstream; host = host }) (mkdir_all cache_dir)

  -- `New`, of a URL that is printed as it was given
  unfoldable pub new_proxy : Text → Text → Result Proxy
  new_proxy upstream cache_dir = with_url upstream cache_dir (parse_url upstream)

-- the line that `ListenAndServe` logs, less the time
unfoldable pub serving_line : Proxy → Text → Text → Text
serving_line p cache_dir addr =
    codes "blobcache: upstream="
    ++ p.upstream
    ++ codes " cache="
    ++ cache_dir
    ++ codes " listen="
    ++ addr
