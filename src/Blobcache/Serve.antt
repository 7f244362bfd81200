-- ===== src/Blobcache/Serve.antt =====
-- `ServeHTTP` and `serveBlob` of internal/blobcache/blobcache.go.
use regcachectl.Base.{
  ℕ, Bool, ◌&&◌, ◌||◌, List, [], ◌∷◌, ◌++◌, Option, none, some, if◌then◌else◌, ltb, leb,
}
use regcachectl.Base.Results.{Result, ok, err}
use regcachectl.Text.{Text, codes, eq, is_empty}
use regcachectl.Dict.{get}
use regcachectl.Blobcache.Types.{
  Disk, Proxy, Request, header, Response, upstream_host, signed_url, Outgoing, Reply, Machine,
  Served,
}
use regcachectl.Blobcache.Route.{match_blob, match_manifest}
use regcachectl.Blobcache.Record.{blob_name, record_repo, record_tag}
use regcachectl.Blobcache.Replies.{location_header, no_location, http_error, hit_reply}
use regcachectl.Blobcache.Stream.{stream_and_cache}

-- the pre-signed download, with no credentials
unfoldable pub download : Text → Outgoing
download loc = record { to = signed_url; url = loc; authorization = []; accept = [] }

unfoldable pub is_redirect : ℕ → Bool
is_redirect status = leb 300 status && ltb status 400

-- the request to the upstream, with the client's credentials
unfoldable pub upstream_request : Proxy → Request → Outgoing
upstream_request p r = record {
  to = upstream_host;
  url = p.upstream ++ r.path;
  authorization = r.authorization;
  accept = r.accept;
}

-- `httputil.ReverseProxy`: the request goes to the upstream as it came.
unfoldable pub relayed : Proxy → Machine → Request → Disk → Served
unfolding upstream_request
relayed p m r d = record { disk = d; sent = upstream_request p r ∷ []; reply = m.relay r }

unfoldable pub is_get : Request → Bool
is_get r = eq r.method (codes "GET")

unfoldable pub is_head : Request → Bool
is_head r = eq r.method (codes "HEAD")

unfoldable pub note_tag : Machine → Request → Option (Text × Text) → Disk → Disk
note_tag m r none d = d
note_tag m r (some (repo, ref)) d = if is_get r || is_head r then record_tag m repo ref d else d

unfoldable pub stats_path : Text
stats_path = codes "/_cache"

-- `sha256_hex` is SHA-256 in hexadecimal digits.
module _ (sha256_hex : Text → Text) where
  unfoldable pub finish : Machine → Text → List Outgoing → Result Response → Disk → Served
  finish m digest sent (err e) d = record { disk = d; sent = sent; reply = http_error e 502 }
  finish m digest sent (ok resp) d =
      let (d', reply) = stream_and_cache sha256_hex m digest resp d in
      record { disk = d'; sent = sent; reply = reply }

  unfoldable pub follow : Machine → Text → Outgoing → Text → Option Text → Disk → Served
  unfolding finish download
  follow m digest out loc (some e) d = record {
    disk = d;
    sent = out ∷ [];
    reply = http_error e 502;
  }
  follow m digest out loc none d =
      finish m digest (out ∷ download loc ∷ []) (m.answer (download loc)) d

  unfoldable pub answered : Machine → Text → Outgoing → Result Response → Disk → Served
  unfolding finish follow is_redirect
  answered m digest out (err e) d = record { disk = d; sent = out ∷ []; reply = http_error e 502 }
  answered m digest out (ok resp) d =
      let loc = header location_header resp.headers in
      if is_redirect resp.status
      then if is_empty loc
        then record { disk = d; sent = out ∷ []; reply = http_error no_location 502 }
        else follow m digest out loc (m.bad_url loc) d
      else finish m digest (out ∷ []) (ok resp) d

  unfoldable pub fetch : Proxy → Machine → Request → Text → Option Text → Disk → Served
  unfolding answered upstream_request
  fetch p m r digest (some e) d = record { disk = d; sent = []; reply = http_error e 502 }
  fetch p m r digest none d =
      let out = upstream_request p r in answered m digest out (m.answer out) d

  unfoldable pub look_up : Proxy → Machine → Request → Text → Option Text → Disk → Served
  unfolding fetch
  look_up p m r digest none d = fetch p m r digest (m.bad_url (p.upstream ++ r.path)) d
  look_up p m r digest (some content) d =
      if m.open_blob
      then record { disk = d; sent = []; reply = hit_reply digest content }
      else fetch p m r digest (m.bad_url (p.upstream ++ r.path)) d

  unfoldable pub serve_blob : Proxy → Machine → Request → Text → Text → Disk → Served
  unfolding look_up
  serve_blob p m r repo digest d =
      let d' = record_repo m digest repo d in
      look_up p m r digest (get (blob_name digest) d'.blobs) d'

  unfoldable pub blob_or_relay : Proxy → Machine → Request → Option (Text × Text) → Disk → Served
  unfolding relayed
  blob_or_relay p m r none d = relayed p m r d
  blob_or_relay p m r (some (repo, digest)) d =
      if is_get r then serve_blob p m r repo digest d else relayed p m r d

  -- `ServeHTTP`; `stats` is the reply of `serveStats`
  unfoldable pub serve_http : (Disk → Reply) → Proxy → Machine → Request → Disk → Served
  unfolding note_tag blob_or_relay
  serve_http stats p m r d =
      let d' = note_tag m r (match_manifest r.path) d in
      if eq r.path stats_path
      then record { disk = d; sent = []; reply = stats d }
      else blob_or_relay p m r (match_blob r.path) d'
