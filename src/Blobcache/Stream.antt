-- ===== src/Blobcache/Stream.antt =====
-- `streamAndCache` of internal/blobcache/blobcache.go.
use regcachectl.Base.{true, not, ◌||◌, ◌++◌, Option, none, some, if◌then◌else◌, ◌==◌}
use regcachectl.Base.Results.{Result, ok, err}
use regcachectl.Text.{Text, codes, eq}
use regcachectl.Dict.{put, remove}
use regcachectl.Blobcache.Types.{Disk, Response, Reply, Machine}
use regcachectl.Blobcache.Route.{sha256}
use regcachectl.Blobcache.Record.{blob_name}
use regcachectl.Blobcache.Replies.{http_error, miss_reply, relayed_reply}

unfoldable pub temp_prefix : Text
temp_prefix = codes "dl-"

-- `sha256_hex` is SHA-256 in hexadecimal digits.
module _ (sha256_hex : Text → Text) where
  -- behind the copy: the check of the digest and the rename of the temporary file, which is removed
  -- when the handler returns
  unfoldable pub commit : Machine → Text → Text → Text → Disk → Disk
  commit m digest temp body d =
      let dropped = record d { blobs = remove temp d.blobs } in
      let renamed = record d { blobs = put (blob_name digest) body (remove temp d.blobs) } in
      if eq (sha256 ++ sha256_hex body) digest
      then elim m.rename [ none ↦ renamed | some e ↦ dropped ]
      else dropped

  unfoldable pub copy : Machine → Text → Text → Response → Disk → Disk
  unfolding commit
  copy m digest temp resp d =
      let full = record d { blobs = put temp resp.body d.blobs } in
      if m.client_gone || resp.truncated
      then record d { blobs = remove temp full.blobs }
      else commit m digest temp resp.body full

  unfoldable pub into_temp : Machine → Text → Response → Result Text → Disk → Disk × Reply
  into_temp m digest resp (err e) d = (d, http_error e 500)
  into_temp m digest resp (ok suffix) d =
      (copy m digest (temp_prefix ++ suffix) resp d, miss_reply digest resp)

  unfoldable pub make_dir : Machine → Text → Response → Option Text → Disk → Disk × Reply
  unfolding into_temp
  make_dir m digest resp (some e) d = (d, http_error e 500)
  make_dir m digest resp none d =
      into_temp m digest resp m.temp_suffix (record d { blobs_dir = true })

  unfoldable pub stream_and_cache : Machine → Text → Response → Disk → Disk × Reply
  unfolding make_dir
  stream_and_cache m digest resp d =
      if not (resp.status == 200)
      then (d, relayed_reply resp)
      else make_dir m digest resp m.mkdir_blobs d
