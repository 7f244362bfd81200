-- ===== src/Blobcache/Types.antt =====
-- The state of the proxy of internal/blobcache/blobcache.go, a request, and what a request meets:
-- the answers of the upstream and of the download host, and the outcome of each file operation.
use regcachectl.Base.{ℕ, Bool, false, List, [], ◌∷◌, Option, if◌then◌else◌}
use regcachectl.Base.Results.{Result}
use regcachectl.Text.{Text, eq}
use regcachectl.Dict.{Dict}

-- The directories `blobs`, `repos` and `tags` below `cacheDir`: file name to content. A temporary
-- download is a file of `blobs`. The flags say whether the first and the last directory exist.
pub record Disk : Type 0 where
  pub blobs_dir : Bool
  pub blobs : Dict Text
  pub repos : Dict Text
  pub tags_dir : Bool
  pub tags : Dict Text

abbrev pub empty_disk : Disk
empty_disk = record { blobs_dir = false; blobs = []; repos = []; tags_dir = false; tags = [] }

pub record Proxy : Type 0 where
  pub upstream : Text
  pub host : Text

pub record Request : Type 0 where
  pub method : Text
  pub path : Text
  pub authorization : Text
  pub accept : Text

abbrev pub Headers : Type 0
Headers = List (Text × Text)

-- `http.Header.Get`: the first value, or the empty text
unfoldable pub header : Text → Headers → Text
header k [] = []
header k ((j, v) ∷ h) = if eq j k then v else header k h

-- `truncated`: reading the body ends in an error behind the bytes of `body`.
pub record Response : Type 0 where
  pub status : ℕ
  pub headers : Headers
  pub body : Text
  pub truncated : Bool

pub data Peer : Type 0 where
  upstream_host signed_url : Peer

-- A request that the proxy sends.
pub record Outgoing : Type 0 where
  pub to : Peer
  pub url : Text
  pub authorization : Text
  pub accept : Text

-- What the client is answered: written by the proxy, or relayed by the reverse proxy.
pub record Reply : Type 0 where
  pub status : ℕ
  pub headers : Headers
  pub body : Text

-- The file operations on a sidecar: reading it, making its directory, opening it to append.
pub record SidecarIo : Type 0 where
  pub readable : Bool
  pub mkdir : Bool
  pub open_file : Bool

-- What one request meets. `none` and `true` stand for success.
pub record Machine : Type 0 where
  pub tag_io : SidecarIo
  pub repo_io : SidecarIo
  pub open_blob : Bool
  pub bad_url : Text → Option Text
  pub answer : Outgoing → Result Response
  pub relay : Request → Reply
  pub mkdir_blobs : Option Text
  pub temp_suffix : Result Text
  pub client_gone : Bool
  pub rename : Option Text

pub record Served : Type 0 where
  pub disk : Disk
  pub sent : List Outgoing
  pub reply : Reply
