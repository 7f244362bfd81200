-- ===== src/Client/Tests.antt =====
-- A network that answers 200 to everything, and the theorems about the client at it.
use regcachectl.Base.{◌≡◌, refl, false, [], ◌∷◌, none, some}
use regcachectl.Base.Results.{ok, err}
use regcachectl.Text.{codes, eq, mem, is_empty, has_prefix, strip}
use regcachectl.Platform.{is_index, oci_index, docker_list}
use regcachectl.Blobcache.Types.{header}
use regcachectl.Coverage.{Manifest, Codec}
use regcachectl.Client.{
  Client, Session, Network, pure, lift, ◌>>=◌, send, send_built, read_all, whole_body, get_url,
  again_if_401, manifest_answer, get_manifest,
}
use regcachectl.Client.Warm.{
  store_key, seen_key, discarded, blob_result, warm_blob, warm_digest, warm_digests, digests_of,
  warm_content, warm_manifest_blobs, warm_top, warm_image,
}
use regcachectl.Client.Fetched.{SeenAreFetched}
use regcachectl.Release.Image.{told_of}
use regcachectl.Release.Told.{Accounts, told_of-Accounts}
use regcachectl.Client.Warmed.{warm_image-SeenAreFetched}

abbrev two_blobs : Manifest
two_blobs = record { config = codes "conf"; layers = codes "layer" ∷ [] }

abbrev codec : Codec
codec = record {
  manifest = λ b. ok two_blobs;
  index = λ b. ok [];
  stream = λ b. err [];
  token = λ b. ok (codes "t", []);
  gzip_tar = λ b e. err [];
  plain_tar = λ b e. record { members = []; failure = none };
}

abbrev network : Network
network = record {
  bad_url = λ u. none;
  claimed = λ h k. false;
  answer = λ h g. ok (record { status = 200; headers = []; body = codes "b"; broken = none });
}

abbrev client : Client
client = record { base = codes "http://localhost:5002"; repo = codes "okd/scos"; creds = [] }

abbrev session : Session
session = record { token = []; seen = some []; sent = [] }

session-SeenAreFetched : SeenAreFetched network codec client session
unfolding mem
session-SeenAreFetched = record { fetched = λ d h. cc }

-- the same beside a warmer that has marked the layer
abbrev shared : Network
shared = record network { claimed = λ h k. eq k (codes "http://localhost:5002/okd/scos@layer") }

shared-SeenAreFetched : SeenAreFetched shared codec client session
unfolding mem
shared-SeenAreFetched = record { fetched = λ d h. cc }

warm_image-SeenAreFetched_example :
    SeenAreFetched shared codec client
      (warm_image shared codec client (codes "4.22") (codes "linux/amd64") session).1
warm_image-SeenAreFetched_example =
    warm_image-SeenAreFetched shared codec client (codes "4.22") (codes "linux/amd64") session
      shared-SeenAreFetched

image_warmed : (warm_image network codec client (codes "4.22") [] session).0 ≡ ok (1, 2)
unfolding warm_image get_manifest get_url send whole_body read_all again_if_401 manifest_answer
    warm_top is_index has_prefix strip oci_index docker_list header warm_manifest_blobs warm_content
    pure lift ◌>>=◌ warm_digests warm_digest digests_of warm_blob send_built blob_result discarded
    store_key seen_key mem eq is_empty
image_warmed = refl

told_of-Accounts_example :
    Accounts (0, 0) (1, 2) (told_of network codec client (codes "4.22") [] session)
told_of-Accounts_example =
    told_of-Accounts network codec client [] (codes "4.22") session (1, 2) image_warmed
