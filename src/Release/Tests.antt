-- ===== src/Release/Tests.antt =====
-- A release with one image whose cache holds it, and the theorems about `PullRelease` of
-- internal/cache/release.go at it.
use regcachectl.Base.{
  ◌≡◌, ◌≢◌, ◌⊎◌, ℕ, zero, suc, ◌*◌, ◌<◌, ◌≤◌, refl, true, false, List, [], ◌∷◌, none, some, length,
  map, arith, get_elem?,
}
use regcachectl.Base.Results.{Result, ok, err}
use regcachectl.Base.Stateful.{Stateful, attempt, ok_bind}
use regcachectl.Base.Stateful
use regcachectl.Text.{
  Text, codes, eq, is_empty, strip, has_prefix, trim_prefix, has_byte, cut, cut_last, itoa, mem,
}
use regcachectl.Dict.{get, put}
use regcachectl.Upstream.{
  Upstream, dockerhub, ghcr, quay, f5, nvcr, upstreams, index_from, indexed, find_host,
  upstream_for_host,
}
use regcachectl.Engine.{Engine, base_port, port}
use regcachectl.Reference.{test_ref, is_registry, docker_io, latest, library, parse_ref}
use regcachectl.Platform.{oci_index, docker_list, is_index}
use regcachectl.Coverage.{
  Codec, Store, layers_on_disk, manifest_on_disk, blobs_on_disk, top_on_disk, image_on_disk,
}
use regcachectl.Coverage.Layer.{is_gzip, at_end, scan_members, file_in_layer}
use regcachectl.Coverage.Images.{
  image_references_path, distinct_images, some_images, stream_images, parse_image_references,
}
use regcachectl.Client.{
  Network, pure, raise, lift, ◌>>=◌, send_built, send, with_token, read_all, whole_body, get_url,
  manifest_answer, again_if_401, get_manifest,
}
use regcachectl.Blobcache.Types.{header}
use regcachectl.Io.{logged}
use regcachectl.Client.Warm.{
  store_key, delete_key, seen_key, discarded, blob_result, warm_blob, warm_digest, warm_digests,
  digests_of, warm_content, warm_manifest_blobs,
}
use regcachectl.Client.Layers.{
  wrapped, opened, open_blob, drain, mark_seen, search_body, file_in_blob, find_in_layers,
  find_in_manifest, find_file_in_layers, resolve_manifest, resolve_platform, read_payload,
}
use regcachectl.Release.{World, WarmResult, log_line, fresh_seen, pull_client, with_client}
use regcachectl.Release.Missing.{
  image_digest, view_for, is_full, note_missing, check_view, check_host, check_ref, missing_loop,
  missing_on_disk,
}
use regcachectl.Release.Stored.{IsStored, missing_on_disk_sound}
use regcachectl.Release.Pull.{
  note_failures, note_failure, note_outcome, note_results, not_on_disk, log_lines, report_failures,
  check_disk, rounds, verdict, log_done, log_warmed, warm_and_verify, pull_known, pull_release,
}
use regcachectl.Release.Verified.{IsPulled, pull_release_verified}
use regcachectl.Release.Workers.{
  Pool, start_pool, idle_workers, Step, take_next, finish, Run, start, next, IsFinal,
}
use regcachectl.Release.Schedules.{IsResult}
use regcachectl.Release.Claims.{
  Shared, Reached, begin, move, skip, claim, failed, idle_hands, Reached-exclusive,
}
use regcachectl.Release.Returns.{Run-returns, Run-progress}

abbrev codec : Codec
codec = record {
  manifest = λ b. ok (record { config = codes "conf"; layers = codes "layer" ∷ [] });
  index = λ b. err [];
  stream = λ b. ok (record {
    kind = codes "ImageStream";
    tags = record { kind = codes "DockerImage"; name = test_ref } ∷ [];
  });
  token = λ b. err [];
  gzip_tar = λ b e. err [];
  plain_tar = λ b e. record {
    members =
        record {
          name = codes "release-manifests/image-references";
          regular = true;
          content = ok (codes "{}");
        }
        ∷ [];
    failure = none;
  };
}

abbrev store : Store
store = record {
  has_manifest = λ r d. true;
  has_blob = λ r d. true;
  tag_digest = λ r t. some (codes "sha256:1");
  read_manifest = λ r d. ok (codes "{}", codes "application/json");
  open_blob = λ r d. ok (codes "tar", none);
}

abbrev network : Network
network = record {
  bad_url = λ u. none;
  claimed = λ h k. false;
  answer = λ h g. ok (record { status = 200; headers = []; body = codes "b"; broken = none });
}

abbrev engine : Engine
engine = record { image = []; port_base = 0; port_base_set = false; ports = []; proxy_ttl = [] }

abbrev world : World
world = record { history = []; sent = []; seen = [] }

abbrev open_store : Upstream → Stateful World Store
open_store u w = (ok store, w)

abbrev all_warmed : List Text → Stateful World (List WarmResult)
all_warmed refs w = (ok (map (λ r. record { ref = r; outcome = ok (1, 2) }) refs), w)

abbrev amd64 : Text
amd64 = codes "linux/amd64"

none_missing : (missing_on_disk open_store codec amd64 (test_ref ∷ []) world).0 ≡ ok []
unfolding missing_on_disk missing_loop check_ref check_host check_view note_missing is_full view_for
    image_digest Stateful.pure Stateful.◌>>=◌ parse_ref is_registry docker_io latest library cut
    cut_last has_byte eq is_empty upstream_for_host indexed index_from find_host upstreams dockerhub
    ghcr quay f5 nvcr get put image_on_disk top_on_disk blobs_on_disk manifest_on_disk
    layers_on_disk is_index oci_index docker_list has_prefix strip
none_missing = refl

listed : mem test_ref (test_ref ∷ []) ≡ true
unfolding mem eq
listed = refl

not_missing : mem test_ref [] ≡ false
unfolding mem
not_missing = refl

missing_on_disk_sound_example : IsStored open_store codec amd64 test_ref
missing_on_disk_sound_example =
    missing_on_disk_sound open_store codec amd64 (test_ref ∷ []) world [] test_ref none_missing
      listed not_missing

abbrev pulled : Stateful World (Unit {0})
pulled =
    pull_release open_store all_warmed (λ w. codes "1s") engine network codec amd64 4 test_ref []

payload_read :
    (w : World)
    → (with_client
        (read_payload network codec
          (pull_client engine 2 quay (codes "okd/scos-release") [])
          (codes "4.22")
          amd64)
        (record w { seen = [] })).0
      ≡ ok (test_ref ∷ [])
unfolding with_client pull_client quay read_payload resolve_platform resolve_manifest
    find_file_in_layers find_in_manifest find_in_layers file_in_blob search_body mark_seen drain
    open_blob opened wrapped warm_manifest_blobs warm_content digests_of warm_digests warm_digest
    warm_blob blob_result discarded seen_key store_key delete_key get_manifest again_if_401
    manifest_answer get_url whole_body read_all with_token send send_built pure raise lift ◌>>=◌
    parse_image_references stream_images some_images distinct_images image_references_path
    file_in_layer scan_members at_end is_gzip mem trim_prefix is_index oci_index docker_list
    has_prefix strip eq is_empty header itoa port get base_port
payload_read w = refl

payload_verified :
    (w : World)
    → (warm_and_verify open_store all_warmed
        (λ w. codes "1s")
        engine
        network
        codec
        amd64
        4
        test_ref
        (test_ref ∷ [])
        w).0
      ≡ ok tt
unfolding warm_and_verify verdict rounds check_disk report_failures log_lines not_on_disk
    note_failures note_failure note_results note_outcome log_line log_warmed log_done Stateful.pure
    Stateful.raise Stateful.lift Stateful.◌>>=◌ attempt fresh_seen missing_on_disk missing_loop
    check_ref check_host check_view note_missing is_full view_for image_digest parse_ref is_registry
    docker_io latest library cut cut_last has_byte eq is_empty upstream_for_host indexed index_from
    find_host upstreams dockerhub ghcr quay f5 nvcr get put image_on_disk top_on_disk blobs_on_disk
    manifest_on_disk layers_on_disk is_index oci_index docker_list has_prefix strip mem
payload_verified w = refl

abbrev begun : World
begun = record {
  history =
      logged (
        codes
          "reading release-manifests/image-references from quay.io/okd/scos-release:4.22 via :5002 ...")
      ∷ [];
  sent = [];
  seen = [];
}

pulled_ok : (pulled world).0 ≡ ok tt
unfolding pull_release pull_known parse_ref is_registry docker_io latest library cut cut_last
    has_byte eq is_empty upstream_for_host indexed index_from find_host upstreams dockerhub ghcr
    quay f5 nvcr fresh_seen log_line Stateful.◌>>=◌ Stateful.lift port base_port itoa get
    image_references_path
pulled_ok =
    ok_bind
      (with_client (
        read_payload network codec (pull_client engine 2 quay (codes "okd/scos-release") [])
          (codes "4.22") amd64))
      (warm_and_verify open_store all_warmed (λ w. codes "1s") engine network codec amd64 4
        test_ref)
      begun (test_ref ∷ []) tt (payload_read begun) payload_verified

pull_release_verified_example :
    IsPulled open_store all_warmed
      (λ w. codes "1s")
      engine
      network
      codec
      amd64
      test_ref
      []
      (pull_release open_store all_warmed
        (λ w. codes "1s")
        engine
        network
        codec
        amd64
        4
        test_ref
        []
        world).1
pull_release_verified_example =
    pull_release_verified open_store all_warmed (λ w. codes "1s") engine network codec amd64 4
      test_ref [] world pulled_ok

abbrev Warmed : Text → Result (ℕ × ℕ) → Type 0
Warmed ref o = o ≡ ok (1, 2)

abbrev warmed : WarmResult
warmed = record { ref = test_ref; outcome = ok (1, 2) }

-- a run with `jobs` zero, which is raised to one
one_warmed : (s : Pool) × Run Warmed (test_ref ∷ []) 0 2 s × IsFinal Warmed (test_ref ∷ []) s
unfolding start_pool idle_workers
one_warmed = (
  _,
  next (next start (take_next 0 refl (omega arith))) (finish 0 0 warmed refl refl refl),
  record { sent = refl; idle = idle },
)
  where
    idle : (w i : ℕ) → get_elem? (none ∷ []) w ≢ some (some i)
    idle zero i h = cc
    idle (suc w) i h = cc

Run-returns_example :
    (2 ≡ 2 * length (test_ref ∷ []))
    × ((i : ℕ)
        → i < length (test_ref ∷ [])
        → (r : WarmResult) × (one_warmed.0.results i ≡ some r)
          × IsResult Warmed (test_ref ∷ []) i r)
Run-returns_example = Run-returns one_warmed.1 one_warmed.2

Run-progress_example :
    (2 ≤ 2 * length (test_ref ∷ []))
    × (IsFinal Warmed (test_ref ∷ []) one_warmed.0
        ⊎ ((t : Pool) × Step Warmed (test_ref ∷ []) one_warmed.0 t))
Run-progress_example = Run-progress (λ ref. (ok (1, 2), refl)) one_warmed.1

abbrev key : Text
key = codes "http://localhost:5002/okd/scos@sha256:1"

-- The first warmer's fetch fails, and the second one, which has passed the blob over before, fetches it.
retried : (s : Shared) × Reached 2 s × (get_elem? s.hands 1 ≡ some (some key))
unfolding idle_hands store_key delete_key mem eq
retried = (
  _,
  move (move (move (move begin (claim 0 key refl refl)) (skip 1 key refl refl)) (failed 0 key refl))
      (claim 1 key refl refl),
  refl,
)

Reached-exclusive_example : ◌≡◌ {A = ℕ} 1 1
Reached-exclusive_example = Reached-exclusive 1 1 key retried.1 retried.2 retried.2
