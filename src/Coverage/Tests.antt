-- ===== src/Coverage/Tests.antt =====
-- A store that holds an image with one child, and the theorems about stores at it.
use regcachectl.Base.{
  ◌≡◌, ◌↔◌, ◌+◌, ◌≤◌, true, false, refl, List, [], ◌∷◌, Option, none, some, if◌then◌else◌, ◌&&◌,
  length, some_of, sym, subst, ap, ◌∙◌,
}
use regcachectl.Base.Results.{Result, ok, err}
use regcachectl.Text.{
  Text, codes, eq, mem, is_empty, strip, trim_prefix, has_prefix, count, has_byte, cut, cut_last,
  split, join, is_space,
}
use regcachectl.Upstream.{quay}
use regcachectl.Reference.{
  ImageRef, parse_ref, is_registry, docker_io, latest, library, test_ref, tagged,
}
use regcachectl.Platform.{
  Child, index_entries, platform_name, attestation, platform_matches, is_index, oci_index,
  docker_list,
}
use regcachectl.Coverage.{
  ImageStream, Codec, Store, layers_on_disk, manifest_on_disk, blobs_on_disk, child_on_disk,
  children_on_disk, index_on_disk, top_on_disk, image_on_disk,
}
use regcachectl.Coverage.Complete.{IsComplete}
use regcachectl.Coverage.Decides.{image_on_disk_iff}
use regcachectl.Coverage.Count.{
  Coverage, count_image, count_ref, count_refs, payload_coverage, payload_coverage_counts,
  payload_coverage_sound,
}
use regcachectl.Coverage.Images.{
  AreDistinct, is_image, distinct_images, some_images, stream_images, stream_images_iff,
}
use regcachectl.Dict.{get}
use regcachectl.Engine.{container}
use regcachectl.Io.{ran, Runtime, trimmed}
use regcachectl.Text.Paths.{fields, clean, dir, base_name}
use regcachectl.Coverage.Disk.{
  View, layer_links, revision_links, tag_args, blob_of, has_blob, has_manifest, tag_digest,
  tag_answer,
}
use regcachectl.Coverage.Views.{IsSteady, linked, IsCurrent, Answers, view_answers}
use regcachectl.Coverage.Payload.{pick_child}
use regcachectl.Coverage.Levels.{IsFlat}

abbrev amd64 : Text
amd64 = codes "linux/amd64"

abbrev plain : Text
plain = codes "application/vnd.oci.image.manifest.v1+json"

abbrev leaf_child : Child
leaf_child = record {
  digest = codes "leaf";
  os = codes "linux";
  arch = codes "amd64";
  variant = [];
}

abbrev images : ImageStream
images = record {
  kind = codes "ImageStream";
  tags =
      record { kind = codes "DockerImage"; name = test_ref }
      ∷ record { kind = codes "DockerImage"; name = test_ref }
      ∷ record { kind = codes "Other"; name = codes "x" }
      ∷ [];
}

abbrev codec : Codec
codec = record {
  manifest = λ b. ok (record { config = codes "conf"; layers = codes "layer" ∷ [] });
  index = λ b. ok (leaf_child ∷ []);
  stream = λ b. ok images;
  token = λ b. ok (codes "t", []);
  gzip_tar = λ b e. ok (record { members = []; failure = none });
  plain_tar = λ b e. record {
    members = record { name = codes "x"; regular = true; content = ok (codes "{}") } ∷ [];
    failure = none;
  };
}

abbrev store : Store
store = record {
  has_manifest = λ r d. true;
  has_blob = λ r d. true;
  tag_digest = λ r t. some (codes "sha256:1");
  read_manifest =
      λ r d. if eq d (codes "leaf") then ok (codes "{}", plain) else ok (codes "[]", oci_index);
  open_blob = λ r d. ok (codes "tar", none);
}

on_disk_full : (image_on_disk codec store (codes "okd") (codes "4.22") amd64).full ≡ true
unfolding image_on_disk top_on_disk index_on_disk children_on_disk child_on_disk blobs_on_disk
    manifest_on_disk layers_on_disk is_index oci_index docker_list has_prefix strip eq index_entries
    platform_name attestation platform_matches is_empty count trim_prefix
on_disk_full = refl

image_on_disk_iff_example :
    ((image_on_disk codec store (codes "okd") (codes "4.22") amd64).full ≡ true)
    ↔ IsComplete codec store (codes "okd") (codes "4.22") amd64
image_on_disk_iff_example = image_on_disk_iff codec store (codes "okd") (codes "4.22") amd64

abbrev all_full : Coverage
all_full = record {
  cache = codes "quay";
  total = 1;
  full = 1;
  manifest_only = 0;
  missing = [];
  elsewhere = 0;
}

counted_full : payload_coverage codec store quay amd64 (test_ref ∷ []) ≡ ok all_full
unfolding payload_coverage count_refs count_ref count_image quay parse_ref is_registry docker_io
    latest library cut cut_last has_byte image_on_disk top_on_disk index_on_disk children_on_disk
    child_on_disk blobs_on_disk manifest_on_disk layers_on_disk is_index oci_index docker_list
    has_prefix strip eq index_entries platform_name attestation platform_matches is_empty count
    trim_prefix
counted_full = refl

payload_coverage_counts_example :
    (all_full.total ≡ length (test_ref ∷ []))
    × (all_full.full + length all_full.missing + all_full.elsewhere ≡ all_full.total)
    × (all_full.manifest_only ≤ length all_full.missing)
payload_coverage_counts_example =
    payload_coverage_counts codec store quay amd64 (test_ref ∷ []) all_full counted_full

abbrev scos : ImageRef
scos = record { host = codes "quay.io"; repo = codes "okd/scos-release"; ref = codes "4.22" }

listed : mem test_ref (test_ref ∷ []) ≡ true
unfolding mem eq
listed = refl

quay_host : scos.host ≡ quay.host
unfolding quay
quay_host = refl

none_missing : mem test_ref [] ≡ false
unfolding mem
none_missing = refl

payload_coverage_sound_example :
    IsComplete codec store (codes "okd/scos-release") (codes "4.22") amd64
payload_coverage_sound_example =
    payload_coverage_sound codec store quay amd64 (test_ref ∷ []) all_full test_ref scos
      counted_full listed tagged quay_host none_missing

two_listed : stream_images images ≡ ok (test_ref ∷ [])
unfolding stream_images some_images distinct_images eq mem is_empty
two_listed = refl

stream_images_iff_example :
    AreDistinct (test_ref ∷ [])
    × ((r : Text) → is_empty r ≡ false → mem r (test_ref ∷ []) ≡ some_of (is_image r) images.tags)
stream_images_iff_example = stream_images_iff images (test_ref ∷ []) two_listed

leaf_picked : pick_child amd64 (index_entries (leaf_child ∷ [])) ≡ some (codes "leaf")
unfolding pick_child index_entries platform_name attestation platform_matches is_empty count eq
    has_prefix strip trim_prefix
leaf_picked = refl

leaf_read : store.read_manifest (codes "okd") (codes "leaf") ≡ ok (codes "{}", plain)
unfolding eq
leaf_read = refl

plain_kind : is_index plain ≡ false
unfolding is_index oci_index docker_list has_prefix strip
plain_kind = refl

abbrev digest_or : Option Text → Text
digest_or none = []
digest_or (some d) = d

abbrev kind_or : Result (Text × Text) → Text
kind_or (err e) = []
kind_or (ok (body, kind)) = kind

abbrev children_or : Result (List Child) → List Child
children_or (err e) = []
children_or (ok cs) = cs

store-IsFlat : IsFlat codec store (codes "okd") (codes "4.22") amd64
unfolding is_empty
store-IsFlat = record {
  leaf = λ body t cs d b u q w p r.
      let children : leaf_child ∷ [] ≡ cs = ap children_or w in
      let picked : codes "leaf" ≡ d = ap digest_or (
        sym leaf_picked
        ∙ subst (λ (l : List Child). pick_child amd64 (index_entries l) ≡ some d) (sym children)
            p) in
      let kind : plain ≡ u = ap kind_or (
        sym leaf_read
        ∙ subst (λ (m : Text). store.read_manifest (codes "okd") m ≡ ok (b, u)) (sym picked) r) in
      subst (λ (k : Text). is_index k ≡ false) kind plain_kind;
}

abbrev steady_runtime : Runtime
steady_runtime es ev = ok (codes "ab")

steady : IsSteady steady_runtime
steady = record { same = λ es ev. refl }

abbrev stored_blobs : List Text
stored_blobs = codes "sha256:ab" ∷ []

-- a view that has listed nothing yet
abbrev new_view : View
new_view = record { history = []; blobs = stored_blobs; revs = []; layers = [] }

new_view-IsCurrent : IsCurrent steady_runtime quay stored_blobs new_view
unfolding get
new_view-IsCurrent = record { stored = refl; layer_lists = λ r l h. cc; rev_lists = λ r l h. cc }

abbrev okd : Text
okd = codes "okd/scos-release"

view_answers_example :
    Answers steady_runtime quay steady stored_blobs
      (mem (codes "sha256:ab") stored_blobs
        && mem (codes "sha256:ab") (linked steady_runtime quay okd layer_links))
      (has_blob steady_runtime quay okd (codes "sha256:ab") new_view).0
      (has_blob steady_runtime quay okd (codes "sha256:ab") new_view).1
    × Answers steady_runtime quay steady stored_blobs
        (mem (codes "sha256:ab") stored_blobs
          && mem (codes "sha256:ab") (linked steady_runtime quay okd revision_links))
        (has_manifest steady_runtime quay okd (codes "sha256:ab") new_view).0
        (has_manifest steady_runtime quay okd (codes "sha256:ab") new_view).1
    × Answers steady_runtime quay steady stored_blobs
        (tag_answer
          (trimmed (steady_runtime [] (ran (tag_args (container quay) okd (codes "4.22"))))))
        (tag_digest steady_runtime quay okd (codes "4.22") new_view).0
        (tag_digest steady_runtime quay okd (codes "4.22") new_view).1
view_answers_example =
    view_answers steady_runtime quay steady stored_blobs okd (codes "sha256:ab") (codes "4.22")
      new_view new_view-IsCurrent

-- the paths that `find` prints
blob_named :
    blob_of (codes "/var/lib/registry/docker/registry/v2/blobs/sha256/ab/abcd/data")
    ≡ codes "sha256:abcd"
unfolding blob_of dir base_name clean cut_last split eq is_empty join
blob_named = refl

three_fields : fields (codes " a\tbc \n d") ≡ codes "a" ∷ codes "bc" ∷ codes "d" ∷ []
unfolding fields is_space is_empty
three_fields = refl
