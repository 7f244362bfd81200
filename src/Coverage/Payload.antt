-- ===== src/Coverage/Payload.antt =====
-- `localPlatformManifest`, `localFileInLayers` and `releaseCoverage` of internal/cache/coverage.go.
use regcachectl.Base.{
  ℕ, zero, suc, not, ◌&&◌, List, [], ◌∷◌, ◌++◌, Option, none, some, take, reverse, ◌+◌,
  if◌then◌else◌, length,
}
use regcachectl.Base.Results.{Result, ok, err, wrap, ◌>>=◌}
use regcachectl.Text.{utf8, Text, codes, eq, is_empty, slash, colon, has_prefix, itoa}
use regcachectl.Platform.{Child, IndexEntry, index_entries, platform_matches, is_index, attestation}
use regcachectl.Upstream.{Upstream}
use regcachectl.Reference.{ImageRef}
use regcachectl.Coverage.Images.{image_references_path, parse_image_references}
use regcachectl.Coverage.Layer.{file_in_layer}
use regcachectl.Coverage.Count.{Coverage, payload_coverage}
use regcachectl.Coverage.{Codec, Store}

-- `ShortDigest`
pub short_digest : Text → Text
short_digest d = take (length (codes "sha256:") + 12) d

pub default_platform : Text
default_platform = codes "linux/amd64"

pub found_or : Option Text → Result Text → Result Text
found_or none rest = rest
found_or (some content) rest = ok content

-- the first child for the platform that is no attestation
unfoldable pub pick_child : Text → List IndexEntry → Option Text
pick_child want [] = none
pick_child want (m ∷ ms) =
    let rest = pick_child want ms in
    if not (eq m.plat attestation) && platform_matches want m.plat then some m.digest else rest

abbrev pub wanted : Text → Text
wanted platform = if is_empty platform then default_platform else platform

module _ (c : Codec) (v : Store) (repo : Text) where
  pub not_cached : Text → Text
  not_cached digest = repo ++ codes "@" ++ short_digest digest ++ codes " is not cached"

  pub no_platform : Text → Text → Text
  no_platform digest want =
      repo ++ codes "@" ++ short_digest digest ++ codes " has no manifest for platform " ++ want

  module _ (child : Text → Option (Result Text)) (digest platform : Text) where
    unfoldable pub from_pick : Option Text → Option (Result Text)
    from_pick none = some (err (no_platform digest (wanted platform)))
    from_pick (some d) = child d

    unfoldable pub from_index : Result (List Child) → Option (Result Text)
    from_index (err e) = some (err (codes "parse manifest index: " ++ e))
    from_index (ok cs) = from_pick (pick_child (wanted platform) (index_entries cs))

    unfoldable pub from_manifest : Result (Text × Text) → Option (Result Text)
    from_manifest (err e) = some (err e)
    from_manifest (ok (body, content_type)) =
        if not (is_index content_type) then some (ok body) else from_index (c.index body)

    unfoldable pub one_level : Option (Result Text)
    one_level =
        if not (v.has_manifest repo digest)
        then some (err (not_cached digest))
        else from_manifest (v.read_manifest repo digest)

  -- `localPlatformManifest`; an index within an index is followed `depth` levels down, and `none`
  -- says that there are more
  unfoldable pub platform_manifest : ℕ → Text → Text → Option (Result Text)
  platform_manifest zero digest platform = none
  platform_manifest (suc depth) digest platform =
      one_level (λ d. platform_manifest depth d []) digest platform

  pub layer_missing : Text → Text
  layer_missing d = codes "layer " ++ short_digest d ++ codes " is not cached"

  -- the loop over the layers, the last one first
  unfoldable pub file_in_layers : Text → List Text → List Text → Result Text
  file_in_layers file all [] = err (
      file
      ++ codes " not found in any of "
      ++ itoa (length all)
      ++ utf8 " layers — not a release image?")
  file_in_layers file all (d ∷ ds) =
      let rest = file_in_layers file all ds in
      if not (v.has_blob repo d) then err (layer_missing d) else (do
        (body, broken) ← v.open_blob repo d
        content ←
            wrap (λ e. codes "layer " ++ short_digest d ++ codes ": " ++ e)
              (file_in_layer c body broken file)
        found_or content rest)

  -- `localFileInLayers`
  unfoldable pub local_file_in_layers : Text → Text → Result Text
  local_file_in_layers manifest file = do
    m ← wrap (λ e. codes "parse manifest: " ++ e) (c.manifest manifest)
    file_in_layers file m.layers (reverse m.layers)

module _ (c : Codec) (v : Store) (u : Upstream) (p : ImageRef) (platform : Text) where
  pub no_cached_tag : Text
  no_cached_tag =
      codes "release "
      ++ p.host
      ++ slash ∷ p.repo
      ++ colon ∷ p.ref
      ++ utf8 " has no cached tag (a release pulled by digest has none: pass @sha256:…)"

  abbrev tag_or_error : Option Text → Result Text
  tag_or_error none = err no_cached_tag
  tag_or_error (some d) = ok d

  -- the digest of the release image
  unfoldable pub release_digest : Result Text
  release_digest =
      if has_prefix p.ref (codes "sha256:")
      then ok p.ref
      else tag_or_error (v.tag_digest p.repo p.ref)

  unfoldable pub payload_of : Result Text → Result (List Text)
  payload_of found = do
    manifest ← wrap (λ e. codes "release image: " ++ e) found
    raw ←
        wrap (λ e. codes "release image: " ++ e)
          (local_file_in_layers c v p.repo manifest image_references_path)
    parse_image_references c raw

  unfoldable pub coverage_of : Option (Result Text) → Option (Result Coverage)
  coverage_of none = none
  coverage_of (some found) = some (payload_of found >>= payload_coverage c v u platform)

  unfoldable pub coverage_at : ℕ → Result Text → Option (Result Coverage)
  coverage_at depth (err e) = some (err e)
  coverage_at depth (ok digest) = coverage_of (platform_manifest c v p.repo depth digest platform)

  -- `releaseCoverage`; of its two results the coverage counts only without an error
  unfoldable pub release_coverage : ℕ → Option (Result Coverage)
  release_coverage depth = coverage_at depth release_digest
