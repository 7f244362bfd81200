-- ===== src/Client/Layers.antt =====
-- `platformManifest`, `findFileInLayers`, `fileInBlob` and `openBlob` of internal/cache/release.go.
use regcachectl.Base.{
  not, List, [], ◌∷◌, ◌++◌, Option, none, some, if◌then◌else◌, ◌==◌, take, length, reverse,
}
use regcachectl.Base.Results.{Result, ok, err, wrap}
use regcachectl.Text.{Text, codes, utf8, itoa, trim_space}
use regcachectl.Platform.{Child, index_entries, is_index}
use regcachectl.Coverage.{Manifest, Codec}
use regcachectl.Coverage.Payload.{short_digest, wanted, pick_child}
use regcachectl.Coverage.Images.{image_references_path, parse_image_references}
use regcachectl.Coverage.Layer.{file_in_layer}
use regcachectl.Client.{
  Answer, Client, Network, Action, pure, raise, lift, ◌>>=◌, send, with_token, get_manifest,
  blob_url,
}
use regcachectl.Client.Warm.{store_key, change_seen, seen_key, warm_manifest_blobs}

module _ {ℓ} {A : Type ℓ} where
  -- `fmt.Errorf("…: %w", err)` around an action
  unfoldable pub wrapped : (Text → Text) → Action A → Action A
  wrapped f m s = let (r, s') = m s in (wrap f r, s')

module _ (net : Network) (c : Codec) (pc : Client) where
  unfoldable pub opened : Text → Answer → Action (Text × Option Text)
  unfolding pure raise
  opened digest a =
      if not (a.status == 200)
      then raise (
          codes "GET blob "
          ++ short_digest digest
          ++ codes ": HTTP "
          ++ itoa a.status
          ++ codes ": "
          ++ trim_space (take 512 a.body))
      else pure (a.body, a.broken)

  -- `openBlob`
  unfoldable pub open_blob : Text → Action (Text × Option Text)
  unfolding ◌>>=◌
  open_blob digest s =
      (send net (record {
        url = blob_url net c pc digest;
        accept = [];
        authorization = with_token net s;
      })
          >>= opened digest)
        s

  -- `io.Copy(io.Discard, body)`
  unfoldable pub drain : Option Text → Action (Unit {0})
  unfolding pure raise
  drain none = pure tt
  drain (some e) = raise (codes "stream blob: " ++ e)

  -- `pc.seen.Store`
  unfoldable pub mark_seen : Text → Action (Unit {0})
  mark_seen digest s =
      (ok tt, record s { seen = change_seen (store_key (seen_key net c pc digest)) s.seen })

  unfoldable pub search_body : Text → Text → Text × Option Text → Action (Option Text)
  unfolding pure lift ◌>>=◌
  search_body digest path (body, broken) = lift (file_in_layer c body broken path) >>= λ content.
      drain broken >>= λ drained. mark_seen digest >>= λ marked. pure content

  -- `fileInBlob`
  unfoldable pub file_in_blob : Text → Text → Action (Option Text)
  unfolding ◌>>=◌
  file_in_blob digest path = open_blob digest >>= search_body digest path

  abbrev pub found_else : Action Text → Option Text → Action Text
  found_else rest none = rest
  found_else rest (some content) = pure content

  -- the loop over the layers, the last one first
  unfoldable pub find_in_layers : Text → List Text → List Text → Action Text
  unfolding raise ◌>>=◌
  find_in_layers path all [] = raise (
      path
      ++ codes " not found in any of "
      ++ itoa (length all)
      ++ utf8 " layers — not a release image?")
  find_in_layers path all (d ∷ ds) =
      wrapped (λ e. codes "layer " ++ short_digest d ++ codes ": " ++ e) (file_in_blob d path)
      >>= found_else (find_in_layers path all ds)

  unfoldable pub find_in_manifest : Text → Result Manifest → Action Text
  unfolding raise
  find_in_manifest path (err e) = raise (codes "parse manifest: " ++ e)
  find_in_manifest path (ok m) = find_in_layers path m.layers (reverse m.layers)

  -- `findFileInLayers`
  unfoldable pub find_file_in_layers : Text → Text → Action Text
  find_file_in_layers manifest path = find_in_manifest path (c.manifest manifest)

  unfoldable pub fetch_child : Text → Text → Option Text → Action Text
  unfolding pure raise ◌>>=◌
  fetch_child ref want none = raise (ref ++ codes " has no manifest for platform " ++ want)
  fetch_child ref want (some digest) =
      get_manifest net c pc digest >>= λ (body, content_type). pure body

  unfoldable pub resolve_index : Text → Text → Result (List Child) → Action Text
  unfolding raise
  resolve_index ref platform (err e) = raise (codes "parse manifest index: " ++ e)
  resolve_index ref platform (ok cs) =
      fetch_child ref (wanted platform) (pick_child (wanted platform) (index_entries cs))

  unfoldable pub resolve_manifest : Text → Text → Text × Text → Action Text
  unfolding pure
  resolve_manifest ref platform (body, content_type) =
      if not (is_index content_type) then pure body else resolve_index ref platform (c.index body)

  -- `platformManifest`
  unfoldable pub resolve_platform : Text → Text → Action Text
  unfolding ◌>>=◌
  resolve_platform ref platform = get_manifest net c pc ref >>= resolve_manifest ref platform

  -- what `PullRelease` reads of the release image: its payload; behind it its own blobs are warmed
  unfoldable pub read_payload : Text → Text → Action (List Text)
  unfolding pure lift wrapped ◌>>=◌
  read_payload ref platform = resolve_platform ref platform >>= λ manifest.
      find_file_in_layers manifest image_references_path >>= λ raw.
      lift (parse_image_references c raw) >>= λ refs.
      wrapped (λ e. codes "warm release image: " ++ e) (warm_manifest_blobs net c pc manifest)
      >>= λ n. pure refs
