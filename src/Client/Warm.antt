-- ===== src/Client/Warm.antt =====
-- `warmImage`, `warmManifestBlobs` and `warmBlob` of internal/cache/pull.go.
use regcachectl.Base.{
  ℕ, ◌+◌, Bool, false, not, ◌&&◌, ◌||◌, List, [], ◌∷◌, ◌++◌, Option, none, some, if◌then◌else◌,
  ◌==◌, take, length, select,
}
use regcachectl.Base.Results.{Result, ok, err}
use regcachectl.Text.{Text, codes, slash, at_sign, is_empty, eq, mem, trim_space, itoa}
use regcachectl.Platform.{Child, IndexEntry, index_entries, platform_matches, is_index}
use regcachectl.Coverage.{Manifest, Codec}
use regcachectl.Coverage.Payload.{short_digest}
use regcachectl.Client.{
  Answer, Client, Session, Network, Action, pure, raise, lift, ◌>>=◌, send, with_token,
  get_manifest, blob_url,
}

-- `sync.Map.LoadOrStore` and `Delete`, on a set of keys
unfoldable pub store_key : Text → List Text → List Text
store_key k ks = if mem k ks then ks else k ∷ ks

unfoldable pub delete_key : Text → List Text → List Text
delete_key k [] = []
delete_key k (j ∷ ks) = let rest = delete_key k ks in if eq j k then rest else j ∷ rest

abbrev pub has_key : Text → Option (List Text) → Bool
has_key k none = false
has_key k (some ks) = mem k ks

-- what `LoadOrStore` reports: the key is there, stored by this warmer or by another one
abbrev pub is_loaded : Bool → Text → Option (List Text) → Bool
is_loaded by_other k none = false
is_loaded by_other k (some ks) = mem k ks || by_other

abbrev pub change_seen : (List Text → List Text) → Option (List Text) → Option (List Text)
change_seen f none = none
change_seen f (some ks) = some (f ks)

module _ (net : Network) (c : Codec) (pc : Client) where
  -- `seenKey`
  unfoldable pub seen_key : Text → Text
  seen_key digest = pc.base ++ slash ∷ (pc.repo ++ at_sign ∷ digest)

  unfoldable pub discarded : Text → Option Text → Result (Unit {0})
  discarded digest none = ok tt
  discarded digest (some e) = err (codes "stream blob " ++ short_digest digest ++ codes ": " ++ e)

  unfoldable pub blob_result : Text → Answer → Result (Unit {0})
  blob_result digest a =
      if not (a.status == 200)
      then err (
          codes "GET blob "
          ++ short_digest digest
          ++ codes ": HTTP "
          ++ itoa a.status
          ++ codes ": "
          ++ trim_space (take 512 a.body))
      else discarded digest a.broken

  -- `warmBlob`
  unfoldable pub warm_blob : Text → Action (Unit {0})
  unfolding lift ◌>>=◌
  warm_blob digest s =
      (send net (record {
        url = blob_url net c pc digest;
        accept = [];
        authorization = with_token net s;
      })
          >>= λ a. lift (blob_result digest a))
        s

  abbrev pub settle : Text → Result (Unit {0}) × Session → Result (Unit {0}) × Session
  settle k (ok tt, s) = (ok tt, s)
  settle k (err e, s) = (err e, record s { seen = change_seen (delete_key k) s.seen })

  -- the body of the loop over the digests
  unfoldable pub warm_digest : Text → Action (Unit {0})
  warm_digest d s =
      let stored = record s { seen = change_seen (store_key (seen_key d)) s.seen } in
      if is_loaded (net.claimed s.sent (seen_key d)) (seen_key d) s.seen
      then (ok tt, s)
      else settle (seen_key d) (warm_blob d stored)

  unfoldable pub warm_digests : List Text → Action (Unit {0})
  unfolding pure ◌>>=◌
  warm_digests [] = pure tt
  warm_digests (d ∷ ds) = warm_digest d >>= λ _. warm_digests ds

  -- the configuration, then the layers, less the empty digests
  unfoldable pub digests_of : Manifest → List Text
  digests_of m =
      let layers = select (λ l. not (is_empty l)) m.layers in
      if is_empty m.config then layers else m.config ∷ layers

  unfoldable pub warm_content : Result Manifest → Action ℕ
  unfolding pure raise ◌>>=◌
  warm_content (err e) = raise (codes "parse manifest: " ++ e)
  warm_content (ok m) = warm_digests (digests_of m) >>= λ _. pure (length (digests_of m))

  -- `warmManifestBlobs`
  unfoldable pub warm_manifest_blobs : Text → Action ℕ
  warm_manifest_blobs body = warm_content (c.manifest body)

  -- the loop over the children, with the manifests and the blobs that were counted
  unfoldable pub warm_children : Text → ℕ × ℕ → List IndexEntry → Action (ℕ × ℕ)
  unfolding pure ◌>>=◌
  warm_children platform st [] = pure st
  warm_children platform (manifests, blobs) (m ∷ ms) =
      let skipped = warm_children platform (manifests, blobs) ms in
      if not (platform_matches platform m.plat)
      then skipped
      else (get_manifest net c pc m.digest >>= λ (body, content_type).
          warm_manifest_blobs body >>= λ n. warm_children platform (manifests + 1, blobs + n) ms)

  unfoldable pub some_manifest : Text → Text → ℕ × ℕ → Action (ℕ × ℕ)
  unfolding pure raise
  some_manifest ref platform (manifests, blobs) =
      if manifests == 0 && not (is_empty platform)
      then raise (ref ++ codes " has no manifest for platform " ++ platform)
      else pure (manifests, blobs)

  unfoldable pub warm_index : Text → Text → Result (List Child) → Action (ℕ × ℕ)
  unfolding raise ◌>>=◌
  warm_index ref platform (err e) = raise (codes "parse manifest index: " ++ e)
  warm_index ref platform (ok cs) =
      warm_children platform (0, 0) (index_entries cs) >>= some_manifest ref platform

  unfoldable pub warm_top : Text → Text → Text × Text → Action (ℕ × ℕ)
  unfolding pure ◌>>=◌
  warm_top ref platform (body, content_type) =
      if not (is_index content_type)
      then (warm_manifest_blobs body >>= λ n. pure (1, n))
      else warm_index ref platform (c.index body)

  -- `warmImage`, less what it tells `each`: `warmStats` as a pair
  unfoldable pub warm_image : Text → Text → Action (ℕ × ℕ)
  unfolding ◌>>=◌
  warm_image ref platform = get_manifest net c pc ref >>= warm_top ref platform
