-- ===== src/Client/Warmed.antt =====
-- That `warmManifestBlobs` and `warmImage` of internal/cache/pull.go fetch what they say, and keep
-- the warmers' set of seen blobs true.
use regcachectl.Base.{◌≡◌, inl, inr, refl, ℕ, ◌+◌, List, [], ◌∷◌, All, Bool-cases}
use regcachectl.Base.Results.{Result, ok, err}
use regcachectl.Text.{Text}
use regcachectl.Platform.{Child, IndexEntry}
use regcachectl.Coverage.{Manifest, Codec}
use regcachectl.Client.{Client, Session, Network, pure, continue, ◌>>=◌}
use regcachectl.Client.Keeps.{
  Preserves, preserves_rules, Preserves-pure, Preserves-raise, Preserves-if, Preserves-bind,
  Preserves-get_manifest,
}
use regcachectl.Client.Warm.{
  is_loaded, seen_key, settle, warm_digest, warm_digests, warm_content, warm_manifest_blobs,
  warm_children, some_manifest, warm_index, warm_top, warm_image,
}
use regcachectl.Client.Fetched.{
  SeenAreFetched, SeenAreFetched-IsStable, warm_blob-IsWarmed, IsCovered, IsCovered-IsWarmed,
}
use regcachectl.Client.Steps.{IsStep, warm_digest-IsStep}

module _ (net : Network) (c : Codec) (pc : Client) where
  warm_digest-keeps_fetched :
      (d e : Text) → Preserves (λ s. IsCovered net c pc s.sent e) (warm_digest net c pc d)
  unfolding warm_digest
  warm_digest-keeps_fetched d e = record {
    at = λ s h.
        elim (Bool-cases
          (is_loaded (net.claimed s.sent (seen_key net c pc d)) (seen_key net c pc d) s.seen)) [
            | inl known ↦ rw known h
            | inr fresh ↦ rw fresh (
                settled s _ _
                  (IsCovered-IsWarmed net c pc d e _ _ _ (warm_blob-IsWarmed net c pc d _) h))
          ];
  }
    where
      settled :
          (s : Session) (r : Result (Unit {0})) (after : Session)
          → IsCovered net c pc after.sent e
          → IsCovered net c pc (settle net c pc (seen_key net c pc d) (r, after)).1.sent e
      settled s (ok tt) after h = h
      settled s (err x) after h = h

  warm_digests-keeps_fetched :
      (ds : List Text) (e : Text)
      → Preserves (λ s. IsCovered net c pc s.sent e) (warm_digests net c pc ds)
  unfolding warm_digests
  warm_digests-keeps_fetched [] e = Preserves-pure tt
  warm_digests-keeps_fetched (d ∷ ds) e =
      Preserves-bind _ _ (warm_digest-keeps_fetched d e) λ u. warm_digests-keeps_fetched ds e

  -- The loop over the digests: what is marked as seen stays true, and a loop that succeeds has
  -- fetched each of them, or left it to another warmer.
  record IsLoop (ds : List Text) (r : Result (Unit {0})) (after : Session) : Type 0 where
    pub seen : SeenAreFetched net c pc after
    pub fetched : r ≡ ok tt → All (IsCovered net c pc after.sent) ds

  warm_digests-IsLoop :
      (ds : List Text) (s : Session)
      → SeenAreFetched net c pc s
      → IsLoop ds (warm_digests net c pc ds s).0 (warm_digests net c pc ds s).1
  unfolding warm_digests pure ◌>>=◌
  warm_digests-IsLoop [] s h = record { seen = h; fetched = λ q. tt }
  warm_digests-IsLoop (d ∷ ds) s h =
      go (warm_digest net c pc d s).0 (warm_digest net c pc d s).1
        (warm_digest-IsStep net c pc d s h) (warm_digests-IsLoop ds (warm_digest net c pc d s).1)
    where
      go :
          (r : Result (Unit {0})) (s1 : Session)
          → IsStep net c pc d r s1
          → (SeenAreFetched net c pc s1
              → IsLoop ds (warm_digests net c pc ds s1).0 (warm_digests net c pc ds s1).1)
          → IsLoop
              (d ∷ ds)
              (continue r (λ u. warm_digests net c pc ds) s1).0
              (continue r (λ u. warm_digests net c pc ds) s1).1
      go (ok tt) s1 one rest = record {
        seen = (rest one.seen).seen;
        fetched = λ q.
            ((warm_digests-keeps_fetched ds d).at s1 (one.fetched refl), (rest one.seen).fetched q);
      }
      go (err x) s1 one rest = record { seen = one.seen; fetched = λ q. cc }

  warm_digests-keeps_seen :
      (ds : List Text) → Preserves (SeenAreFetched net c pc) (warm_digests net c pc ds)
  warm_digests-keeps_seen ds = record { at = λ s h. (warm_digests-IsLoop ds s h).seen }

  warm_manifest_blobs-keeps_seen :
      (body : Text) → Preserves (SeenAreFetched net c pc) (warm_manifest_blobs net c pc body)
  unfolding warm_manifest_blobs warm_content
  warm_manifest_blobs-keeps_seen body = go (c.manifest body)
    where
      go : (r : Result Manifest) → Preserves (SeenAreFetched net c pc) (warm_content net c pc r)
      go (err e) = Preserves-raise _
      go (ok m) = search (preserves_rules, warm_digests-keeps_seen)

  warm_children-keeps_seen :
      (platform : Text) (st : ℕ × ℕ) (ms : List IndexEntry)
      → Preserves (SeenAreFetched net c pc) (warm_children net c pc platform st ms)
  unfolding warm_children
  warm_children-keeps_seen platform st [] = Preserves-pure st
  warm_children-keeps_seen platform (k, n) (m ∷ ms) =
      Preserves-if _ _ _ (warm_children-keeps_seen platform (k, n) ms) (
        Preserves-bind _ _
          (Preserves-get_manifest net c pc (SeenAreFetched-IsStable net c pc) m.digest)
          λ (body, t).
            Preserves-bind _ _ (warm_manifest_blobs-keeps_seen body)
              λ b. warm_children-keeps_seen platform (k + 1, n + b) ms)

  warm_top-keeps_seen :
      (ref platform : Text) (a : Text × Text)
      → Preserves (SeenAreFetched net c pc) (warm_top net c pc ref platform a)
  unfolding warm_top warm_index some_manifest
  warm_top-keeps_seen ref platform (body, t) =
      Preserves-if _ (warm_manifest_blobs net c pc body >>= λ n. pure (1, n)) _
        (search (preserves_rules, warm_manifest_blobs-keeps_seen)) (go (c.index body))
    where
      go :
          (r : Result (List Child))
          → Preserves (SeenAreFetched net c pc) (warm_index net c pc ref platform r)
      go (err e) = Preserves-raise _
      go (ok cs) = search (preserves_rules, warm_children-keeps_seen)

  -- Whatever the network answers, whatever the other warmers mark and unmark in the shared map, and
  -- whether warming an image succeeds or fails half-way: if every blob that this warmer has marked as
  -- seen was fetched by it at the start, this is so at the end.
  pub warm_image-SeenAreFetched :
      (ref platform : Text) (s : Session)
      → SeenAreFetched net c pc s
      → SeenAreFetched net c pc (warm_image net c pc ref platform s).1
  unfolding warm_image
  warm_image-SeenAreFetched ref platform s h =
      (Preserves-bind _ _ (Preserves-get_manifest net c pc (SeenAreFetched-IsStable net c pc) ref)
          (warm_top-keeps_seen ref platform)).at
        s h
