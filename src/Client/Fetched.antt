-- ===== src/Client/Fetched.antt =====
-- What the warmers' set of seen blobs means, and that `warmManifestBlobs` and `warmImage` of
-- internal/cache/pull.go keep it so.
use regcachectl.Base.{
  ◌≡◌, ◌⊎◌, inl, inr, refl, sym, ap, subst, true, List, [], ◌∷◌, ◌++◌, Option, none, some, arith,
  ◌==◌, Bool-cases, Option-cases,
}
use regcachectl.Base.Results.{Result, ok, err}
use regcachectl.Text.{Text}
use regcachectl.Coverage.{Codec}
use regcachectl.Client.{
  Get, Answer, Client, Session, Network, lift, continue, ◌>>=◌, send, send_built, with_token,
  blob_url,
}
use regcachectl.Client.Keeps.{IsStable}
use regcachectl.Client.Warm.{has_key, seen_key, discarded, blob_result, warm_blob}

module _ (net : Network) (c : Codec) (pc : Client) where
  -- Among the requests is one for the blob that was answered 200 and read to its end.
  pub record WasFetched (sent : List Get) (digest : Text) : Type 0 where
    pub newer : List Get
    pub get : Get
    pub older : List Get
    pub answer : Answer
    pub place : sent ≡ newer ++ get ∷ older
    pub url : get.url ≡ blob_url net c pc digest
    pub answered : net.answer older get ≡ ok answer
    pub status : answer.status ≡ 200
    pub complete : answer.broken ≡ none

  pub WasFetched-more :
      (g : Get) (sent : List Get) (d : Text) → WasFetched sent d → WasFetched (g ∷ sent) d
  WasFetched-more g sent d w = record {
    newer = g ∷ w.newer;
    get = w.get;
    older = w.older;
    answer = w.answer;
    place = ap (λ l. g ∷ l) w.place;
    url = w.url;
    answered = w.answered;
    status = w.status;
    complete = w.complete;
  }

  -- After some of the requests another warmer had the blob's key in the shared map.
  pub record WasClaimed (sent : List Get) (digest : Text) : Type 0 where
    pub newer : List Get
    pub older : List Get
    pub place : sent ≡ newer ++ older
    pub claimed : net.claimed older (seen_key net c pc digest) ≡ true

  -- fetched by this warmer, or left to another one
  abbrev pub IsCovered : List Get → Text → Type 0
  IsCovered sent digest = WasFetched sent digest ⊎ WasClaimed sent digest

  pub IsCovered-more :
      (g : Get) (sent : List Get) (d : Text) → IsCovered sent d → IsCovered (g ∷ sent) d
  IsCovered-more g sent d (inl w) = inl (WasFetched-more g sent d w)
  IsCovered-more g sent d (inr w) = inr (record {
    newer = g ∷ w.newer;
    older = w.older;
    place = ap (λ l. g ∷ l) w.place;
    claimed = w.claimed;
  })

  -- Every blob of this repository that this warmer has marked as seen was fetched.
  pub record SeenAreFetched (s : Session) : Type 0 where
    pub fetched : (d : Text) → has_key (seen_key net c pc d) s.seen ≡ true → WasFetched s.sent d

  pub SeenAreFetched-IsStable : IsStable SeenAreFetched
  SeenAreFetched-IsStable = record {
    token = λ s t h. record { fetched = h.fetched };
    request = λ s g h. record { fetched = λ d k. WasFetched-more g s.sent d (h.fetched d k) };
  }

  -- What `warm_blob` does to a session: it fetches the blob, or sends at most one request.
  pub record IsWarmed (d : Text) (s : Session) (r : Result (Unit {0})) (after : Session)
      : Type 0 where
    pub seen : after.seen ≡ s.seen
    pub sent : (after.sent ≡ s.sent) ⊎ ((g : Get) × (after.sent ≡ g ∷ s.sent))
    pub fetched : r ≡ ok tt → WasFetched after.sent d

  blob_result_lem :
      (d : Text) (a : Answer)
      → blob_result net c pc d a ≡ ok tt
      → (a.status ≡ 200) × (a.broken ≡ none)
  unfolding blob_result discarded
  blob_result_lem d a h = elim (Bool-cases (a.status == 200)) [
    | inr other ↦ absurd (cc (rw other at h))
    | inl fine ↦ elim (Option-cases a.broken) [
      | inl whole ↦ (ground arith, whole)
      | inr (e, broken) ↦ absurd (cc (rw (fine, broken) at h))
    ]
  ]

  answered-IsWarmed :
      (d : Text) (s : Session) (g : Get) (r : Result Answer)
      → g.url ≡ blob_url net c pc d
      → net.answer s.sent g ≡ r
      → IsWarmed d s
          (continue r (λ a. lift (blob_result net c pc d a)) (record s { sent = g ∷ s.sent })).0
          (continue r (λ a. lift (blob_result net c pc d a)) (record s { sent = g ∷ s.sent })).1
  unfolding lift
  answered-IsWarmed d s g (err e) u q = record {
    seen = refl;
    sent = inr (g, refl);
    fetched = λ h. cc;
  }
  answered-IsWarmed d s g (ok a) u q = record {
    seen = refl;
    sent = inr (g, refl);
    fetched = λ h.
        let (status, complete) = blob_result_lem d a h in
        record {
          newer = [];
          get = g;
          older = s.sent;
          answer = a;
          place = refl;
          url = u;
          answered = q;
          status = status;
          complete = complete;
        };
  }

  pub warm_blob-IsWarmed :
      (d : Text) (s : Session) → IsWarmed d s (warm_blob net c pc d s).0 (warm_blob net c pc d s).1
  unfolding warm_blob ◌>>=◌ send send_built
  warm_blob-IsWarmed d s = go (net.bad_url (blob_url net c pc d))
    where
      g : Get
      g = record { url = blob_url net c pc d; accept = []; authorization = with_token net s }

      go :
          (o : Option Text)
          → IsWarmed d s
              ((send_built net g o >>= λ a. lift (blob_result net c pc d a)) s).0
              ((send_built net g o >>= λ a. lift (blob_result net c pc d a)) s).1
      go (some e) = record { seen = refl; sent = inl refl; fetched = λ h. cc }
      go none = answered-IsWarmed d s g (net.answer s.sent g) refl refl

  pub WasFetched-IsWarmed :
      (d e : Text) (s : Session) (r : Result (Unit {0})) (after : Session)
      → IsWarmed d s r after
      → WasFetched s.sent e
      → WasFetched after.sent e
  WasFetched-IsWarmed d e s r after w f = elim w.sent [
    | inl same ↦ subst (λ (l : List Get). WasFetched l e) (sym same) f
    | inr (g, more) ↦
        subst (λ (l : List Get). WasFetched l e) (sym more) (WasFetched-more g s.sent e f)
  ]

  pub IsCovered-IsWarmed :
      (d e : Text) (s : Session) (r : Result (Unit {0})) (after : Session)
      → IsWarmed d s r after
      → IsCovered s.sent e
      → IsCovered after.sent e
  IsCovered-IsWarmed d e s r after w f = elim w.sent [
    | inl same ↦ subst (λ (l : List Get). IsCovered l e) (sym same) f
    | inr (g, more) ↦
        subst (λ (l : List Get). IsCovered l e) (sym more) (IsCovered-more g s.sent e f)
  ]
