-- ===== src/Client/Keeps.antt =====
-- Invariants of a client's session: one rule for each way to build an action of
-- internal/cache/pull.go.
use regcachectl.Base.{Bool, true, false, ◌∷◌, Option, none, some, if◌then◌else◌}
use regcachectl.Base.Results.{Result, ok, err}
use regcachectl.Text.{Text}
use regcachectl.Coverage.{Codec}
use regcachectl.Client.{
  Get, Answer, Client, Session, Network, Action, pure, raise, continue, ◌>>=◌, send, with_token,
  send_built, read_all, whole_body, get_url, keep_token, token_answer, ask_token, authenticate,
  manifest_answer, again_if_401, get_manifest,
}

-- `m` preserves `Q`, whether it succeeds or fails.
pub record Preserves {ℓ} {A : Type ℓ} (Q : Session → Type 0) (m : Action A) : Type ℓ where
  pub at : (s : Session) → Q s → Q (m s).1

-- `Q` does not read the token, and outlasts a request.
pub record IsStable (Q : Session → Type 0) : Type 0 where
  pub token : (s : Session) (t : Text) → Q s → Q (record s { token = t })
  pub request : (s : Session) (g : Get) → Q s → Q (record s { sent = g ∷ s.sent })

module _ {ℓ} {A : Type ℓ} {Q : Session → Type 0} where
  pub Preserves-pure : (a : A) → Preserves Q (pure a)
  unfolding pure
  Preserves-pure a = record { at = λ s h. h }

  pub Preserves-raise : (e : Text) → Preserves Q (raise {A = A} e)
  unfolding raise
  Preserves-raise e = record { at = λ s h. h }

  pub Preserves-if :
      (b : Bool) (m n : Action A) → Preserves Q m → Preserves Q n → Preserves Q (if b then m else n)
  Preserves-if true m n km kn = km
  Preserves-if false m n km kn = kn

module _ {ℓ κ} {A : Type ℓ} {B : Type κ} {Q : Session → Type 0} where
  pub Preserves-bind :
      (m : Action A) (f : A → Action B)
      → Preserves Q m
      → ((a : A) → Preserves Q (f a))
      → Preserves Q (m >>= f)
  unfolding ◌>>=◌
  Preserves-bind m f km kf = record { at = λ s h. go (m s).0 (m s).1 (km.at s h) }
    where
      go : (r : Result A) (s : Session) → Q s → Q (continue r f s).1
      go (ok a) s h = (kf a).at s h
      go (err e) s h = h

pub ruleset preserves_rules = (Preserves-pure, Preserves-raise, Preserves-if, Preserves-bind)

module _ (net : Network) (c : Codec) (pc : Client) {Q : Session → Type 0} (q : IsStable Q) where
  pub Preserves-send : (g : Get) → Preserves Q (send net g)
  unfolding send send_built
  Preserves-send g = go (net.bad_url g.url)
    where
      go : (o : Option Text) → Preserves Q (send_built net g o)
      go (some e) = record { at = λ s h. h }
      go none = record { at = λ s h. q.request s g h }

  Preserves-whole_body : (a : Answer) → Preserves Q (whole_body net a)
  unfolding whole_body read_all
  Preserves-whole_body a = go a.broken
    where
      go : (o : Option Text) → Preserves Q (read_all net a o)
      go (some e) = Preserves-raise e
      go none = Preserves-pure a

  pub Preserves-get_url : (url accept : Text) → Preserves Q (get_url net url accept)
  unfolding get_url
  Preserves-get_url url accept = record {
    at = λ s h.
        (Preserves-bind
            (send net (record { url = url; accept = accept; authorization = with_token net s }))
            (whole_body net) (Preserves-send _) Preserves-whole_body).at
          s h;
  }

  Preserves-keep_token :
      (realm : Text) (r : Result (Text × Text)) → Preserves Q (keep_token net c pc realm r)
  unfolding keep_token
  Preserves-keep_token realm (err e) = record { at = λ s h. h }
  Preserves-keep_token realm (ok (t, u)) = record { at = λ s h. q.token s _ h }

  Preserves-token_answer : (realm : Text) (a : Answer) → Preserves Q (token_answer net c pc realm a)
  unfolding token_answer
  Preserves-token_answer realm a = search (preserves_rules, Preserves-keep_token)

  Preserves-authenticate : (challenge : Text) → Preserves Q (authenticate net c pc challenge)
  unfolding authenticate ask_token
  Preserves-authenticate challenge =
      search (preserves_rules, Preserves-send, Preserves-token_answer)

  pub Preserves-get_manifest : (ref : Text) → Preserves Q (get_manifest net c pc ref)
  unfolding get_manifest again_if_401 manifest_answer
  Preserves-get_manifest ref = search (preserves_rules, Preserves-get_url, Preserves-authenticate)
