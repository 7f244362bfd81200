-- ===== src/Client.antt =====
-- `pullClient` of internal/cache/pull.go: the client's state, a GET and the token exchange. The
-- network is a parameter: what it answers may depend on all the requests that were sent before.
pub mod Challenge
pub mod Warm
pub mod Layers
pub mod Keeps
pub mod Fetched
pub mod Steps
pub mod Warmed
mod Tests
use regcachectl.Base.{
  ◌≡◌, refl, ℕ, ◌+◌, Bool, true, false, not, ◌&&◌, ◌||◌, List, [], ◌∷◌, ◌++◌, Option, none, some,
  if◌then◌else◌, ◌==◌, take, drop, length,
}
use regcachectl.Base.Results.{Result, ok, err}
use regcachectl.Text.Quote.{quoted}
use regcachectl.Text.{
  Text, codes, slash, colon, at_sign, is_empty, has_prefix, to_lower, trim_space, itoa, cut,
}
use regcachectl.Dict.{Dict, get}
use regcachectl.Blobcache.Escape.{query_escape}
use regcachectl.Blobcache.Types.{Headers, header}
use regcachectl.Platform.{manifest_accept}
use regcachectl.Coverage.{Codec}
use regcachectl.Client.Challenge.{parse_challenge, field, path_escape, clip}

pub data Authorization : Type 0 where
  anonymous : Authorization
  bearer : Text → Authorization
  basic : Text → Text → Authorization

pub record Get : Type 0 where
  pub url : Text
  pub accept : Text
  pub authorization : Authorization

-- `broken` is the error of reading the body behind the bytes of `body`.
pub record Answer : Type 0 where
  pub status : ℕ
  pub headers : Headers
  pub body : Text
  pub broken : Option Text

-- `pullClient` less `token` and `seen`, which change
pub record Client : Type 0 where
  pub base : Text
  pub repo : Text
  pub creds : Text

-- `token`, `seen` and what was sent, the newest first. The map `seen` is shared by the warmers that
-- run at the same time: `seen` names the keys of it that this warmer has stored (`none` where the
-- map is nil), and `claimed` of the network those that another one has.
pub record Session : Type 0 where
  pub token : Text
  pub seen : Option (List Text)
  pub sent : List Get

-- `http.NewRequest` on a URL, `http.Client.Do`, and the keys of the shared map that another warmer
-- has stored, as it fetches the blob or has fetched it, when this one has sent these requests
pub record Network : Type 0 where
  pub bad_url : Text → Option Text
  pub answer : List Get → Get → Result Answer
  pub claimed : List Get → Text → Bool

abbrev pub Action {ℓ} : Type ℓ → Type ℓ
Action A = Session → Result A × Session

module _ {ℓ} {A : Type ℓ} where
  unfoldable pub pure : A → Action A
  pure a s = (ok a, s)

  unfoldable pub raise : Text → Action A
  raise e s = (err e, s)

  unfoldable pub lift : Result A → Action A
  lift r s = (r, s)

module _ {ℓ κ} {A : Type ℓ} {B : Type κ} where
  abbrev pub continue : Result A → (A → Action B) → Action B
  continue (ok a) f s = f a s
  continue (err e) f s = (err e, s)

  infixl 5 ◌>>=◌
  unfoldable pub ◌>>=◌ : Action A → (A → Action B) → Action B
  ◌>>=◌ m f s = let (r, s') = m s in continue r f s'

module _ (net : Network) where
  unfoldable pub send_built : Get → Option Text → Action Answer
  send_built g (some e) s = (err e, s)
  send_built g none s = (net.answer s.sent g, record s { sent = g ∷ s.sent })

  -- `http.NewRequest` and `hc.Do`
  unfoldable pub send : Get → Action Answer
  unfolding send_built
  send g = send_built g (net.bad_url g.url)

  -- `if pc.token != ""`
  unfoldable pub with_token : Session → Authorization
  with_token s = if is_empty s.token then anonymous else bearer s.token

  unfoldable pub read_all : Answer → Option Text → Action Answer
  unfolding pure raise
  read_all a (some e) = raise e
  read_all a none = pure a

  -- `io.ReadAll`
  unfoldable pub whole_body : Answer → Action Answer
  unfolding read_all
  whole_body a = read_all a a.broken

  -- `get`
  unfoldable pub get_url : Text → Text → Action Answer
  unfolding ◌>>=◌
  get_url url accept s =
      (send (record { url = url; accept = accept; authorization = with_token s }) >>= whole_body) s

module _ (net : Network) (c : Codec) (pc : Client) where
  abbrev pub first_token : Text × Text → Text
  first_token (token, access_token) = if is_empty token then access_token else token

  -- what `authenticate` keeps of the answer of the token endpoint
  unfoldable pub keep_token : Text → Result (Text × Text) → Action (Unit {0})
  keep_token realm (err e) s = (err (codes "parse token response: " ++ e), s)
  keep_token realm (ok tokens) s =
      let token = first_token tokens in
      (
        if is_empty token then err (codes "empty token from " ++ realm) else ok tt,
        record s { token = token },
      )

  unfoldable pub token_answer : Text → Answer → Action (Unit {0})
  unfolding raise
  token_answer realm a =
      if not (a.status == 200)
      then raise (
          codes "token request to "
          ++ realm
          ++ codes ": HTTP "
          ++ itoa a.status
          ++ codes ": "
          ++ trim_space a.body)
      else keep_token realm (c.token a.body)

  abbrev pub user_and_password : Option (Text × Text) → Authorization
  user_and_password none = basic pc.creds []
  user_and_password (some (user, pass)) = basic user pass

  unfoldable pub basic_auth : Authorization
  basic_auth = if is_empty pc.creds then anonymous else user_and_password (cut colon pc.creds)

  -- `q.Encode()`: the keys in order
  unfoldable pub encode_query : Text → Text → Text
  encode_query scope service =
      let a = codes "scope=" ++ query_escape scope in
      let b = codes "service=" ++ query_escape service in
      if is_empty scope
      then (if is_empty service then [] else b)
      else if is_empty service
      then a
      else a ++ b'&' ∷ b

  unfoldable pub token_url : Text → Text → Text
  token_url realm query = if is_empty query then realm else realm ++ b'?' ∷ query

  unfoldable pub ask_token : Dict Text → Text → Action (Unit {0})
  unfolding ◌>>=◌
  ask_token p realm =
      send net (record {
        url = token_url realm (encode_query (field (codes "scope") p) (field (codes "service") p));
        accept = [];
        authorization = basic_auth;
      })
      >>= token_answer realm

  abbrev pub realm_of : Dict Text → Text
  realm_of p = field (codes "realm") p

  unfoldable pub authenticate : Text → Action (Unit {0})
  unfolding raise
  authenticate challenge =
      let p = parse_challenge (drop (length (codes "Bearer ")) challenge) in
      if not (has_prefix (to_lower challenge) (codes "bearer "))
      then raise (codes "unsupported auth challenge " ++ quoted challenge)
      else if is_empty (realm_of p)
      then raise (codes "auth challenge missing realm: " ++ quoted challenge)
      else ask_token p (realm_of p)

  pub manifest_url : Text → Text
  manifest_url ref = pc.base ++ codes "/v2/" ++ pc.repo ++ codes "/manifests/" ++ path_escape ref

  pub blob_url : Text → Text
  blob_url digest = pc.base ++ codes "/v2/" ++ pc.repo ++ codes "/blobs/" ++ digest

  unfoldable pub manifest_answer : Text → Answer → Action (Text × Text)
  unfolding pure raise
  manifest_answer ref a =
      if not (a.status == 200)
      then raise (
          codes "GET manifest "
          ++ ref
          ++ codes ": HTTP "
          ++ itoa a.status
          ++ codes ": "
          ++ clip (trim_space a.body) 200)
      else pure (a.body, header (codes "Content-Type") a.headers)

  -- once more behind the token exchange, where the first answer was 401
  unfoldable pub again_if_401 : Text → Answer → Action Answer
  unfolding pure ◌>>=◌
  again_if_401 ref a =
      if not (a.status == 401)
      then pure a
      else (authenticate (header (codes "Www-Authenticate") a.headers) >>= λ _.
          get_url net (manifest_url ref) manifest_accept)

  -- `getManifest`
  unfoldable pub get_manifest : Text → Action (Text × Text)
  unfolding ◌>>=◌
  get_manifest ref =
      get_url net (manifest_url ref) manifest_accept >>= again_if_401 ref >>= manifest_answer ref
