-- ===== src/Blobcache/Kept.antt =====
-- That the requests to the proxy of internal/blobcache/blobcache.go lose no stored blob.
use regcachectl.Base.{
  ◌≡◌, ◌⊎◌, inl, inr, ◌∙◌, sym, ap, refl, true, ◌&&◌, List, [], ◌∷◌, ◌++◌, some, arith, Bool-cases,
}
use regcachectl.Text.{Text, eq}
use regcachectl.Text.Equality.{eq_iff}
use regcachectl.Dict.{get}
use regcachectl.Blobcache.Types.{Disk, Proxy, Request, Response, Reply, Machine}
use regcachectl.Blobcache.Route.{sha256}
use regcachectl.Blobcache.Record.{blob_name}
use regcachectl.Blobcache.Stream.{stream_and_cache}
use regcachectl.Blobcache.Serve.{serve_http}
use regcachectl.Blobcache.Integrity.{
  Stores, kept, stored, Grows, serve_http-Stores, serve_http-Grows, blob_name-append,
}
use regcachectl.Blobcache.Store.{FreshTemp, is_stored, get-stream_and_cache}

module _ (sha256_hex : Text → Text) where
  -- A file of that name, whose content has the hash that names it
  pub record IsVerified (n : Text) (d : Disk) : Type 0 where
    pub content : Text
    pub found : get n d.blobs ≡ some content
    pub hashed : sha256_hex content ≡ n

  -- Each blob of `d` is a blob of `e`, with its content or with one that has the hash that names it.
  pub record Keeps (d e : Disk) : Type 0 where
    pub each : (n c : Text) → get n d.blobs ≡ some c → (get n e.blobs ≡ some c) ⊎ IsVerified n e

  pub is_stored_hash :
      (m : Machine) (digest : Text) (resp : Response)
      → is_stored sha256_hex m digest resp ≡ true
      → sha256_hex resp.body ≡ blob_name digest
  unfolding is_stored
  is_stored_hash m digest resp h =
      let q : sha256 ++ sha256_hex resp.body ≡ digest =
        (eq_iff (sha256 ++ sha256_hex resp.body) digest).0 (ground arith) in
      sym (blob_name-append (sha256_hex resp.body)) ∙ ap blob_name q

  stream_and_cache-Keeps :
      (m : Machine) (digest : Text) (resp : Response) (d : Disk)
      → FreshTemp m d
      → Keeps d (stream_and_cache sha256_hex m digest resp d).0
  stream_and_cache-Keeps m digest resp d fresh = record {
    each = λ n c h.
        let after = get-stream_and_cache sha256_hex m digest resp d n fresh in
        elim (Bool-cases (is_stored sha256_hex m digest resp && eq (blob_name digest) n)) [
          | inl renewed ↦ inr (record {
            content = resp.body;
            found = rw renewed at after;
            hashed =
                is_stored_hash m digest resp (ground arith)
                ∙ (eq_iff (blob_name digest) n).0 (ground arith);
          })
          | inr same ↦ inl ((rw same at after) ∙ h)
        ];
  }

  moved : {d e f : Disk} → d.blobs ≡ e.blobs → Keeps d f → Keeps e f
  moved q k = record { each = λ n c h. k.each n c (rw q h) }

  renamed : {d e f : Disk} → e.blobs ≡ f.blobs → Keeps d e → Keeps d f
  renamed q k = record {
    each = λ n c h. elim (k.each n c h) [
      | inl same ↦ inl (rw q at same)
      | inr v ↦ inr (record { content = v.content; found = rw q at v.found; hashed = v.hashed })
    ];
  }

  Stores-Keeps : {d e : Disk} (m : Machine) → FreshTemp m d → Stores sha256_hex m d e → Keeps d e
  Stores-Keeps m fresh (kept q) = record { each = λ n c h. inl (rw q h) }
  Stores-Keeps m fresh (stored digest resp d' q a) =
      let fresh' : FreshTemp m d' = λ suffix made. rw q (fresh suffix made) in
      moved q (renamed (sym a) (stream_and_cache-Keeps m digest resp d' fresh'))

  -- No request loses a stored blob: whatever the request and whatever it meets, each stored blob
  -- is there afterwards, with the same content or with another whose hash names the file; and no
  -- other content comes to be stored than such whose hash names its file. The name of the
  -- temporary file is new.
  pub serve_http-Keeps :
      (stats : Disk → Reply) (p : Proxy) (m : Machine) (r : Request) (d : Disk)
      → FreshTemp m d
      → Keeps d (serve_http sha256_hex stats p m r d).disk
        × Grows sha256_hex d (serve_http sha256_hex stats p m r d).disk
  serve_http-Keeps stats p m r d fresh = (
    Stores-Keeps m fresh (serve_http-Stores sha256_hex stats p m r d),
    serve_http-Grows sha256_hex stats p m r d,
  )

  -- the disk after requests, each of which meets its own machine
  unfoldable pub serve_all : (Disk → Reply) → Proxy → List (Machine × Request) → Disk → Disk
  serve_all stats p [] d = d
  serve_all stats p ((m, r) ∷ rest) d =
      serve_all stats p rest (serve_http sha256_hex stats p m r d).disk

  pub serve_all-nil :
      (stats : Disk → Reply) (p : Proxy) (rs : List (Machine × Request)) (d : Disk)
      → rs ≡ []
      → serve_all stats p rs d ≡ d
  unfolding serve_all
  serve_all-nil stats p [] d h = refl
  serve_all-nil stats p (x ∷ rs) d h = cc

  -- At each request the name of the temporary file is new.
  abbrev pub AreFresh : (Disk → Reply) → Proxy → List (Machine × Request) → Disk → Type 0
  AreFresh stats p [] d = Unit
  AreFresh stats p ((m, r) ∷ rest) d =
      FreshTemp m d × AreFresh stats p rest (serve_http sha256_hex stats p m r d).disk

  Keeps-IsVerified : {d e : Disk} (n : Text) → Keeps d e → IsVerified n d → IsVerified n e
  Keeps-IsVerified n k v = elim (k.each n v.content v.found) [
    | inl same ↦ record { content = v.content; found = same; hashed = v.hashed }
    | inr renewed ↦ renewed
  ]

  -- A verified blob stays one over any requests.
  pub serve_all-IsVerified :
      (stats : Disk → Reply) (p : Proxy) (rs : List (Machine × Request)) (n : Text) (d : Disk)
      → AreFresh stats p rs d
      → IsVerified n d
      → IsVerified n (serve_all stats p rs d)
  unfolding serve_all
  serve_all-IsVerified stats p [] n d fresh v = v
  serve_all-IsVerified stats p ((m, r) ∷ rest) n d (fresh, later) v =
      serve_all-IsVerified stats p rest n (serve_http sha256_hex stats p m r d).disk later
        (Keeps-IsVerified n (serve_http-Keeps stats p m r d fresh).0 v)
