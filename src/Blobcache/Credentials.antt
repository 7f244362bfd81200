-- ===== src/Blobcache/Credentials.antt =====
-- Where the proxy of internal/blobcache/blobcache.go sends the client's credentials, and what they
-- can change.
use regcachectl.Base.{
  ◌≡◌, ◌⊎◌, inl, inr, refl, Option, none, some, arith, List, [], ◌∷◌, Bool-cases, ◌++◌,
}
use regcachectl.Base.Results.{Result, ok, err}
use regcachectl.Text.{Text, is_empty}
use regcachectl.Dict.{get}
use regcachectl.Blobcache.Types.{
  Disk, Proxy, Request, Response, Outgoing, Reply, Machine, signed_url, header,
}
use regcachectl.Blobcache.Route.{match_blob, match_manifest}
use regcachectl.Blobcache.Record.{blob_name, record_repo}
use regcachectl.Blobcache.Replies.{location_header}
use regcachectl.Blobcache.Serve.{
  serve_http, serve_blob, look_up, fetch, answered, follow, finish, download, upstream_request,
  relayed, blob_or_relay, note_tag, is_redirect, is_get, is_head,
}

module _ (p : Proxy) (r : Request) where
  -- A request that the proxy sends is the client's own to the upstream, or a download without
  -- credentials.
  abbrev pub IsCareful : Outgoing → Type 0
  IsCareful o = (o ≡ upstream_request p r) ⊎ ((o.to ≡ signed_url) × (o.authorization ≡ []))

-- the same request without its credentials
abbrev pub anonymous : Request → Request
anonymous r = record r { authorization = [] }

module _ (sha256_hex : Text → Text) where
  disk-finish :
      (m : Machine) (digest : Text) (sent sent' : List Outgoing) (o : Result Response) (d : Disk)
      → (finish sha256_hex m digest sent o d).disk ≡ (finish sha256_hex m digest sent' o d).disk
  unfolding finish
  disk-finish m digest sent sent' (err e) d = refl
  disk-finish m digest sent sent' (ok resp) d = refl

  disk-answered :
      (m : Machine) (digest : Text) (out out' : Outgoing) (o : Result Response) (d : Disk)
      → (answered sha256_hex m digest out o d).disk ≡ (answered sha256_hex m digest out' o d).disk
  unfolding answered
  disk-answered m digest out out' (err e) d = refl
  disk-answered m digest out out' (ok resp) d =
      let loc = header location_header resp.headers in
      elim (Bool-cases (is_redirect resp.status)) [
        | inl away ↦ rw away (elim (Bool-cases (is_empty loc)) [
          | inl nowhere ↦ rw nowhere refl
          | inr there ↦ rw there (disk-follow (m.bad_url loc) loc)
        ])
        | inr stays ↦ rw stays refl
      ]
    where
      disk-follow :
          (b : Option Text) (loc : Text)
          → (follow sha256_hex m digest out loc b d).disk
            ≡ (follow sha256_hex m digest out' loc b d).disk
      disk-follow none loc =
          unfold follow in
          disk-finish m digest (out ∷ download loc ∷ []) (out' ∷ download loc ∷ [])
            (m.answer (download loc)) d
      disk-follow (some e) loc = unfold follow in refl

  disk-fetch-anonymous :
      (p : Proxy) (m : Machine) (r : Request) (digest : Text) (o : Option Text) (d : Disk)
      → m.answer (upstream_request p r) ≡ m.answer (upstream_request p (anonymous r))
      → (fetch sha256_hex p m r digest o d).disk
        ≡ (fetch sha256_hex p m (anonymous r) digest o d).disk
  unfolding fetch
  disk-fetch-anonymous p m r digest (some e) d same = refl
  disk-fetch-anonymous p m r digest none d same = rw same (
      disk-answered m digest (upstream_request p r) (upstream_request p (anonymous r))
        (m.answer (upstream_request p (anonymous r))) d)

  disk-look_up-anonymous :
      (p : Proxy) (m : Machine) (r : Request) (digest : Text) (o : Option Text) (d : Disk)
      → m.answer (upstream_request p r) ≡ m.answer (upstream_request p (anonymous r))
      → (look_up sha256_hex p m r digest o d).disk
        ≡ (look_up sha256_hex p m (anonymous r) digest o d).disk
  unfolding look_up
  disk-look_up-anonymous p m r digest none d same =
      disk-fetch-anonymous p m r digest (m.bad_url (p.upstream ++ r.path)) d same
  disk-look_up-anonymous p m r digest (some c) d same = elim (Bool-cases m.open_blob) [
    | inl opened ↦ simp opened refl
    | inr failed ↦
        simp failed (disk-fetch-anonymous p m r digest (m.bad_url (p.upstream ++ r.path)) d same)
  ]

  disk-blob_or_relay-anonymous :
      (p : Proxy) (m : Machine) (r : Request) (o : Option (Text × Text)) (d : Disk)
      → m.answer (upstream_request p r) ≡ m.answer (upstream_request p (anonymous r))
      → (blob_or_relay sha256_hex p m r o d).disk
        ≡ (blob_or_relay sha256_hex p m (anonymous r) o d).disk
  unfolding blob_or_relay serve_blob relayed is_get
  disk-blob_or_relay-anonymous p m r none d same = refl
  disk-blob_or_relay-anonymous p m r (some (repo, digest)) d same =
      let d' = record_repo m digest repo d in
      ground (arith, disk-look_up-anonymous p m r digest (get (blob_name digest) d'.blobs) d' same)

  -- The credentials of a request change what is stored only through the upstream's answer: if the
  -- upstream answers the same request without them alike, the disk is the same.
  pub disk_anonymous :
      (stats : Disk → Reply) (p : Proxy) (m : Machine) (r : Request) (d : Disk)
      → m.answer (upstream_request p r) ≡ m.answer (upstream_request p (anonymous r))
      → (serve_http sha256_hex stats p m r d).disk
        ≡ (serve_http sha256_hex stats p m (anonymous r) d).disk
  unfolding serve_http note_tag is_get is_head
  disk_anonymous stats p m r d same = ground (
    arith,
    disk-blob_or_relay-anonymous p m r (match_blob r.path) (note_tag m r (match_manifest r.path) d)
        same,
  )
