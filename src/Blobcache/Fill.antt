-- ===== src/Blobcache/Fill.antt =====
-- A miss that is stored, and the hits behind it (internal/blobcache/blobcache.go).
use regcachectl.Base.{◌≡◌, refl, true, false, none, some, arith, [], ◌∙◌, ◌++◌, sym, List, subst}
use regcachectl.Base.Results.{ok}
use regcachectl.Text.{Text, is_empty}
use regcachectl.Text.Equality.{eq_refl}
use regcachectl.Dict.{get}
use regcachectl.Blobcache.Types.{Disk, Proxy, Request, Response, Reply, Machine, header}
use regcachectl.Blobcache.Route.{match_blob, match_manifest}
use regcachectl.Blobcache.Record.{blob_name, record_repo}
use regcachectl.Blobcache.Replies.{location_header, hit_reply}
use regcachectl.Blobcache.Stream.{stream_and_cache}
use regcachectl.Blobcache.Serve.{
  serve_http, serve_blob, look_up, fetch, answered, follow, finish, download, upstream_request,
  note_tag, is_redirect, is_get,
}
use regcachectl.Blobcache.Integrity.{blobs-record_repo, blobs-note_tag}
use regcachectl.Blobcache.Store.{
  FreshTemp, is_stored, get-stream_and_cache, serve_http_blob, serve_http_hit,
}
use regcachectl.Blobcache.Kept.{
  IsVerified, AreFresh, serve_all, serve_all-nil, serve_all-IsVerified, is_stored_hash,
}

-- The answer whose body the client is sent: the upstream's own, or that of the download to which
-- the upstream redirects.
pub data Delivers (p : Proxy) (m : Machine) (r : Request) (resp : Response) : Type 0 where
  direct :
      m.answer (upstream_request p r) ≡ ok resp
      → is_redirect resp.status ≡ false
      → Delivers p m r resp
  redirected :
      (first : Response)
      → m.answer (upstream_request p r) ≡ ok first
      → is_redirect first.status ≡ true
      → is_empty (header location_header first.headers) ≡ false
      → m.bad_url (header location_header first.headers) ≡ none
      → m.answer (download (header location_header first.headers)) ≡ ok resp
      → Delivers p m r resp

same_value : {a b : Text} → some a ≡ some b → a ≡ b
same_value h = cc

module _ (sha256_hex : Text → Text) where
  disk-fetch :
      (p : Proxy) (m : Machine) (r : Request) (digest : Text) (resp : Response) (d : Disk)
      → Delivers p m r resp
      → (fetch sha256_hex p m r digest none d).disk
        ≡ (stream_and_cache sha256_hex m digest resp d).0
  unfolding fetch answered follow finish
  disk-fetch p m r digest resp d (direct a stays) = rw a (rw stays refl)
  disk-fetch p m r digest resp d (redirected first a away there good b) =
      rw a (rw away (rw there (rw good (rw b refl))))

  -- A GET of a blob that is not on the disk, for which an answer is delivered, leaves the disk as
  -- `streamAndCache` does on that answer.
  disk-serve_blob_miss :
      (p : Proxy) (m : Machine) (r : Request) (repo digest : Text) (resp : Response) (d : Disk)
      → get (blob_name digest) d.blobs ≡ none
      → m.bad_url (p.upstream ++ r.path) ≡ none
      → Delivers p m r resp
      → (serve_blob sha256_hex p m r repo digest d).disk
        ≡ (stream_and_cache sha256_hex m digest resp (record_repo m digest repo d)).0
  unfolding serve_blob look_up
  disk-serve_blob_miss p m r repo digest resp d absent good v =
      let missing : get (blob_name digest) (record_repo m digest repo d).blobs ≡ none =
        rw (blobs-record_repo m digest repo d) absent in
      rw (missing, good) (disk-fetch p m r digest resp (record_repo m digest repo d) v)

  -- A miss whose answer, direct or behind one redirect, is complete and has the digest's hash is
  -- stored.
  get-serve_http_miss :
      (stats : Disk → Reply) (p : Proxy) (m : Machine) (r : Request) (d : Disk) (repo digest : Text)
      (resp : Response)
      → is_get r ≡ true
      → match_blob r.path ≡ some (repo, digest)
      → get (blob_name digest) d.blobs ≡ none
      → m.bad_url (p.upstream ++ r.path) ≡ none
      → Delivers p m r resp
      → FreshTemp m d
      → is_stored sha256_hex m digest resp ≡ true
      → get (blob_name digest) (serve_http sha256_hex stats p m r d).disk.blobs ≡ some resp.body
  get-serve_http_miss stats p m r d repo digest resp g h absent good v fresh whole =
      let d₁ = note_tag m r (match_manifest r.path) d in
      let d₂ = record_repo m digest repo d₁ in
      let same : d₂.blobs ≡ d.blobs =
        blobs-record_repo m digest repo d₁ ∙ blobs-note_tag m r (match_manifest r.path) d in
      let absent₁ : get (blob_name digest) d₁.blobs ≡ none =
        rw (blobs-note_tag m r (match_manifest r.path) d) absent in
      let fresh₂ : FreshTemp m d₂ = λ suffix made. rw same (fresh suffix made) in
      let after : (serve_http sha256_hex stats p m r d).disk
          ≡ (stream_and_cache sha256_hex m digest resp d₂).0 =
        rw (serve_http_blob sha256_hex stats p m r d repo digest g h)
          (disk-serve_blob_miss p m r repo digest resp d₁ absent₁ good v) in
      let found : get (blob_name digest) (stream_and_cache sha256_hex m digest resp d₂).0.blobs
          ≡ some resp.body =
        ground (
          arith,
          get-stream_and_cache sha256_hex m digest resp d₂ (blob_name digest) fresh₂,
          eq_refl (blob_name digest),
        ) in
      rw after found

  -- A miss whose answer, direct or behind one redirect, is complete and has the digest's hash is
  -- stored for good: after any further requests, each on its own machine and with whatever answers,
  -- a GET of that digest, under whatever repository and with whatever credentials, is a hit from
  -- the disk, with nothing asked upstream, and the content that it answers has the hash of the
  -- body that was stored. If it follows directly, it answers that body. The names of the temporary
  -- files are new, and the file can be opened.
  pub serve_http_fill :
      (stats : Disk → Reply) (p : Proxy) (m m' : Machine) (r r' : Request) (d : Disk)
      (rs : List (Machine × Request)) (repo repo' digest : Text) (resp : Response)
      → is_get r ≡ true
      → match_blob r.path ≡ some (repo, digest)
      → get (blob_name digest) d.blobs ≡ none
      → m.bad_url (p.upstream ++ r.path) ≡ none
      → Delivers p m r resp
      → FreshTemp m d
      → is_stored sha256_hex m digest resp ≡ true
      → AreFresh sha256_hex stats p rs (serve_http sha256_hex stats p m r d).disk
      → is_get r' ≡ true
      → match_blob r'.path ≡ some (repo', digest)
      → m'.open_blob ≡ true
      → let d' = serve_all sha256_hex stats p rs (serve_http sha256_hex stats p m r d).disk in
        (c : Text) × (sha256_hex c ≡ sha256_hex resp.body)
        × ((serve_http sha256_hex stats p m' r' d').reply ≡ hit_reply digest c)
        × ((serve_http sha256_hex stats p m' r' d').sent ≡ [])
        × (rs ≡ [] → c ≡ resp.body)
  serve_http_fill stats p m m' r r' d rs repo repo' digest resp g h absent good v fresh whole later
        g' h' o =
      let d₀ = (serve_http sha256_hex stats p m r d).disk in
      let d' = serve_all sha256_hex stats p rs d₀ in
      let filled : get (blob_name digest) d₀.blobs ≡ some resp.body =
        get-serve_http_miss stats p m r d repo digest resp g h absent good v fresh whole in
      let hashed : sha256_hex resp.body ≡ blob_name digest =
        is_stored_hash sha256_hex m digest resp whole in
      let now : IsVerified sha256_hex (blob_name digest) d' =
        serve_all-IsVerified sha256_hex stats p rs (blob_name digest) d₀ later
          (record { content = resp.body; found = filled; hashed = hashed }) in
      let (reply, quiet, _) =
        serve_http_hit sha256_hex stats p m' r' d' repo' digest now.content g' h' now.found o in
      (
        now.content,
        now.hashed ∙ sym hashed,
        reply,
        quiet,
        λ e.
            let at_once : get (blob_name digest) d₀.blobs ≡ some now.content =
              subst (λ (x : Disk). get (blob_name digest) x.blobs ≡ some now.content)
                (serve_all-nil sha256_hex stats p rs d₀ e) now.found in
            same_value (sym at_once ∙ filled),
      )
