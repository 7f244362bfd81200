-- ===== src/Blobcache/Integrity.antt =====
-- What the handlers of internal/blobcache/blobcache.go do to the stored blobs.
use regcachectl.Base.{
  ◌≡◌, ◌⊎◌, inl, inr, refl, true, not, ◌++◌, Option, none, some, arith, List, [], ◌∷◌, Bool-cases,
  ◌==◌, ◌∙◌,
}
use regcachectl.Base.Results.{Result, ok, err}
use regcachectl.Text.{Text, is_empty, eq, trim_prefix}
use regcachectl.Text.Equality.{eq_iff, strip-append}
use regcachectl.Dict.{get, put, remove, get-put, get-remove}
use regcachectl.Blobcache.Types.{header, Disk, Proxy, Request, Response, Outgoing, Reply, Machine}
use regcachectl.Blobcache.Route.{sha256, match_blob, match_manifest}
use regcachectl.Blobcache.Record.{blob_name, record_repo, record_tag}
use regcachectl.Blobcache.Stream.{commit, copy, into_temp, make_dir, stream_and_cache, temp_prefix}
use regcachectl.Blobcache.Replies.{location_header}
use regcachectl.Blobcache.Serve.{
  is_get, stats_path, is_redirect, upstream_request, serve_http, serve_blob, look_up, fetch,
  answered, follow, finish, note_tag, blob_or_relay, relayed,
}

-- the file of a digest is its hash
pub blob_name-append : (h : Text) → blob_name (sha256 ++ h) ≡ h
unfolding blob_name trim_prefix
blob_name-append h = ground (arith, strip-append sha256 h)

pub blobs-record_repo :
    (m : Machine) (digest repo : Text) (d : Disk) → (record_repo m digest repo d).blobs ≡ d.blobs
unfolding record_repo
blobs-record_repo m digest repo d = ground arith

pub blobs-record_tag :
    (m : Machine) (repo ref : Text) (d : Disk) → (record_tag m repo ref d).blobs ≡ d.blobs
unfolding record_tag
blobs-record_tag m repo ref d = ground arith

pub blobs-note_tag :
    (m : Machine) (r : Request) (o : Option (Text × Text)) (d : Disk)
    → (note_tag m r o d).blobs ≡ d.blobs
unfolding note_tag
blobs-note_tag m r none d = refl
blobs-note_tag m r (some (repo, ref)) d = ground (arith, blobs-record_tag m repo ref d)

module _ (sha256_hex : Text → Text) where
  -- Every stored blob has the hash that names its file.
  pub record IsSound (d : Disk) : Type 0 where
    pub at : (n c : Text) → get n d.blobs ≡ some c → sha256_hex c ≡ n

  -- Each blob of `e` is a blob of `d`, or has the hash that names its file.
  pub record Grows (d e : Disk) : Type 0 where
    pub each : (n c : Text) → get n e.blobs ≡ some c → (get n d.blobs ≡ some c) ⊎ (sha256_hex c ≡ n)

  Grows-refl : (d : Disk) → Grows d d
  Grows-refl d = record { each = λ n c h. inl h }

  commit_adds :
      (m : Machine) (digest temp body : Text) (d : Disk) (n c : Text)
      → get n (commit sha256_hex m digest temp body d).blobs ≡ some c
      → (get n (remove temp d.blobs) ≡ some c) ⊎ (sha256_hex c ≡ n)
  unfolding commit
  commit_adds m digest temp body d n c h = ground (
    arith,
    get-put (blob_name digest) n body (remove temp d.blobs),
    eq_iff (blob_name digest) n,
    eq_iff (sha256 ++ sha256_hex body) digest,
    blob_name-append (sha256_hex body),
  )

  copy-Grows :
      (m : Machine) (digest temp : Text) (resp : Response) (d : Disk)
      → Grows d (copy sha256_hex m digest temp resp d)
  unfolding copy
  copy-Grows m digest temp resp d = record {
    each = λ n c h. ground (
      arith,
      get-put temp n resp.body d.blobs,
      get-remove temp n (put temp resp.body d.blobs),
      commit_adds m digest temp resp.body (record d { blobs = put temp resp.body d.blobs }) n c,
    );
  }

  into_temp-Grows :
      (m : Machine) (digest : Text) (resp : Response) (t : Result Text) (d : Disk)
      → Grows d (into_temp sha256_hex m digest resp t d).0
  unfolding into_temp
  into_temp-Grows m digest resp (err e) d = Grows-refl d
  into_temp-Grows m digest resp (ok suffix) d = copy-Grows m digest (temp_prefix ++ suffix) resp d

  make_dir-Grows :
      (m : Machine) (digest : Text) (resp : Response) (o : Option Text) (d : Disk)
      → Grows d (make_dir sha256_hex m digest resp o d).0
  unfolding make_dir
  make_dir-Grows m digest resp (some e) d = Grows-refl d
  make_dir-Grows m digest resp none d = record {
    each = (into_temp-Grows m digest resp m.temp_suffix (record d { blobs_dir = true })).each;
  }

  pub stream_and_cache-Grows :
      (m : Machine) (digest : Text) (resp : Response) (d : Disk)
      → Grows d (stream_and_cache sha256_hex m digest resp d).0
  unfolding stream_and_cache
  stream_and_cache-Grows m digest resp d = elim (Bool-cases (not (resp.status == 200))) [
    | inl other ↦ rw other (Grows-refl d)
    | inr fine ↦ rw fine (make_dir-Grows m digest resp m.mkdir_blobs d)
  ]

  -- What a request does to the stored blobs of `d`: nothing, or what `streamAndCache` does with an
  -- answer for a digest.
  pub data Stores (m : Machine) (d e : Disk) : Type 0 where
    kept : e.blobs ≡ d.blobs → Stores m d e
    stored :
        (digest : Text) (resp : Response) (d' : Disk)
        → d'.blobs ≡ d.blobs
        → e.blobs ≡ (stream_and_cache sha256_hex m digest resp d').0.blobs
        → Stores m d e

  Stores-from : {d d' e : Disk} (m : Machine) → Stores m d' e → d'.blobs ≡ d.blobs → Stores m d e
  Stores-from m (kept q) h = kept (q ∙ h)
  Stores-from m (stored digest resp d₁ q a) h = stored digest resp d₁ (q ∙ h) a

  finish-Stores :
      (m : Machine) (digest : Text) (sent : List Outgoing) (r : Result Response) (d : Disk)
      → Stores m d (finish sha256_hex m digest sent r d).disk
  unfolding finish
  finish-Stores m digest sent (err e) d = kept refl
  finish-Stores m digest sent (ok resp) d = stored digest resp d refl refl

  follow-Stores :
      (m : Machine) (digest : Text) (out : Outgoing) (loc : Text) (o : Option Text) (d : Disk)
      → Stores m d (follow sha256_hex m digest out loc o d).disk
  unfolding follow
  follow-Stores m digest out loc (some e) d = kept refl
  follow-Stores m digest out loc none d = finish-Stores m digest _ _ d

  answered-Stores :
      (m : Machine) (digest : Text) (out : Outgoing) (r : Result Response) (d : Disk)
      → Stores m d (answered sha256_hex m digest out r d).disk
  unfolding answered
  answered-Stores m digest out (err e) d = kept refl
  answered-Stores m digest out (ok resp) d =
      let loc = header location_header resp.headers in
      elim (Bool-cases (is_redirect resp.status)) [
        | inl away ↦ rw away (elim (Bool-cases (is_empty loc)) [
          | inl nowhere ↦ rw nowhere (kept refl)
          | inr there ↦ rw there (follow-Stores m digest out loc (m.bad_url loc) d)
        ])
        | inr stays ↦ rw stays (finish-Stores m digest (out ∷ []) (ok resp) d)
      ]

  fetch-Stores :
      (p : Proxy) (m : Machine) (r : Request) (digest : Text) (o : Option Text) (d : Disk)
      → Stores m d (fetch sha256_hex p m r digest o d).disk
  unfolding fetch
  fetch-Stores p m r digest (some e) d = kept refl
  fetch-Stores p m r digest none d =
      answered-Stores m digest (upstream_request p r) (m.answer (upstream_request p r)) d

  look_up-Stores :
      (p : Proxy) (m : Machine) (r : Request) (digest : Text) (o : Option Text) (d : Disk)
      → Stores m d (look_up sha256_hex p m r digest o d).disk
  unfolding look_up
  look_up-Stores p m r digest none d = fetch-Stores p m r digest _ d
  look_up-Stores p m r digest (some content) d = elim (Bool-cases m.open_blob) [
    | inl opened ↦ simp opened (kept refl)
    | inr failed ↦ simp failed (fetch-Stores p m r digest (m.bad_url (p.upstream ++ r.path)) d)
  ]

  serve_blob-Stores :
      (p : Proxy) (m : Machine) (r : Request) (repo digest : Text) (d : Disk)
      → Stores m d (serve_blob sha256_hex p m r repo digest d).disk
  unfolding serve_blob
  serve_blob-Stores p m r repo digest d =
      let d' = record_repo m digest repo d in
      Stores-from m (look_up-Stores p m r digest (get (blob_name digest) d'.blobs) d')
        (blobs-record_repo m digest repo d)

  blob_or_relay-Stores :
      (p : Proxy) (m : Machine) (r : Request) (o : Option (Text × Text)) (d : Disk)
      → Stores m d (blob_or_relay sha256_hex p m r o d).disk
  unfolding blob_or_relay relayed
  blob_or_relay-Stores p m r none d = kept refl
  blob_or_relay-Stores p m r (some (repo, digest)) d = elim (Bool-cases (is_get r)) [
    | inl read ↦ rw read (serve_blob-Stores p m r repo digest d)
    | inr other ↦ rw other (kept refl)
  ]

  -- Whatever the request and whatever it meets, the stored blobs stay, or an answer is stored.
  pub serve_http-Stores :
      (stats : Disk → Reply) (p : Proxy) (m : Machine) (r : Request) (d : Disk)
      → Stores m d (serve_http sha256_hex stats p m r d).disk
  unfolding serve_http
  serve_http-Stores stats p m r d =
      let d' = note_tag m r (match_manifest r.path) d in
      elim (Bool-cases (eq r.path stats_path)) [
        | inl counted ↦ rw counted (kept refl)
        | inr other ↦ rw other (
            Stores-from m (blob_or_relay-Stores p m r (match_blob r.path) d')
              (blobs-note_tag m r (match_manifest r.path) d))
      ]

  Stores-Grows : {d e : Disk} (m : Machine) → Stores m d e → Grows d e
  Stores-Grows m (kept q) = record { each = λ n c h. inl (rw q at h) }
  Stores-Grows m (stored digest resp d' q a) = record {
    each = λ n c h. rw q at ((stream_and_cache-Grows m digest resp d').each n c (rw a at h));
  }

  -- Each blob that is stored after a request was stored before it with the same content, or its
  -- content has the hash that names its file.
  pub serve_http-Grows :
      (stats : Disk → Reply) (p : Proxy) (m : Machine) (r : Request) (d : Disk)
      → Grows d (serve_http sha256_hex stats p m r d).disk
  serve_http-Grows stats p m r d = Stores-Grows m (serve_http-Stores stats p m r d)

  -- Every request keeps a store in which each blob has the hash that names its file, whatever the
  -- upstream, the download host, the client and the file system do.
  pub serve_http-IsSound :
      (stats : Disk → Reply) (p : Proxy) (m : Machine) (r : Request) (d : Disk)
      → IsSound d
      → IsSound (serve_http sha256_hex stats p m r d).disk
  serve_http-IsSound stats p m r d s = record {
    at = λ n c h. ground (arith, (serve_http-Grows stats p m r d).each n c h, s.at n c);
  }
