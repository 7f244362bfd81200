-- ===== src/Blobcache/Route.antt =====
-- `blobRe` and `manifestRe` of internal/blobcache/blobcache.go: which paths they match and what
-- they capture. `.` matches no newline, and a greedy `(.+)` ends at the last place that fits.
use regcachectl.Base.{
  ◌≡◌, ◌≢◌, ◌↔◌, refl, ℕ, Bool, true, false, ◌&&◌, ◌||◌, [], ◌∷◌, ◌++◌, Option, none, some, arith,
  if◌then◌else◌, length, every, leb, ◌==◌, Option-cases, ◌⊎◌, inl, inr, Bool-cases, ap, ◌+◌,
}
use regcachectl.Text.Search.{count-append}
use regcachectl.Text.{count, Text, codes, slash, newline, strip, has_byte, push?}
use regcachectl.Text.Equality.{strip-append, strip_sound}

unfoldable pub v2 : Text
v2 = codes "/v2/"

pub blobs_tail : Text
blobs_tail = codes "blobs/"

abbrev pub blobs : Text
blobs = slash ∷ blobs_tail

pub manifests : Text
manifests = codes "/manifests/"

unfoldable pub sha256 : Text
sha256 = codes "sha256:"

-- `[0-9a-f]`
pub is_hex : ℕ → Bool
is_hex c = (leb b'0' c && leb c b'9') || (leb b'a' c && leb c b'f')

pub is_hash : Text → Bool
is_hash h = length h == 64 && every is_hex h

hash_of : Option Text → Bool
hash_of none = false
hash_of (some h) = is_hash h

-- `sha256:[0-9a-f]{64}`
unfoldable pub is_digest : Text → Bool
unfolding hash_of is_hash is_hex
is_digest d = hash_of (strip sha256 d)

digest_here : Option Text → Option Text
digest_here none = none
digest_here (some d) = if is_digest d then some d else none

found_or : Option Text → Option (Text × Text) → Option (Text × Text)
found_or none next = next
found_or (some d) next = some ([], d)

-- what is left of a repository, `/blobs/` and a digest
repo_and_digest : Text → Option (Text × Text)
unfolding digest_here found_or
repo_and_digest [] = none
repo_and_digest (x ∷ s) =
    let next = repo_and_digest s in
    found_or (digest_here (strip blobs (x ∷ s))) (if x == newline then none else push? x next)

behind : (Text → Option (Text × Text)) → Option Text → Option (Text × Text)
behind f none = none
behind f (some []) = none
behind f (some (x ∷ s)) = if x == newline then none else push? x (f s)

-- `blobRe.FindStringSubmatch`
pub match_blob : Text → Option (Text × Text)
unfolding repo_and_digest behind
match_blob path = behind repo_and_digest (strip v2 path)

ref_here : Option Text → Option (Text × Text)
ref_here none = none
ref_here (some []) = none
ref_here (some (y ∷ r)) = if has_byte newline (y ∷ r) then none else some ([], y ∷ r)

ref_later : ℕ → Option (Text × Text) → Option (Text × Text) → Option (Text × Text)
ref_later x none here = here
ref_later x (some (a, b)) here = if x == newline then here else some (x ∷ a, b)

repo_and_ref : Text → Option (Text × Text)
unfolding ref_here ref_later
repo_and_ref [] = none
repo_and_ref (x ∷ s) = ref_later x (repo_and_ref s) (ref_here (strip manifests (x ∷ s)))

-- `manifestRe.FindStringSubmatch`
pub match_manifest : Text → Option (Text × Text)
unfolding repo_and_ref behind
match_manifest path = behind repo_and_ref (strip v2 path)

every_hex-count : (h : Text) → every is_hex h ≡ true → count slash h ≡ 0
unfolding is_hex count
every_hex-count [] e = refl
every_hex-count (x ∷ h) e = ground (arith, every_hex-count h)

sha256-count : count slash sha256 ≡ 0
unfolding sha256 count
sha256-count = refl

blobs-count : count slash blobs ≡ 2
unfolding blobs_tail count
blobs-count = refl

-- A digest is `sha256:` and a hash of 64 hexadecimal digits.
pub is_digest_sound :
    (d : Text) → is_digest d ≡ true → (h : Text) × (d ≡ sha256 ++ h) × (is_hash h ≡ true)
unfolding is_digest
is_digest_sound d e = split (Option-cases (strip sha256 d))
  where
    split :
        ((strip sha256 d ≡ none) ⊎ ((h : Text) × (strip sha256 d ≡ some h)))
        → (h : Text) × (d ≡ sha256 ++ h) × (is_hash h ≡ true)
    split (inl p) = absurd (ground arith)
    split (inr (h, p)) = (h, strip_sound sha256 d h p, rw p at e)

-- A digest holds no slash, so that the file that is named after it stays in its directory.
pub is_digest-count : (d : Text) → is_digest d ≡ true → count slash d ≡ 0
is_digest-count d e =
    let (h, p, v) = is_digest_sound d e in
    let hex : every is_hex h ≡ true = (unfold is_hash in ground arith) in
    rw p (omega (arith, count-append slash sha256 h, sha256-count, every_hex-count h hex))

repo_and_digest_sound :
    (s r d : Text)
    → repo_and_digest s ≡ some (r, d)
    → (s ≡ r ++ (blobs ++ d)) × (is_digest d ≡ true) × (has_byte newline r ≡ false)
unfolding repo_and_digest has_byte
repo_and_digest_sound [] r d h = cc
repo_and_digest_sound (x ∷ s) [] d h = ground (arith, strip_sound blobs (x ∷ s) d)
repo_and_digest_sound (x ∷ s) (y ∷ r) d h = ground (arith, repo_and_digest_sound s r d)

slash-count : (r : Text) → count slash (slash ∷ r) ≡ count slash r + 1
unfolding count
slash-count r = refl

more_slashes :
    (x : ℕ) (r d e : Text)
    → is_digest d ≡ true
    → is_digest e ≡ true
    → (x ∷ r) ++ (blobs ++ d) ≡ blobs ++ e
    → ⊥
more_slashes x r d e v w same =
    let head : x ≡ slash = cc in
    let counts : count slash ((x ∷ r) ++ (blobs ++ d)) ≡ count slash (blobs ++ e) =
      ap (count slash) same in
    omega (
      arith,
      rw head at counts,
      count-append slash (slash ∷ r) (blobs ++ d),
      slash-count r,
      count-append slash blobs d,
      count-append slash blobs e,
      blobs-count,
      is_digest-count d v,
      is_digest-count e w,
    )

-- A digest does not begin before the last `/blobs/`.
digest_here_earlier :
    (x : ℕ) (r d : Text)
    → is_digest d ≡ true
    → digest_here (strip blobs ((x ∷ r) ++ (blobs ++ d))) ≡ none
unfolding digest_here
digest_here_earlier x r d v = elim (Option-cases (strip blobs ((x ∷ r) ++ (blobs ++ d)))) [
  | inl p ↦ rw p
  | inr (e, p) ↦ rw p (elim (Bool-cases (is_digest e)) [
    | inl w ↦ absurd (more_slashes x r d e v w (strip_sound blobs ((x ∷ r) ++ (blobs ++ d)) e p))
    | inr w ↦ rw w
  ])
]

repo_and_digest_complete :
    (r d : Text)
    → is_digest d ≡ true
    → has_byte newline r ≡ false
    → repo_and_digest (r ++ (blobs ++ d)) ≡ some (r, d)
unfolding repo_and_digest has_byte
repo_and_digest_complete [] d v h = ground (arith, strip-append blobs d)
repo_and_digest_complete (x ∷ r) d v h =
    ground (arith, digest_here_earlier x r d v, repo_and_digest_complete r d v)

behind_blob_sound :
    (o : Option Text) (repo digest : Text)
    → behind repo_and_digest o ≡ some (repo, digest)
    → (o ≡ some (repo ++ (blobs ++ digest)))
      × (repo ≢ [])
      × (has_byte newline repo ≡ false)
      × (is_digest digest ≡ true)
unfolding behind has_byte
behind_blob_sound none repo digest h = cc
behind_blob_sound (some []) repo digest h = cc
behind_blob_sound (some (x ∷ s)) [] digest h = ground arith
behind_blob_sound (some (x ∷ s)) (y ∷ r) digest h = ground (arith, repo_and_digest_sound s r digest)

match_blob_sound :
    (path repo digest : Text)
    → match_blob path ≡ some (repo, digest)
    → (path ≡ v2 ++ (repo ++ (blobs ++ digest)))
      × (repo ≢ [])
      × (has_byte newline repo ≡ false)
      × (is_digest digest ≡ true)
unfolding match_blob
match_blob_sound path repo digest h =
    let (p, q, r, s) = behind_blob_sound (strip v2 path) repo digest h in
    (strip_sound v2 path (repo ++ (blobs ++ digest)) p, q, r, s)

match_blob_complete :
    (repo digest : Text)
    → repo ≢ []
    → has_byte newline repo ≡ false
    → is_digest digest ≡ true
    → match_blob (v2 ++ (repo ++ (blobs ++ digest))) ≡ some (repo, digest)
unfolding match_blob behind has_byte
match_blob_complete [] digest h n v = absurd (h refl)
match_blob_complete (x ∷ r) digest h n v =
    ground
      (arith, strip-append v2 ((x ∷ r) ++ (blobs ++ digest)), repo_and_digest_complete r digest v)

-- A path matches `blobRe` exactly when it is `/v2/`, a repository that is not empty and holds no
-- newline, `/blobs/` and a digest, and the match captures that repository and that digest.
pub match_blob_iff :
    (path repo digest : Text)
    → (match_blob path ≡ some (repo, digest)) ↔ (
        (path ≡ v2 ++ (repo ++ (blobs ++ digest)))
        × (repo ≢ [])
        × (has_byte newline repo ≡ false)
        × (is_digest digest ≡ true))
match_blob_iff path repo digest =
    (match_blob_sound path repo digest, λ c. rw c.0 (match_blob_complete repo digest c.1 c.2 c.3))
