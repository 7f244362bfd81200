-- ===== src/Reference/RoundTrip.antt =====
-- Parsing undoes printing, for pinned and for tagged references.
use regcachectl.Base.{◌≡◌, ◌≢◌, refl, true, false, ℕ, ◌⊎◌, [], ◌∷◌, ◌++◌, arith}
use regcachectl.Base.Results.{ok}
use regcachectl.Text.{Text, slash, colon, at_sign, eq, is_empty, has_byte}
use regcachectl.Text.Equality.{eq_iff, is_empty_iff}
use regcachectl.Text.Search.{cut-append, cut-none, cut_last-append, has_byte-append}
use regcachectl.Reference.{
  ImageRef, parse_ref, is_registry, docker_io, split_host, split_tag, full_repo, library,
}

-- A host and a repository that are written out: the first path segment is a registry, the
-- repository is not empty and holds no `@`, and on docker.io it has its namespace.
pub record IsQualified (host repo : Text) : Type 0 where
  pub no_slash : has_byte slash host ≡ false
  pub registry : is_registry host ≡ true
  pub no_at : has_byte at_sign repo ≡ false
  pub namespaced : eq host docker_io ≡ true → has_byte slash repo ≡ true
  pub present : is_empty repo ≡ false

pub record IsTag (tag : Text) : Type 0 where
  pub no_colon : has_byte colon tag ≡ false
  pub no_at : has_byte at_sign tag ≡ false

has_byte-append_left : (c : ℕ) (a b : Text) → has_byte c a ≡ true → has_byte c (a ++ b) ≡ true
unfolding has_byte
has_byte-append_left c [] b h = cc
has_byte-append_left c (x ∷ a) b h = ground (arith, has_byte-append_left c a b)

is_empty-append : (a b : Text) → is_empty a ≡ false → is_empty (a ++ b) ≡ false
unfolding is_empty
is_empty-append a b h = ground arith

split_host-registry :
    (host rest : Text)
    → has_byte slash host ≡ false
    → is_registry host ≡ true
    → split_host (host ++ slash ∷ rest) ≡ (host, rest)
unfolding split_host
split_host-registry host rest h r = ground (arith, cut-append slash host rest)

split_tag-digest :
    (repo digest : Text)
    → has_byte at_sign repo ≡ false
    → split_tag (repo ++ at_sign ∷ digest) ≡ (repo, digest)
unfolding split_tag
split_tag-digest repo digest h = ground (arith, cut-append at_sign repo digest)

no_at-tagged :
    (repo tag : Text)
    → has_byte at_sign repo ≡ false
    → has_byte at_sign tag ≡ false
    → has_byte at_sign (repo ++ colon ∷ tag) ≡ false
no_at-tagged repo tag h k = has_byte-append at_sign repo (colon ∷ tag) h (unfold has_byte in k)

split_tag-tag :
    (repo tag : Text)
    → has_byte at_sign repo ≡ false
    → IsTag tag
    → split_tag (repo ++ colon ∷ tag) ≡ (repo, tag)
unfolding split_tag
split_tag-tag repo tag h t = ground (
  arith,
  cut-none at_sign (repo ++ colon ∷ tag) (no_at-tagged repo tag h t.no_at),
  cut_last-append colon repo tag t.no_colon,
)

full_repo-qualified : (host repo : Text) → IsQualified host repo → full_repo host repo ≡ repo
unfolding full_repo
full_repo-qualified host repo q = ground (arith, q.namespaced)

-- A reference `host/repo@digest` parses to its three parts.
pub parse_ref-digest :
    (host repo digest : Text)
    → IsQualified host repo
    → parse_ref (host ++ slash ∷ (repo ++ at_sign ∷ digest))
      ≡ ok (record { host = host; repo = repo; ref = digest })
unfolding parse_ref
parse_ref-digest host repo digest q = ground (
  arith,
  split_host-registry host (repo ++ at_sign ∷ digest) q.no_slash q.registry,
  split_tag-digest repo digest q.no_at,
  full_repo-qualified host repo q,
)

-- A reference `host/repo:tag` parses to its three parts, where the tag holds no `:` and no `@`.
pub parse_ref-tag :
    (host repo tag : Text)
    → IsQualified host repo
    → IsTag tag
    → parse_ref (host ++ slash ∷ (repo ++ colon ∷ tag))
      ≡ ok (record { host = host; repo = repo; ref = tag })
unfolding parse_ref
parse_ref-tag host repo tag q t = ground (
  arith,
  split_host-registry host (repo ++ colon ∷ tag) q.no_slash q.registry,
  split_tag-tag repo tag q.no_at t,
  full_repo-qualified host repo q,
)

-- A reference that gives a tag and a digest, `host/repo:tag@digest`, keeps the tag in its
-- repository: the repository of the result is `repo:tag`.
pub parse_ref_tag_and_digest :
    (host repo tag digest : Text)
    → IsQualified host repo
    → IsTag tag
    → parse_ref (host ++ slash ∷ ((repo ++ colon ∷ tag) ++ at_sign ∷ digest))
      ≡ ok (record { host = host; repo = repo ++ colon ∷ tag; ref = digest })
parse_ref_tag_and_digest host repo tag digest q t =
    parse_ref-digest host (repo ++ colon ∷ tag) digest (record {
      no_slash = q.no_slash;
      registry = q.registry;
      no_at = no_at-tagged repo tag q.no_at t.no_at;
      namespaced = λ e. has_byte-append_left slash repo (colon ∷ tag) (q.namespaced e);
      present = is_empty-append repo (colon ∷ tag) q.present;
    })

split_host_sound :
    (s : Text) → ((split_host s).0 ≡ docker_io) ⊎ (is_registry (split_host s).0 ≡ true)
unfolding split_host
split_host_sound s = ground arith

has_byte-library : (n : Text) → has_byte slash (library ++ n) ≡ true
unfolding library has_byte
has_byte-library n = refl

full_repo_namespaced : (name : Text) → has_byte slash (full_repo docker_io name) ≡ true
unfolding full_repo
full_repo_namespaced name = ground (arith, eq_iff docker_io docker_io, has_byte-library name)

-- What a successful parse returns: a repository that is not empty, with a namespace on docker.io,
-- and a host that is docker.io or looks like a registry.
pub parse_ref_sound :
    (s : Text) (r : ImageRef)
    → parse_ref s ≡ ok r
    → (r.repo ≢ [])
      × (r.host ≡ docker_io → has_byte slash r.repo ≡ true)
      × ((r.host ≡ docker_io) ⊎ (is_registry r.host ≡ true))
unfolding parse_ref
parse_ref_sound s r h =
    let (host, rest) = split_host s in
    let (name, ref) = split_tag rest in
    let e : (r.host ≡ host) × (r.repo ≡ full_repo host name) × (is_empty r.repo ≡ false) =
      ground arith in
    (
      λ z. ground (arith, is_empty_iff r.repo),
      λ z. rw (e.1, ← e.0, z) (full_repo_namespaced name),
      ground (arith, split_host_sound s),
    )
