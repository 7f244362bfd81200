-- ===== src/Upstream.antt =====
-- The fixed table of registries, `Upstreams` of internal/cache/cache.go, and the look-ups in it.
use regcachectl.Base.{
  ℕ, suc, ◌+◌, Bool, true, false, List, [], ◌∷◌, Option, none, some, if◌then◌else◌, map, ◌≡◌, arith,
  get_elem?, Bool-cases, inl, inr, subst,
}
use regcachectl.Text.{Text, codes, eq, join}
use regcachectl.Text.Equality.{eq_iff}

pub record Upstream : Type 0 where
  pub name : Text
  pub host : Text
  pub remote : Text
  pub blobcache : Bool

unfoldable pub dockerhub : Upstream
dockerhub = record {
  name = codes "dockerhub";
  host = codes "docker.io";
  remote = codes "https://registry-1.docker.io";
  blobcache = false;
}

unfoldable pub ghcr : Upstream
ghcr = record {
  name = codes "ghcr";
  host = codes "ghcr.io";
  remote = codes "https://ghcr.io";
  blobcache = false;
}

unfoldable pub quay : Upstream
quay = record {
  name = codes "quay";
  host = codes "quay.io";
  remote = codes "https://quay.io";
  blobcache = false;
}

unfoldable pub f5 : Upstream
f5 = record {
  name = codes "f5";
  host = codes "repo.f5.com";
  remote = codes "https://repo.f5.com";
  blobcache = true;
}

unfoldable pub nvcr : Upstream
nvcr = record {
  name = codes "nvcr";
  host = codes "nvcr.io";
  remote = codes "https://nvcr.io";
  blobcache = false;
}

unfoldable pub upstreams : List Upstream
unfolding dockerhub ghcr quay f5 nvcr
upstreams = dockerhub ∷ ghcr ∷ quay ∷ f5 ∷ nvcr ∷ []

-- An upstream with its index, the loop variables of `for i, u := range Upstreams`.
unfoldable pub index_from : ℕ → List Upstream → List (ℕ × Upstream)
index_from i [] = []
index_from i (u ∷ us) = (i, u) ∷ index_from (suc i) us

unfoldable pub indexed : List (ℕ × Upstream)
unfolding index_from upstreams
indexed = index_from 0 upstreams

unfoldable pub find_host : Text → List (ℕ × Upstream) → Option (ℕ × Upstream)
find_host host [] = none
find_host host ((i, u) ∷ us) = if eq u.host host then some (i, u) else find_host host us

-- `upstreamIndexForHost`, with the entry `Upstreams[idx]` that every caller reads next
unfoldable pub upstream_for_host : Text → Option (ℕ × Upstream)
unfolding find_host indexed
upstream_for_host host = find_host host indexed

unfoldable pub known_hosts : Text
unfolding upstreams
known_hosts = join (codes ", ") (map (λ u. u.host) upstreams)

unfoldable pub known_caches : Text
unfolding upstreams
known_caches = join (codes ", ") (map (λ u. u.name) upstreams)

-- Where an entry of the numbered table stands in the table itself.
find_host_sound :
    (host : Text) (k : ℕ) (us : List Upstream) (i : ℕ) (u : Upstream)
    → find_host host (index_from k us) ≡ some (i, u)
    → (j : ℕ) × (u.host ≡ host) × (i ≡ k + j) × (get_elem? us j ≡ some u)
unfolding find_host index_from
find_host_sound host k [] i u h = cc
find_host_sound host k (v ∷ us) i u h = elim (Bool-cases (eq v.host host)) [
  | inl hit ↦ (0, ground (arith, eq_iff v.host host), ground arith, ground arith)
  | inr miss ↦
      let (j, same, place, at) = find_host_sound host (suc k) us i u (rw miss at h) in
      (suc j, same, omega arith, at)
]

-- What the look-up of a host returns has that host, and is the entry of the table at the index
-- that comes with it.
pub upstream_for_host_sound :
    (host : Text) (i : ℕ) (u : Upstream)
    → upstream_for_host host ≡ some (i, u)
    → (u.host ≡ host) × (get_elem? upstreams i ≡ some u)
unfolding upstream_for_host
upstream_for_host_sound host i u h =
    let (j, same, place, found) = find_host_sound host 0 upstreams i u h in
    let e : j ≡ i = omega arith in (same, subst (λ (n : ℕ). get_elem? upstreams n ≡ some u) e found)
