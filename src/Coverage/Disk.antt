-- ===== src/Coverage/Disk.antt =====
-- `diskView` and `openStore` of internal/cache/coverage.go: what a running cache holds, read by commands
-- in its container.
use regcachectl.Base.{
  ℕ, Bool, false, not, ◌&&◌, List, [], ◌∷◌, ◌++◌, Option, none, some, if◌then◌else◌, ltb, ◌==◌, map,
}
use regcachectl.Base.Results.{Result, ok, err}
use regcachectl.Base.Stateful.{Stateful, pure, raise, attempt, wrapped, ◌>>=◌, ◌>>◌}
use regcachectl.Text.{Text, codes, itoa, mem, has_prefix}
use regcachectl.Text.Paths.{fields, dir, base_name}
use regcachectl.Dict.{Dict, get, put}
use regcachectl.Upstream.{Upstream, upstream_for_host}
use regcachectl.Engine.{Engine, port, container}
use regcachectl.Io.{History, Runtime, Io, run, or_empty}
use regcachectl.Fleet.Query.{container_state}

-- `diskView`, with the runtime's history; a set is a list
pub record View : Type 0 where
  pub history : History
  pub blobs : List Text
  pub revs : Dict (List Text)
  pub layers : Dict (List Text)

abbrev pub registry_root : Text
registry_root = codes "/var/lib/registry/docker/registry/v2"

unfoldable pub find_args : Text → List Text
find_args name =
    codes "exec"
    ∷ name
    ∷ codes "find"
    ∷ (registry_root ++ codes "/blobs")
    ∷ codes "-name"
    ∷ codes "data"
    ∷ codes "-type"
    ∷ codes "f"
    ∷ []

abbrev pub layer_links : Text
layer_links = codes "_layers/sha256"

abbrev pub revision_links : Text
revision_links = codes "_manifests/revisions/sha256"

unfoldable pub links_args : Text → Text → Text → List Text
links_args name repo sub =
    codes "exec"
    ∷ name
    ∷ codes "ls"
    ∷ codes "-1"
    ∷ (registry_root ++ codes "/repositories/" ++ repo ++ codes "/" ++ sub)
    ∷ []

unfoldable pub tag_args : Text → Text → Text → List Text
tag_args name repo tag =
    codes "exec"
    ∷ name
    ∷ codes "cat"
    ∷ (registry_root
        ++ codes "/repositories/"
        ++ repo
        ++ codes "/_manifests/tags/"
        ++ tag
        ++ codes "/current/link")
    ∷ []

-- the digest of a blob's path: …/blobs/sha256/ab/<hex>/data
unfoldable pub blob_of : Text → Text
blob_of p = let d = dir p in base_name (dir (dir d)) ++ codes ":" ++ base_name d

unfoldable pub link_of : Text → Text
link_of h = codes "sha256:" ++ h

-- `_, ok := upstreamIndexForHost(…)`, 0 where there is none
abbrev pub index_or_zero : Option (ℕ × Upstream) → ℕ
index_or_zero none = 0
index_or_zero (some (i, u)) = i

-- `indexOf`
unfoldable pub index_of : Upstream → ℕ
index_of u = index_or_zero (upstream_for_host u.host)

unfoldable pub io {ℓ} : {A : Type ℓ} → Io A → Stateful View A
io m v = let (r, es) = m v.history in (r, record v { history = es })

unfoldable pub keep_layers : Text → List Text → Stateful View (List Text)
keep_layers repo l v = (ok l, record v { layers = put repo l v.layers })

unfoldable pub keep_revs : Text → List Text → Stateful View (List Text)
keep_revs repo l v = (ok l, record v { revs = put repo l v.revs })

-- a directory is listed once
abbrev pub or_list : Stateful View (List Text) → Option (List Text) → Stateful View (List Text)
or_list m (some l) = pure l
or_list m none = m

abbrev pub tag_answer : Result Text → Option Text
tag_answer (err x) = none
tag_answer (ok out) = if has_prefix out (codes "sha256:") then some out else none

module _ (rt : Runtime) (u : Upstream) where
  -- `loadBlobs`
  unfoldable pub load_blobs : Io (List Text)
  load_blobs = do
    out ←
        wrapped (λ x. codes "list " ++ u.name ++ codes " blobs: " ++ x)
          (run rt (find_args (container u)))
    pure (map blob_of (fields out))

  -- the digests that are linked under a directory of a repository
  unfoldable pub list_links : Text → Text → Io (List Text)
  list_links repo sub = do
    out ← attempt (run rt (links_args (container u) repo sub))
    pure (map link_of (fields (or_empty out)))

  -- `links`, on the map of layers and on the map of revisions
  unfoldable pub layers_of : Text → Stateful View (List Text)
  layers_of repo v =
      or_list (io (list_links repo layer_links) >>= keep_layers repo) (get repo v.layers) v

  unfoldable pub revs_of : Text → Stateful View (List Text)
  revs_of repo v =
      or_list (io (list_links repo revision_links) >>= keep_revs repo) (get repo v.revs) v

  -- `hasBlob`
  unfoldable pub has_blob : Text → Text → Stateful View Bool
  has_blob repo digest v =
      if mem digest v.blobs then (layers_of repo >>= λ l. pure (mem digest l)) v else (ok false, v)

  -- `hasManifest`
  unfoldable pub has_manifest : Text → Text → Stateful View Bool
  has_manifest repo digest v =
      if mem digest v.blobs then (revs_of repo >>= λ l. pure (mem digest l)) v else (ok false, v)

  -- `tagDigest`
  unfoldable pub tag_digest : Text → Text → Stateful View (Option Text)
  tag_digest repo tag = do
    out ← io (attempt (run rt (tag_args (container u) repo tag)))
    pure (tag_answer out)

  -- the port that the cache publishes, where it is not the one that the engine addresses
  abbrev pub other_port : ℕ → Option ℕ → Option ℕ
  other_port asked none = none
  other_port asked (some p) = if ltb 0 p && not (p == asked) then some p else none

  abbrev pub check_port : ℕ → Option ℕ → Io (Unit {0})
  check_port asked none = pure tt
  check_port asked (some p) = raise (
      container u
      ++ codes " publishes :"
      ++ itoa p
      ++ codes ", not the :"
      ++ itoa asked
      ++ codes " addressed here")

  -- `openStore`; a view without its history, which goes on
  unfoldable pub open_store : Engine → Io View
  open_store e = do
    c ← container_state rt (container u)
    if not c.running then raise (codes "cache " ++ u.name ++ codes " is not running") else pure tt
    let asked = port e (index_of u) u
    check_port asked (other_port asked (get u.name e.ports))
    blobs ← load_blobs
    pure (record { history = []; blobs = blobs; revs = []; layers = [] })
