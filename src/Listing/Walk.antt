-- ===== src/Listing/Walk.antt =====
-- `List`, `fillRegistry2` and `primaryRevisions` of internal/cache/list.go: the walk over the caches and
-- over the files of a registry.
use regcachectl.Base.{
  ℕ, Bool, false, ◌&&◌, ◌||◌, List, [], ◌∷◌, ◌++◌, Option, none, some, if◌then◌else◌, ltb, length,
  map, take,
}
use regcachectl.Base.Results.{Result, ok, err}
use regcachectl.Base.Stateful.{pure, attempt, ◌>>=◌}
use regcachectl.Text.{Text, codes, is_empty, contains, sort, trim_space}
use regcachectl.Text.Paths.{fields}
use regcachectl.Upstream.{Upstream, indexed}
use regcachectl.Engine.{Engine, port, container}
use regcachectl.Io.{Runtime, Io, run, or_empty}
use regcachectl.Fleet.Query.{Container, container_state}
use regcachectl.Coverage.Payload.{short_digest}
use regcachectl.Listing.Inventory.{Listing, Web, named, tag_names, with_inventory}

abbrev pub registry_dir : Text
registry_dir = codes "/var/lib/registry"

abbrev pub storage_dir : Text
storage_dir = codes "/var/lib/registry/docker/registry/v2"

abbrev pub exec_args : Text → List Text → List Text
exec_args name args = codes "exec" ∷ name ∷ args

abbrev pub is_index_text : Text → Bool
is_index_text s = contains s (codes "manifest.list") || contains s (codes "image.index")

abbrev pub is_index_answer : Result Text → Bool
is_index_answer (err x) = false
is_index_answer (ok s) = is_index_text s

module _ (rt : Runtime) (u : Upstream) where
  abbrev pub blob_path : Text → Text
  blob_path d = storage_dir ++ codes "/blobs/sha256/" ++ take 2 d ++ codes "/" ++ d ++ codes "/data"

  -- the digests whose manifest is an index
  unfoldable pub indexes_of : List Text → Io (List Text)
  indexes_of [] = pure []
  indexes_of (d ∷ ds) = if ltb (length d) 2 then indexes_of ds else (do
    content ← attempt (run rt (exec_args (container u) (codes "cat" ∷ blob_path d ∷ [])))
    rest ← indexes_of ds
    pure (if is_index_answer content then d ∷ rest else rest))

  abbrev pub or_all : List Text → List Text → List Text
  or_all digs [] = digs
  or_all digs (i ∷ is) = i ∷ is

  -- `primaryRevisions`
  unfoldable pub primary_revisions : List Text → Io (List Text)
  primary_revisions digs = do indexes ← indexes_of digs; pure (or_all digs indexes)

  unfoldable pub list_dir : Text → Text → Io Text
  list_dir repo sub = do
    out ← attempt (
        run rt (
          exec_args (container u) (
            codes "ls" ∷ codes "-1" ∷ (storage_dir ++ codes "/repositories/" ++ repo ++ sub) ∷ [])))
    pure (or_empty out)

  -- the objects of a repository without tags: its primary revisions, or its name
  unfoldable pub revision_names : Text → Text → Io (List Text)
  revision_names repo revs = if is_empty (trim_space revs) then pure (repo ∷ []) else (do
    digs ← primary_revisions (fields revs)
    pure (map (λ d. repo ++ codes "@" ++ short_digest (codes "sha256:" ++ d)) (sort digs)))

  unfoldable pub names_in : Text → Io (List Text)
  names_in repo = do
    out ← list_dir repo (codes "/_manifests/tags")
    if is_empty (trim_space out)
        then (do
          revs ← list_dir repo (codes "/_manifests/revisions/sha256")
          revision_names repo revs)
        else pure (tag_names repo (sort (fields out)))

  unfoldable pub names_in_all : List Text → Io (List Text)
  names_in_all [] = pure []
  names_in_all (r ∷ rs) = do names ← names_in r; rest ← names_in_all rs; pure (names ++ rest)

  abbrev pub first_or : Text → List Text → Text
  first_or s [] = s
  first_or s (f ∷ fs) = f

  abbrev pub usage : Text → Result Text → Text
  usage s (err x) = s
  usage s (ok du) = first_or s (fields du)

  unfoldable pub with_catalog : Option (List Text) → Listing → Io Listing
  with_catalog none l = pure l
  with_catalog (some repos) l = do
    names ← names_in_all (sort repos)
    pure (record l { objects = l.objects ++ map named names })

  -- `fillRegistry2`
  unfoldable pub fill_registry : Web → Listing → Io Listing
  fill_registry web l = do
    du ← attempt (run rt (exec_args (container u) (codes "du" ∷ codes "-sh" ∷ registry_dir ∷ [])))
    λ es.
        with_catalog (web.catalog es l.port)
          (record l {
            note = codes "shared blob store; size is the cache total";
            size = usage l.size du;
          })
          es

  unfoldable pub fill_blobcache : Web → Listing → Io Listing
  fill_blobcache web l es = (ok (with_inventory (web.inventory es l.port) l), es)

  unfoldable pub fill : Web → Container → Listing → Io Listing
  fill web c l =
      if c.exists && c.running
      then (if u.blobcache
          then fill_blobcache web (record l { state = codes "running" })
          else fill_registry web (record l { state = codes "running" }))
      else pure (if c.exists then record l { state = codes "stopped" } else l)

-- a cache of which nothing is known yet
unfoldable pub absent : Engine → ℕ → Upstream → Listing
absent e i u = record {
  name = u.name;
  host = u.host;
  port = port e i u;
  engine = if u.blobcache then codes "blobcache" else codes "registry:2";
  state = codes "absent";
  size = codes "-";
  bytes = 0;
  objects = [];
  blobs = [];
  note = [];
}

module _ (rt : Runtime) (web : Web) (e : Engine) where
  unfoldable pub list_loop : List (ℕ × Upstream) → Io (List Listing)
  list_loop [] = pure []
  list_loop ((i, u) ∷ us) = do
    c ← container_state rt (container u)
    l ← fill rt u web c (absent e i u)
    rest ← list_loop us
    pure (l ∷ rest)

  -- `List`
  unfoldable pub list : Io (List Listing)
  list = list_loop indexed
