-- ===== src/Listing/Inventory.antt =====
-- What internal/cache/list.go lists, and `fillBlobcache`. An answer of `httpJSON` is a parameter, absent
-- where the GET or the decoding fails.
use regcachectl.Base.{
  ℕ, zero, suc, ◌+◌, Bool, not, List, [], ◌∷◌, ◌++◌, Option, none, some, if◌then◌else◌, ◌==◌,
  length, map, select,
}
use regcachectl.Text.{Text, codes, utf8, itoa, has_prefix, join, mem, sort}
use regcachectl.Dict.{Dict, get}
use regcachectl.Io.{History}
use regcachectl.Coverage.Payload.{short_digest}
use regcachectl.Listing.{human_bytes}

-- `Object`
pub record Object : Type 0 where
  pub name : Text
  pub size : Text
  pub detail : Text

-- `Listing`
pub record Listing : Type 0 where
  pub name : Text
  pub host : Text
  pub port : ℕ
  pub engine : Text
  pub state : Text
  pub size : Text
  pub bytes : ℕ
  pub objects : List Object
  pub blobs : List Object
  pub note : Text

-- the inventory of the blob cache, as `fillBlobcache` decodes it
pub record Blob : Type 0 where
  pub digest : Text
  pub size : ℕ
  pub repos : List Text

pub record Inventory : Type 0 where
  pub total_bytes : ℕ
  pub blobs : List Blob
  pub tags : Dict (List Text)

-- `httpJSON` at a port: `/_cache` and `/v2/_catalog`
pub record Web : Type 0 where
  pub inventory : History → ℕ → Option Inventory
  pub catalog : History → ℕ → Option (List Text)

abbrev pub named : Text → Object
named n = record { name = n; size = []; detail = [] }

-- the names of one repository of the blob cache: its tags, else its digests, else the repository
unfoldable pub is_digest_ref : Text → Bool
is_digest_ref r = has_prefix r (codes "sha256:")

abbrev pub tag_names : Text → List Text → List Text
tag_names r tags = map (λ t. r ++ codes ":" ++ t) tags

abbrev pub digest_names : Text → List Text → List Text
digest_names r digests = map (λ d. r ++ codes "@" ++ short_digest d) digests

unfoldable pub repo_names : Text → List Text → List Text
repo_names r refs =
    let tags = select (λ t. not (is_digest_ref t)) refs in
    let digests = select is_digest_ref refs in
    if not (length tags == 0)
    then tag_names r tags
    else (if not (length digests == 0) then digest_names r digests else r ∷ [])

-- a key of the set `repoSet`
abbrev pub add_name : Text → List Text → List Text
add_name r rs = if mem r rs then rs else r ∷ rs

unfoldable pub add_names : List Text → List Text → List Text
add_names [] rs = rs
add_names (n ∷ ns) rs = add_name n (add_names ns rs)

unfoldable pub repo_set : List Blob → List Text
repo_set [] = []
repo_set (b ∷ bs) = add_names b.repos (repo_set bs)

unfoldable pub unnamed : List Blob → ℕ
unnamed [] = 0
unnamed (b ∷ bs) = let n = unnamed bs in if length b.repos == 0 then n + 1 else n

abbrev pub or_no_refs : Option (List Text) → List Text
or_no_refs none = []
or_no_refs (some rs) = rs

unfoldable pub all_names : Dict (List Text) → List Text → List Text
all_names tags [] = []
all_names tags (r ∷ rs) = repo_names r (or_no_refs (get r tags)) ++ all_names tags rs

unfoldable pub unnamed_object : ℕ → List Object
unnamed_object zero = []
unnamed_object (suc n) =
    named (codes "(" ++ itoa (suc n) ++ utf8 " unnamed layer(s) — re-pull to record)") ∷ []

abbrev pub blob_object : Blob → Object
blob_object b = record {
  name = b.digest;
  size = human_bytes b.size;
  detail = join (codes ", ") b.repos;
}

-- `fillBlobcache`, behind its GET
unfoldable pub with_inventory : Option Inventory → Listing → Listing
with_inventory none l = l
with_inventory (some st) l = record l {
  size = human_bytes st.total_bytes;
  bytes = st.total_bytes;
  blobs = l.blobs ++ map blob_object st.blobs;
  objects =
      l.objects
      ++ (map named (all_names st.tags (sort (repo_set st.blobs)))
          ++ unnamed_object (unnamed st.blobs));
  note = codes "shared layers, size is the cache total";
}
