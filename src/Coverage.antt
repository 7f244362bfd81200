-- ===== src/Coverage.antt =====
-- `storeView`, `imageOnDisk` and `blobsOnDisk` of internal/cache/coverage.go.
pub mod Complete
pub mod Decides
pub mod Count
pub mod Images
pub mod Layer
pub mod Disk
pub mod Views
pub mod Payload
pub mod Levels
mod Tests
use regcachectl.Base.{
  ◌≡◌, refl, ℕ, zero, suc, ◌+◌, Bool, true, false, not, ◌&&◌, ◌||◌, List, [], ◌∷◌, ◌++◌, Option,
  none, some, arith, if◌then◌else◌, length,
}
use regcachectl.Base.Results.{Result, ok, err, ◌>>=◌}
use regcachectl.Text.{Text, codes, eq, is_empty, has_prefix}
use regcachectl.Upstream.{Upstream}
use regcachectl.Reference.{ImageRef, parse_ref}
use regcachectl.Platform.{Child, IndexEntry, index_entries, platform_matches, is_index}

-- a manifest, as `json.Unmarshal` fills it
pub record Manifest : Type 0 where
  pub config : Text
  pub layers : List Text

-- one of `spec.tags` of an ImageStream: the kind and the name it is `from`
pub record Tag : Type 0 where
  pub kind : Text
  pub name : Text

pub record ImageStream : Type 0 where
  pub kind : Text
  pub tags : List Tag

-- a member of a tar archive: `h.Typeflag == tar.TypeReg`, and what `io.ReadAll` gives
pub record Member : Type 0 where
  pub name : Text
  pub regular : Bool
  pub content : Result Text

-- the members that `tr.Next` gives, and its error behind them where that is not `io.EOF`
pub record Archive : Type 0 where
  pub members : List Member
  pub failure : Option Text

-- `encoding/json` on a manifest, an index, an ImageStream and a token answer, with an error where the
-- text is no such value; and the archive in a layer, read from bytes behind which reading may break
-- off with an error: `gzip.NewReader` may refuse, a plain tar is read as far as it goes.
pub record Codec : Type 0 where
  pub manifest : Text → Result Manifest
  pub index : Text → Result (List Child)
  pub stream : Text → Result ImageStream
  pub token : Text → Result (Text × Text)
  pub gzip_tar : Text → Option Text → Result Archive
  pub plain_tar : Text → Option Text → Archive

-- `storeView`: what one cache holds on disk. A blob is opened as its bytes, and the error behind them
-- where reading it breaks off.
pub record Store : Type 0 where
  pub has_manifest : Text → Text → Bool
  pub has_blob : Text → Text → Bool
  pub tag_digest : Text → Text → Option Text
  pub read_manifest : Text → Text → Result (Text × Text)
  pub open_blob : Text → Text → Result (Text × Option Text)

-- `(full, manifest)`
pub record OnDisk : Type 0 where
  pub full : Bool
  pub manifest : Bool

module _ (c : Codec) (v : Store) (repo : Text) where
  unfoldable pub layers_on_disk : List Text → Bool
  layers_on_disk [] = true
  layers_on_disk (l ∷ ls) = v.has_blob repo l && layers_on_disk ls

  unfoldable pub manifest_on_disk : Result Manifest → Bool
  manifest_on_disk (err e) = false
  manifest_on_disk (ok m) =
      (is_empty m.config || v.has_blob repo m.config) && layers_on_disk m.layers

  unfoldable pub blobs_on_disk : Text → Bool
  blobs_on_disk body = manifest_on_disk (c.manifest body)

  unfoldable pub child_on_disk : Result (Text × Text) → Bool
  child_on_disk (err e) = false
  child_on_disk (ok (body, content_type)) = blobs_on_disk body

  -- the loop over the children; `matched` counts those that are wanted
  unfoldable pub children_on_disk : Text → List IndexEntry → ℕ → OnDisk
  children_on_disk platform [] zero = record { full = false; manifest = true }
  children_on_disk platform [] (suc matched) = record { full = true; manifest = true }
  children_on_disk platform (m ∷ ms) matched =
      let skipped = children_on_disk platform ms matched in
      let stored = children_on_disk platform ms (suc matched) in
      if not (platform_matches platform m.plat)
      then skipped
      else if not (v.has_manifest repo m.digest)
      then record { full = false; manifest = true }
      else if child_on_disk (v.read_manifest repo m.digest)
      then stored
      else record { full = false; manifest = true }

  unfoldable pub index_on_disk : Text → Result (List Child) → OnDisk
  index_on_disk platform (err e) = record { full = false; manifest = true }
  index_on_disk platform (ok cs) = children_on_disk platform (index_entries cs) 0

  unfoldable pub top_on_disk : Text → Result (Text × Text) → OnDisk
  top_on_disk platform (err e) = record { full = false; manifest = true }
  top_on_disk platform (ok (body, content_type)) =
      if not (is_index content_type)
      then record { full = blobs_on_disk body; manifest = true }
      else index_on_disk platform (c.index body)

  unfoldable pub image_on_disk : Text → Text → OnDisk
  image_on_disk digest platform =
      if not (v.has_manifest repo digest)
      then record { full = false; manifest = false }
      else top_on_disk platform (v.read_manifest repo digest)
