-- ===== src/Blobcache/Record.antt =====
-- `recordRepo`, `recordTag`, `blobPath`, `reposPath` and `tagsPath` of internal/blobcache/blobcache.go.
use regcachectl.Base.{not, ◌&&◌, ◌||◌, [], ◌∷◌, ◌++◌, Option, none, some, if◌then◌else◌}
use regcachectl.Text.{Text, newline, mem, is_empty, trim_prefix}
use regcachectl.Dict.{Dict, get, put}
use regcachectl.Blobcache.Types.{Disk, SidecarIo, Machine}
use regcachectl.Blobcache.Route.{sha256}
use regcachectl.Blobcache.Sidecar.{read_lines}
use regcachectl.Blobcache.Escape.{query_escape}

abbrev pub content_of : Option Text → Text
content_of none = []
content_of (some c) = c

-- The body of `recordRepo` and of `recordTag` on the file `name` of a directory. A file that cannot
-- be read has no entries; a directory or a file that cannot be made leaves all as it is.
unfoldable pub record_entry : SidecarIo → Text → Text → Dict Text → Dict Text
record_entry io name entry dir =
    let old = content_of (get name dir) in
    let seen = if io.readable then read_lines old else [] in
    if mem entry seen
    then dir
    else if io.mkdir && io.open_file
    then put name (old ++ (entry ++ newline ∷ [])) dir
    else dir

unfoldable pub blob_name : Text → Text
blob_name digest = trim_prefix digest sha256

unfoldable pub record_repo : Machine → Text → Text → Disk → Disk
unfolding record_entry blob_name
record_repo m digest repo d =
    if is_empty repo
    then d
    else record d { repos = record_entry m.repo_io (blob_name digest) repo d.repos }

-- The directory is made only for an entry that is new.
unfoldable pub record_tag : Machine → Text → Text → Disk → Disk
unfolding record_entry
record_tag m repo ref d =
    let name = query_escape repo in
    let seen = if m.tag_io.readable then read_lines (content_of (get name d.tags)) else [] in
    if is_empty repo || is_empty ref then d else record d {
      tags_dir = d.tags_dir || (not (mem ref seen) && m.tag_io.mkdir);
      tags = record_entry m.tag_io name ref d.tags;
    }
