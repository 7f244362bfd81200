-- ===== src/Listing/Tests.antt =====
-- `HumanBytes` of internal/cache/list.go at a number of bytes.
use regcachectl.Base.{◌≡◌, refl, ℕ, ◌≤◌, ◌++◌, ◌∷◌, arith, true, false, [], some, map, Option}
use regcachectl.Text.{
  Text, codes, itoa, mem, eq, has_prefix, strip, trim_prefix, split, trim_space, is_space, is_empty,
  sort,
}
use regcachectl.Dict.{get}
use regcachectl.Json.{Json}
use regcachectl.Blobcache.Types.{Disk}
use regcachectl.Blobcache.Route.{sha256}
use regcachectl.Blobcache.Record.{blob_name}
use regcachectl.Blobcache.Stream.{temp_prefix}
use regcachectl.Blobcache.Sidecar.{read_lines}
use regcachectl.Blobcache.Escape.{IsBytes, query_escape}
use regcachectl.Blobcache.Stats.{stats}
use regcachectl.Blobcache.Stats.Names.{served_as}
use regcachectl.Blobcache.Inventory.{
  json_of, inventory_of, listed, inventory_of-json_of, serve_stats, fetched, serve_stats-listed,
}
use regcachectl.Listing.{unit_loop, unit_of, tenths, fixed_one, human_bytes}
use regcachectl.Listing.Inventory.{Listing, is_digest_ref, with_inventory}
use regcachectl.Listing.Names.{names_of_objects}
use regcachectl.Listing.Sizes.{IsChosen, IsNear, human_bytes-IsNear}

rounded_up : human_bytes 1048575 ≡ codes "1024.0KB"
unfolding human_bytes unit_of unit_loop tenths itoa
rounded_up = refl

half_to_even : human_bytes 1331 ≡ codes "1.3KB"
unfolding human_bytes unit_of unit_loop tenths itoa
half_to_even = refl

human_bytes-IsNear_example :
    (d u : ℕ) × (human_bytes 1048575 ≡ fixed_one (tenths 1048575 d) ++ (u ∷ codes "B"))
    × IsChosen 1048575 d u
    × IsNear 1048575 d (tenths 1048575 d)
    × (tenths 1048575 d ≤ 10240)
human_bytes-IsNear_example = human_bytes-IsNear 1048575 (omega arith) (omega arith)

abbrev app : Text
app = codes "f5/app"

abbrev blank : Listing
blank = record {
  name = codes "f5";
  host = codes "repo.f5.com";
  port = 5003;
  engine = codes "blobcache";
  state = codes "running";
  size = codes "-";
  bytes = 0;
  objects = [];
  blobs = [];
  note = [];
}

is_tag : is_digest_ref (codes "1.0") ≡ false
unfolding is_digest_ref has_prefix strip
is_tag = refl

-- One layer, served under one name, of which one tag was seen.
abbrev disk : Disk
disk = record {
  blobs_dir = true;
  blobs = (codes "ab", codes "layer") ∷ [];
  repos = (codes "ab", codes "f5/app\n") ∷ [];
  tags_dir = true;
  tags = (codes "f5%2Fapp", codes "1.0\n") ∷ [];
}

inventory_of-json_of_example :
    inventory_of (json_of (stats disk))
    ≡ some (record {
      total_bytes = (stats disk).total_bytes;
      blobs = map listed (stats disk).blobs;
      tags = (stats disk).tags;
    })
inventory_of-json_of_example = inventory_of-json_of (stats disk)

-- a text of JSON stands for the inventory that is served
abbrev encode : Json → Text
encode j = codes "{}"

abbrev parse : Text → Option Json
parse s = some (json_of (stats disk))

app-IsBytes : IsBytes app
app-IsBytes =
    (omega arith, (omega arith, (omega arith, (omega arith, (omega arith, (omega arith, tt))))))

layer_stored : get (codes "ab") disk.blobs ≡ some (codes "layer")
unfolding get eq
layer_stored = refl

layer_kept : has_prefix (codes "ab") temp_prefix ≡ false
unfolding has_prefix strip temp_prefix
layer_kept = refl

layer_served : mem app (served_as disk app (codes "ab")) ≡ true
unfolding get eq blob_name trim_prefix strip sha256 read_lines mem split trim_space is_space sort
    is_empty
layer_served = refl

app_tagged : get (query_escape app) disk.tags ≡ some (codes "1.0\n")
unfolding get eq query_escape
app_tagged = refl

tag_recorded : mem (codes "1.0") (read_lines (codes "1.0\n")) ≡ true
unfolding read_lines mem split trim_space eq is_space sort is_empty
tag_recorded = refl

serve_stats-listed_example :
    mem (codes "f5/app:1.0") (
      names_of_objects
        (with_inventory (fetched encode parse (serve_stats encode parse disk)) blank).objects)
    ≡ true
serve_stats-listed_example =
    serve_stats-listed encode parse disk blank app (codes "1.0") (codes "ab") (codes "layer")
      (codes "1.0\n") refl refl refl app-IsBytes layer_stored layer_kept layer_served app_tagged
      tag_recorded is_tag
