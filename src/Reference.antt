-- ===== src/Reference.antt =====
-- `imageRef` and `parseRef` of internal/cache/pull.go.
pub mod RoundTrip
mod Tests
use regcachectl.Base.{
  ◌≡◌, refl, Bool, ◌&&◌, ◌||◌, not, List, [], ◌∷◌, ◌++◌, Option, none, some, if◌then◌else◌,
}
use regcachectl.Base.Results.{Result, ok, err}
use regcachectl.Text.Quote.{quoted}
use regcachectl.Text.{
  Text, codes, slash, colon, at_sign, dot, eq, is_empty, has_byte, cut, cut_last,
}

pub record ImageRef : Type 0 where
  pub host : Text
  pub repo : Text
  pub ref : Text

-- `strings.ContainsAny(seg, ".:") || seg == "localhost"`
unfoldable pub is_registry : Text → Bool
is_registry seg = has_byte dot seg || has_byte colon seg || eq seg (codes "localhost")

unfoldable pub docker_io : Text
docker_io = codes "docker.io"

choose_host : Text → Option (Text × Text) → Text × Text
choose_host s none = (docker_io, s)
choose_host s (some (seg, rest)) = if is_registry seg then (seg, rest) else (docker_io, s)

-- the host, and the name that is left
pub split_host : Text → Text × Text
unfolding choose_host
split_host s = choose_host s (cut slash s)

unfoldable pub latest : Text
latest = codes "latest"

choose_tag : Text → Option (Text × Text) → Option (Text × Text) → Text × Text
choose_tag name (some (n, r)) byTag = (n, r)
choose_tag name none (some (n, r)) = (n, r)
choose_tag name none none = (name, latest)

-- the name, and its digest or tag
pub split_tag : Text → Text × Text
unfolding choose_tag
split_tag name = choose_tag name (cut at_sign name) (cut_last colon name)

unfoldable pub library : Text
library = codes "library/"

pub full_repo : Text → Text → Text
full_repo host name =
    if eq host docker_io && not (has_byte slash name) then library ++ name else name

pub no_repository : Text → Text
no_repository s = codes "could not parse a repository from " ++ quoted s

unfoldable pub parse_ref : Text → Result ImageRef
unfolding split_host split_tag full_repo
parse_ref s =
    let (host, rest) = split_host s in
    let (name, ref) = split_tag rest in
    let repo = full_repo host name in
    if is_empty repo
    then err (no_repository s)
    else ok (record { host = host; repo = repo; ref = ref })

abbrev pub test_ref : Text
test_ref = codes "quay.io/okd/scos-release:4.22"

pub tagged :
    parse_ref test_ref
    ≡ ok (record { host = codes "quay.io"; repo = codes "okd/scos-release"; ref = codes "4.22" })
unfolding parse_ref is_registry docker_io latest library cut cut_last has_byte eq is_empty
tagged = refl

short :
    parse_ref (codes "redis")
    ≡ ok (record { host = codes "docker.io"; repo = codes "library/redis"; ref = codes "latest" })
unfolding parse_ref is_registry docker_io latest library cut cut_last has_byte eq is_empty
short = refl
