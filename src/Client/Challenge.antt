-- ===== src/Client/Challenge.antt =====
-- `parseChallenge` and `clip` of internal/cache/pull.go, and the functions of net/url that the client
-- calls. The challenge is read byte by byte, which for UTF-8 is what the source does rune by rune.
use regcachectl.Base.{
  ◌≡◌, refl, ℕ, ◌/◌, ◌%◌, Bool, false, not, ◌&&◌, ◌||◌, [], ◌∷◌, ◌++◌, Option, none, some,
  if◌then◌else◌, ◌==◌, ltb, take, length,
}
use regcachectl.Text.{Text, codes, has_byte, comma, quote, cut, eq, to_lower, trim_space, is_empty}
use regcachectl.Dict.{Dict, get, put}
use regcachectl.Blobcache.Escape.{unreserved, hex_digit}

unfoldable pub trim_left_quotes : Text → Text
trim_left_quotes [] = []
trim_left_quotes (x ∷ s) = if x == quote then trim_left_quotes s else x ∷ s

abbrev pub keep_unless_quote : ℕ → Text → Text
keep_unless_quote x [] = if x == quote then [] else x ∷ []
keep_unless_quote x (y ∷ s) = x ∷ y ∷ s

unfoldable pub trim_right_quotes : Text → Text
trim_right_quotes [] = []
trim_right_quotes (x ∷ s) = keep_unless_quote x (trim_right_quotes s)

-- `strings.Trim(s, "\"")`
unfoldable pub trim_quotes : Text → Text
unfolding trim_left_quotes trim_right_quotes
trim_quotes s = trim_right_quotes (trim_left_quotes s)

unfoldable pub put_pair : Option (Text × Text) → Dict Text → Dict Text
unfolding trim_quotes
put_pair none m = m
put_pair (some (k, v)) m = put (to_lower (trim_space k)) (trim_quotes (trim_space v)) m

-- `flush`, of the part that was read
unfoldable pub flush_part : Text → Dict Text → Dict Text
unfolding put_pair
flush_part part m = put_pair (cut b'=' (trim_space part)) m

unfoldable pub challenge_from : Text → Bool → Dict Text → Text → Dict Text
unfolding flush_part
challenge_from cur in_quotes m [] = flush_part cur m
challenge_from cur in_quotes m (r ∷ s) =
    let quoted = challenge_from (cur ++ r ∷ []) (not in_quotes) m s in
    let flushed = challenge_from [] in_quotes (flush_part cur m) s in
    let more = challenge_from (cur ++ r ∷ []) in_quotes m s in
    if r == quote then quoted else if r == comma && not in_quotes then flushed else more

unfoldable pub parse_challenge : Text → Dict Text
unfolding challenge_from
parse_challenge s = challenge_from [] false [] s

abbrev pub or_nothing : Option Text → Text
or_nothing none = []
or_nothing (some v) = v

-- a missing key of a Go map reads as the empty text
abbrev pub field : Text → Dict Text → Text
field k m = or_nothing (get k m)

-- `clip`; its ellipsis is three bytes of UTF-8
unfoldable pub clip : Text → ℕ → Text
clip s n = if ltb n (length s) then take n s ++ 226 ∷ 128 ∷ 166 ∷ [] else s

scoped :
    field
      (codes "scope")
      (parse_challenge (codes "Realm=\"https://a/t\", scope=\"repository:x:pull,push\""))
    ≡ codes "repository:x:pull,push"
unfolding parse_challenge challenge_from flush_part put_pair trim_quotes trim_left_quotes
    trim_right_quotes get put cut trim_space to_lower eq is_empty
scoped = refl

-- `url.PathEscape` keeps these bytes beside the unreserved ones
kept : ℕ → Bool
kept c = unreserved c || has_byte c (codes "$&+:=@")

escape_path_byte : ℕ → Text
escape_path_byte c = if kept c then c ∷ [] else b'%' ∷ hex_digit (c / 16) ∷ hex_digit (c % 16) ∷ []

pub path_escape : Text → Text
path_escape [] = []
path_escape (c ∷ s) = escape_path_byte c ++ path_escape s
