-- ===== src/Text.antt =====
-- Go strings as lists of bytes (an ASCII literal is its `codes`), and the functions of the
-- packages `strings`, `strconv` and `sort` that internal/cache and internal/blobcache call.
pub mod Equality
pub mod Search
pub mod Quote
pub mod Paths
use Prim.Native.Char.{code}
use Prim.Native.String.{String}
use regcachectl.Base.{
  ℕ, zero, suc, ◌+◌, ◌-◌, ◌*◌, ◌/◌, ◌%◌, ◌^◌, Bool, true, false, ◌&&◌, ◌||◌, List, [], ◌∷◌, ◌++◌,
  Option, none, some, ltb, leb, ◌==◌, if◌then◌else◌, not, length,
}

abbrev pub Text : Type 0
Text = List ℕ

-- The code points of a literal; these are its bytes when the text is ASCII.
abbrev pub codes : String → Text
codes String.[] = []
codes (String.◌∷◌ c s) = code c ∷ codes s

-- a code point in UTF-8
abbrev pub encode_point : ℕ → Text
encode_point c =
    if ltb c 0x80
    then c ∷ []
    else if ltb c 0x800
    then (0xC0 + c / 64) ∷ (0x80 + c % 64) ∷ []
    else if ltb c 0x1_0000
    then (0xE0 + c / 4096) ∷ (0x80 + c / 64 % 64) ∷ (0x80 + c % 64) ∷ []
    else (0xF0 + c / 262144) ∷ (0x80 + c / 4096 % 64) ∷ (0x80 + c / 64 % 64) ∷ (0x80 + c % 64) ∷ []

-- The bytes of any literal.
abbrev pub utf8 : String → Text
utf8 String.[] = []
utf8 (String.◌∷◌ c s) = encode_point (code c) ++ utf8 s

abbrev pub slash : ℕ
slash = b'/'

abbrev pub colon : ℕ
colon = b':'

abbrev pub at_sign : ℕ
at_sign = b'@'

abbrev pub dot : ℕ
dot = b'.'

abbrev pub comma : ℕ
comma = b','

abbrev pub quote : ℕ
quote = b'"'

abbrev pub newline : ℕ
newline = 10

-- `s == t`
unfoldable pub eq : Text → Text → Bool
eq [] [] = true
eq [] (y ∷ t) = false
eq (x ∷ s) [] = false
eq (x ∷ s) (y ∷ t) = x == y && eq s t

unfoldable pub is_empty : Text → Bool
is_empty [] = true
is_empty (x ∷ s) = false

-- What is left of `s` behind the prefix `p`; strings.HasPrefix and strings.TrimPrefix.
unfoldable pub strip : Text → Text → Option Text
strip [] s = some s
strip (x ∷ p) [] = none
strip (x ∷ p) (y ∷ s) = let rest = strip p s in if x == y then rest else none

abbrev pub is_some : Option Text → Bool
is_some none = false
is_some (some s) = true

abbrev or_else : Text → Option Text → Text
or_else s none = s
or_else s (some t) = t

unfoldable pub has_prefix : Text → Text → Bool
unfolding strip
has_prefix s p = is_some (strip p s)

unfoldable pub trim_prefix : Text → Text → Text
unfolding strip
trim_prefix s p = or_else s (strip p s)

-- strings.Contains
unfoldable pub contains : Text → Text → Bool
unfolding has_prefix
contains [] p = has_prefix [] p
contains (x ∷ s) p = has_prefix (x ∷ s) p || contains s p

-- strings.ContainsRune of one byte, and strings.Count of one byte
unfoldable pub has_byte : ℕ → Text → Bool
has_byte c [] = false
has_byte c (x ∷ s) = x == c || has_byte c s

unfoldable pub count : ℕ → Text → ℕ
count c [] = 0
count c (x ∷ s) = let n = count c s in if x == c then n + 1 else n

abbrev pub push : ℕ → Text × Text → Text × Text
push x (a, b) = (x ∷ a, b)

abbrev pub push? : ℕ → Option (Text × Text) → Option (Text × Text)
push? x none = none
push? x (some (a, b)) = some (x ∷ a, b)

-- `s[:i]` and `s[i+1:]` at the first index `i` of the byte `c`; strings.Index and strings.Cut.
unfoldable pub cut : ℕ → Text → Option (Text × Text)
cut c [] = none
cut c (x ∷ s) = if x == c then some ([], s) else push? x (cut c s)

abbrev last_or_here : ℕ → ℕ → Text → Option (Text × Text) → Option (Text × Text)
last_or_here c x s none = if x == c then some ([], s) else none
last_or_here c x s (some (a, b)) = some (x ∷ a, b)

-- the same at the last index; strings.LastIndex
unfoldable pub cut_last : ℕ → Text → Option (Text × Text)
cut_last c [] = none
cut_last c (x ∷ s) = last_or_here c x s (cut_last c s)

abbrev first_line : ℕ → List Text → List Text
first_line x [] = (x ∷ []) ∷ []
first_line x (l ∷ ls) = (x ∷ l) ∷ ls

-- strings.Split at one byte
unfoldable pub split : ℕ → Text → List Text
split c [] = [] ∷ []
split c (x ∷ s) = if x == c then [] ∷ split c s else first_line x (split c s)

unfoldable pub join : Text → List Text → Text
join sep [] = []
join sep (s ∷ []) = s
join sep (s ∷ t ∷ ts) = s ++ sep ++ join sep (t ∷ ts)

-- the ASCII white space of unicode.IsSpace
unfoldable pub is_space : ℕ → Bool
is_space c = c == 32 || (leb 9 c && leb c 13)

-- the white space of unicode.IsSpace beyond ASCII, in UTF-8: U+0085 and U+00A0 of two bytes, U+1680,
-- U+2000 to U+200A, U+2028, U+2029, U+202F, U+205F and U+3000 of three
abbrev is_space_2 : ℕ → ℕ → Bool
is_space_2 a b = a == 194 && (b == 133 || b == 160)

abbrev is_general_space : ℕ → Bool
is_general_space c = (leb 128 c && leb c 138) || c == 168 || c == 169 || c == 175

abbrev is_space_3 : ℕ → ℕ → ℕ → Bool
is_space_3 a b c =
    (a == 225 && b == 154 && c == 128)
    || (a == 226 && b == 128 && is_general_space c)
    || (a == 226 && b == 129 && c == 159)
    || (a == 227 && b == 128 && c == 128)

-- the bytes of the white space that a text begins with, 0 where it begins with none
unfoldable pub space_width : Text → ℕ
unfolding is_space
space_width [] = 0
space_width (a ∷ []) = if is_space a then 1 else 0
space_width (a ∷ b ∷ []) = if is_space a then 1 else (if is_space_2 a b then 2 else 0)
space_width (a ∷ b ∷ c ∷ s) =
    if is_space a then 1 else (if is_space_2 a b then 2 else (if is_space_3 a b c then 3 else 0))

-- `rest` is the number of bytes that are left of the white space which is skipped.
trim_from : ℕ → Text → Text
unfolding space_width
trim_from rest [] = []
trim_from (suc rest) (x ∷ s) = trim_from rest s
trim_from zero (x ∷ s) =
    let width = space_width (x ∷ s) in
    let trimmed = trim_from (width - 1) s in if width == 0 then x ∷ s else trimmed

unfoldable pub trim_left : Text → Text
unfolding trim_from
trim_left s = trim_from 0 s

-- a text that is one white space gives way
unfoldable pub drop_blank : Text → Text
unfolding space_width
drop_blank s = if not (is_empty s) && space_width s == length s then [] else s

unfoldable pub trim_right : Text → Text
unfolding drop_blank
trim_right [] = []
trim_right (x ∷ s) = drop_blank (x ∷ trim_right s)

-- strings.TrimSpace
unfoldable pub trim_space : Text → Text
unfolding trim_left trim_right
trim_space s = trim_right (trim_left s)

abbrev last_of : Text → List Text → Text
last_of l [] = l
last_of l (k ∷ ls) = last_of k ls

-- `lastLine` of internal/cache/cache.go
unfoldable pub last_line : Text → Text
unfolding split trim_space
last_line s = last_of [] (split newline (trim_space s))

unfoldable pub to_lower : Text → Text
to_lower [] = []
to_lower (x ∷ s) = (if leb b'A' x && leb x b'Z' then x + 32 else x) ∷ to_lower s

digits_from : ℕ → ℕ → Text
digits_from zero n = []
digits_from (suc f) n =
    let front = digits_from f (n / 10) in
    if ltb n 10 then (b'0' + n) ∷ [] else front ++ (b'0' + n % 10) ∷ []

-- strconv.Itoa and `%d` of a number that is not negative
unfoldable pub itoa : ℕ → Text
unfolding digits_from
itoa n = digits_from (suc n) n

read_digits : ℕ → Text → Option ℕ
read_digits n [] = some n
read_digits n (x ∷ s) =
    if leb b'0' x && leb x b'9'
    then (let m = n * 10 + (x - b'0') in if ltb m (2 ^ 63) then read_digits m s else none)
    else none

abbrev pub if_positive : Option ℕ → Option ℕ
if_positive none = none
if_positive (some n) = if n == 0 then none else some n

-- the digits, behind a plus sign if there is one
pub read_unsigned : Text → Option ℕ
unfolding read_digits
read_unsigned [] = none
read_unsigned (x ∷ []) = read_digits 0 (x ∷ [])
read_unsigned (x ∷ y ∷ s) =
    let behind = read_digits 0 (y ∷ s) in
    let all = read_digits 0 (x ∷ y ∷ s) in if x == b'+' then behind else all

-- strconv.Atoi where its caller wants `err == nil && p > 0`
unfoldable pub atoi_positive : Text → Option ℕ
unfolding read_unsigned
atoi_positive s = if_positive (read_unsigned s)

-- the order of Go strings, byte by byte
unfoldable pub text_le : Text → Text → Bool
text_le [] t = true
text_le (x ∷ s) [] = false
text_le (x ∷ s) (y ∷ t) = ltb x y || (x == y && text_le s t)

unfoldable pub mem : Text → List Text → Bool
mem k [] = false
mem k (s ∷ ss) = eq s k || mem k ss

unfoldable pub insert_text : Text → List Text → List Text
insert_text s [] = s ∷ []
insert_text s (t ∷ ts) = if text_le s t then s ∷ t ∷ ts else t ∷ insert_text s ts

-- sort.Strings
unfoldable pub sort : List Text → List Text
unfolding insert_text text_le
sort [] = []
sort (s ∷ ss) = insert_text s (sort ss)
