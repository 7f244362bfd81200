-- ===== src/Blobcache/Escape.antt =====
-- `url.QueryEscape` and `url.QueryUnescape`, by which a repository names its tags sidecar.
use Prim.Native.Nat.{◌<◌}
use regcachectl.Base.{
  ◌≡◌, refl, ℕ, ◌+◌, ◌-◌, ◌*◌, ◌/◌, ◌%◌, Bool, false, ◌&&◌, ◌||◌, [], ◌∷◌, ◌++◌, Option, none, some,
  arith, if◌then◌else◌, ltb, leb, ◌==◌, All, ap,
}
use regcachectl.Text.Search.{has_byte-append}
use regcachectl.Text.{Text, slash, has_byte}

-- letters, digits, `-`, `_`, `.` and `~`
pub unreserved : ℕ → Bool
unreserved c =
    (leb b'a' c && leb c b'z')
    || (leb b'A' c && leb c b'Z')
    || (leb b'0' c && leb c b'9')
    || c == b'-'
    || c == b'_'
    || c == b'.'
    || c == b'~'

-- `"0123456789ABCDEF"[n]`
pub hex_digit : ℕ → ℕ
hex_digit n = if ltb n 10 then b'0' + n else b'A' + (n - 10)

escape_byte : ℕ → Text
unfolding hex_digit unreserved
escape_byte c =
    if unreserved c
    then c ∷ []
    else if c == 32
    then b'+' ∷ []
    else b'%' ∷ hex_digit (c / 16) ∷ hex_digit (c % 16) ∷ []

unfoldable pub query_escape : Text → Text
unfolding escape_byte
query_escape [] = []
query_escape (c ∷ s) = escape_byte c ++ query_escape s

-- a hexadecimal digit of either case
unhex : ℕ → Option ℕ
unhex c =
    if leb b'0' c && leb c b'9'
    then some (c - b'0')
    else if leb b'a' c && leb c b'f'
    then some (c - b'a' + 10)
    else if leb b'A' c && leb c b'F'
    then some (c - b'A' + 10)
    else none

cons? : Option ℕ → Option ℕ → Option Text → Option Text
cons? (some a) (some b) (some s) = some ((16 * a + b) ∷ s)
cons? _ _ _ = none

prefix? : ℕ → Option Text → Option Text
prefix? c none = none
prefix? c (some s) = some (c ∷ s)

unfoldable pub query_unescape : Text → Option Text
unfolding unhex cons? prefix?
query_unescape [] = some []
query_unescape (c ∷ []) =
    if c == b'%' then none else if c == b'+' then some (32 ∷ []) else some (c ∷ [])
query_unescape (c ∷ d ∷ []) =
    let one = query_unescape (d ∷ []) in
    if c == b'%' then none else if c == b'+' then prefix? 32 one else prefix? c one
query_unescape (c ∷ d ∷ e ∷ s) =
    let three = cons? (unhex d) (unhex e) (query_unescape s) in
    let one = query_unescape (d ∷ e ∷ s) in
    if c == b'%' then three else if c == b'+' then prefix? 32 one else prefix? c one

-- A text of bytes.
abbrev pub IsBytes : Text → Type 0
IsBytes = All (λ c. c < 256)

plain_step :
    (c : ℕ) (s : Text)
    → (c == b'%') ≡ false
    → query_unescape (c ∷ s)
      ≡ (if c == b'+' then prefix? 32 (query_unescape s) else prefix? c (query_unescape s))
unfolding query_unescape
plain_step c [] h = ground arith
plain_step c (d ∷ []) h = ground arith
plain_step c (d ∷ e ∷ s) h = ground arith

unhex-hex_digit : (n : ℕ) → n < 16 → unhex (hex_digit n) ≡ some n
unfolding unhex hex_digit
unhex-hex_digit n h = ground arith

hex_step :
    (c : ℕ) (s : Text)
    → c < 256
    → query_unescape (b'%' ∷ hex_digit (c / 16) ∷ hex_digit (c % 16) ∷ s)
      ≡ prefix? c (query_unescape s)
unfolding query_unescape
hex_step c s h =
    rw (unhex-hex_digit (c / 16) (omega arith), unhex-hex_digit (c % 16) (omega arith))
      (joined (query_unescape s))
  where
    same : 16 * (c / 16) + c % 16 ≡ c
    same = omega arith

    joined : (o : Option Text) → cons? (some (c / 16)) (some (c % 16)) o ≡ prefix? c o
    joined none = refl
    joined (some t) = ap (λ (n : ℕ). some (n ∷ t)) same

unescape-escape_byte :
    (c : ℕ) (s : Text)
    → c < 256
    → query_unescape (escape_byte c ++ s) ≡ prefix? c (query_unescape s)
unfolding escape_byte unreserved
unescape-escape_byte c s h = ground (arith, plain_step c s, plain_step b'+' s, hex_step c s h)

-- Unescaping undoes escaping, for every text of bytes.
pub query_unescape-query_escape : (s : Text) → IsBytes s → query_unescape (query_escape s) ≡ some s
unfolding query_escape
query_unescape-query_escape [] h = unfold query_unescape in refl
query_unescape-query_escape (c ∷ s) (hc, hs) =
    rw (unescape-escape_byte c (query_escape s) hc, query_unescape-query_escape s hs)
      (unfold prefix? in refl)

escape_byte-no_slash : (c : ℕ) → c < 256 → has_byte slash (escape_byte c) ≡ false
unfolding escape_byte unreserved hex_digit has_byte
escape_byte-no_slash c h = ground arith

-- The escape of a text of bytes holds no slash, so that it names a file of its directory.
pub query_escape-no_slash : (s : Text) → IsBytes s → has_byte slash (query_escape s) ≡ false
unfolding query_escape
query_escape-no_slash [] h = unfold has_byte in refl
query_escape-no_slash (c ∷ s) (hc, hs) =
    has_byte-append slash (escape_byte c) (query_escape s) (escape_byte-no_slash c hc)
      (query_escape-no_slash s hs)
