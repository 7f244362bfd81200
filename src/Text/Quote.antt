-- ===== src/Text/Quote.antt =====
-- The verb `%q` of package fmt. Bytes above ASCII are kept, as for printable text in UTF-8.
use regcachectl.Base.{
  ◌≡◌, refl, ℕ, ◌+◌, ◌-◌, ◌/◌, ◌%◌, ◌||◌, ◌&&◌, [], ◌∷◌, ◌++◌, if◌then◌else◌, ◌==◌, ltb,
}
use regcachectl.Text.{Text, codes, quote, utf8}

low_hex : ℕ → ℕ
low_hex n = if ltb n 10 then b'0' + n else b'a' + (n - 10)

-- the letter behind the backslash, for the control characters that have one
control_letter : ℕ → ℕ
control_letter c =
    if c == 7
    then b'a'
    else if c == 8
    then b'b'
    else if c == 9
    then b't'
    else if c == 10
    then b'n'
    else if c == 11
    then b'v'
    else if c == 12
    then b'f'
    else if c == 13
    then b'r'
    else 0

quote_byte : ℕ → Text
unfolding low_hex control_letter
quote_byte c =
    if c == quote || c == b'\\'
    then b'\\' ∷ c ∷ []
    else if ltb 6 c && ltb c 14
    then b'\\' ∷ control_letter c ∷ []
    else if ltb c 32 || c == 127
    then b'\\' ∷ b'x' ∷ low_hex (c / 16) ∷ low_hex (c % 16) ∷ []
    else c ∷ []

quote_bytes : Text → Text
unfolding quote_byte
quote_bytes [] = []
quote_bytes (c ∷ s) = quote_byte c ++ quote_bytes s

unfoldable pub quoted : Text → Text
unfolding quote_bytes
quoted s = quote ∷ (quote_bytes s ++ quote ∷ [])

escaped : quoted (codes "a\"b") ≡ codes "\"a\\\"b\""
unfolding quoted
escaped = refl

dashed : utf8 "—" ≡ 226 ∷ 128 ∷ 148 ∷ []
dashed = refl
