-- ===== src/Text/Search.antt =====
-- Cutting at the first or the last of a byte (strings.Index, strings.LastIndex, strings.Cut).
use regcachectl.Base.{◌+◌, ◌≡◌, refl, false, [], ◌∷◌, ℕ, arith, some, none, ◌++◌, List, ◌||◌}
use regcachectl.Text.{Text, eq, cut, cut_last, has_byte, count, mem, insert_text, sort}

module _ (c : ℕ) where
  -- The first cut of a text that is put together at a byte takes it apart there.
  pub cut-append : (a b : Text) → has_byte c a ≡ false → cut c (a ++ c ∷ b) ≡ some (a, b)
  unfolding cut has_byte
  cut-append [] b h = ground arith
  cut-append (x ∷ a) b h = ground (arith, cut-append a b)

  pub cut-none : (s : Text) → has_byte c s ≡ false → cut c s ≡ none
  unfolding cut has_byte
  cut-none [] h = refl
  cut-none (x ∷ s) h = ground (arith, cut-none s)

  pub cut_sound :
      (s : Text) {a b : Text} → cut c s ≡ some (a, b) → (s ≡ a ++ c ∷ b) × (has_byte c a ≡ false)
  unfolding cut has_byte
  cut_sound [] h = cc
  cut_sound (x ∷ s) {a = []} {b} h = ground arith
  cut_sound (x ∷ s) {a = y ∷ a} {b} h = ground (arith, cut_sound s {a = a} {b = b})

  pub cut_last-none : (s : Text) → has_byte c s ≡ false → cut_last c s ≡ none
  unfolding cut_last has_byte
  cut_last-none [] h = refl
  cut_last-none (x ∷ s) h = ground (arith, cut_last-none s)

  pub cut_last-append : (a b : Text) → has_byte c b ≡ false → cut_last c (a ++ c ∷ b) ≡ some (a, b)
  unfolding cut_last
  cut_last-append [] b h = ground (arith, cut_last-none b)
  cut_last-append (x ∷ a) b h = ground (arith, cut_last-append a b)

  pub has_byte-append :
      (a b : Text) → has_byte c a ≡ false → has_byte c b ≡ false → has_byte c (a ++ b) ≡ false
  unfolding has_byte
  has_byte-append [] b h k = k
  has_byte-append (x ∷ a) b h k = ground (arith, has_byte-append a b)

  pub count-append : (a b : Text) → count c (a ++ b) ≡ count c a + count c b
  unfolding count
  count-append [] b = omega arith
  count-append (x ∷ a) b = ground (arith, count-append a b)

pub mem-append : (k : Text) (ls ms : List Text) → mem k (ls ++ ms) ≡ (mem k ls || mem k ms)
unfolding mem
mem-append k [] ms = refl
mem-append k (l ∷ ls) ms = ground (arith, mem-append k ls ms)

mem-insert : (k s : Text) (ts : List Text) → mem k (insert_text s ts) ≡ (eq s k || mem k ts)
unfolding mem insert_text
mem-insert k s [] = refl
mem-insert k s (t ∷ ts) = ground (arith, mem-insert k s ts)

pub mem-sort : (k : Text) (ts : List Text) → mem k (sort ts) ≡ mem k ts
unfolding mem sort
mem-sort k [] = refl
mem-sort k (t ∷ ts) = ground (arith, mem-insert k t (sort ts), mem-sort k ts)
