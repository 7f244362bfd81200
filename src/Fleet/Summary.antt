-- ===== src/Fleet/Summary.antt =====
-- `gcSummary` of internal/cache/cache.go: the first match of the expression `gcCounts` in the output of
-- the garbage collection.
use regcachectl.Base.{
  ◌≡◌, refl, ℕ, ◌+◌, ◌-◌, ◌*◌, ◌^◌, Bool, ◌&&◌, [], ◌∷◌, ◌++◌, Option, none, some, if◌then◌else◌,
  ltb, leb,
}
use regcachectl.Text.{Text, codes, strip, itoa, last_line}

abbrev is_digit : ℕ → Bool
is_digit c = leb b'0' c && leb c b'9'

-- the digits at the front, and what is behind them: `\d+` where there are any, since no digit follows it
-- in the expression
unfoldable digits : Text → Text × Text
digits [] = ([], [])
digits (c ∷ s) = let (ds, rest) = digits s in if is_digit c then (c ∷ ds, rest) else ([], c ∷ s)

value_from : ℕ → Text → ℕ
value_from n [] = n
value_from n (c ∷ s) = value_from (n * 10 + (c - b'0')) s

-- `strconv.Atoi` of digits, whose error is ignored: the largest `int` where they exceed it
unfoldable pub atoi_clamped : Text → ℕ
unfolding value_from
atoi_clamped s = let n = value_from 0 s in if ltb n (2 ^ 63) then n else 2 ^ 63 - 1

-- `(\d+)` with the literal behind it, at the front of a text
unfoldable pub number_and : Text → Text → Option (Text × Text)
unfolding digits
number_and word s = behind (digits s)
  where
    with_number : Text → Option Text → Option (Text × Text)
    with_number ds none = none
    with_number ds (some rest) = some (ds, rest)

    behind : Text × Text → Option (Text × Text)
    behind ([], rest) = none
    behind (d ∷ ds, rest) = with_number (d ∷ ds) (strip word rest)

-- the three submatches
pub record Counts : Type 0 where
  pub marked : Text
  pub blobs : Text
  pub manifests : Text

infixl 5 ◌>>=◌
abbrev ◌>>=◌ {ℓ κ} : {A : Type ℓ} {B : Type κ} → Option A → (A → Option B) → Option B
none >>= f = none
some a >>= f = f a

-- a match of `gcCounts` at the front of a text
unfoldable pub counts_here : Text → Option Counts
unfolding number_and
counts_here s = do
  (marked, a) ← number_and (codes " blobs marked, ") s
  (blobs, b) ← number_and (codes " blobs and ") a
  (manifests, c) ← number_and (codes " manifests eligible for deletion") b
  some (record { marked = marked; blobs = blobs; manifests = manifests })

abbrev or_counts : Option Counts → Option Counts → Option Counts
or_counts (some m) rest = some m
or_counts none rest = rest

-- `gcCounts.FindStringSubmatch`: the leftmost match
unfoldable pub find_counts : Text → Option Counts
unfolding counts_here
find_counts [] = counts_here []
find_counts (c ∷ s) = or_counts (counts_here (c ∷ s)) (find_counts s)

abbrev summary_of : Text → Option Counts → Text
summary_of out none = last_line out
summary_of out (some m) =
    itoa (atoi_clamped m.marked)
    ++ codes " blobs kept, "
    ++ itoa (atoi_clamped m.blobs)
    ++ codes " blobs and "
    ++ itoa (atoi_clamped m.manifests)
    ++ codes " manifests deleted"

-- `gcSummary`
unfoldable pub gc_summary : Text → Text
unfolding find_counts atoi_clamped
gc_summary out = summary_of out (find_counts out)

summarised :
    gc_summary (
      codes "repo\n12 blobs marked, 3 blobs and 1 manifests eligible for deletion\nblob eligible\n")
    ≡ codes "12 blobs kept, 3 blobs and 1 manifests deleted"
unfolding gc_summary strip itoa
summarised = refl
