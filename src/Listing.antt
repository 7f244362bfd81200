-- ===== src/Listing.antt =====
-- `HumanBytes` of internal/cache/list.go, for numbers of bytes that a float64 holds exactly (below 2^53).
pub mod Sizes
pub mod Inventory
pub mod Walk
pub mod Names
mod Tests
use regcachectl.Base.{
  ◌≡◌, refl, ℕ, zero, suc, ◌+◌, ◌*◌, ◌/◌, ◌%◌, List, [], ◌∷◌, ◌++◌, if◌then◌else◌, ltb, leb, ◌==◌,
}
use regcachectl.Text.{Text, codes, itoa}

-- The divisor, and the letter of its unit: `f` is the number over the divisor.
unfoldable pub unit_loop : ℕ → ℕ → ℕ → List ℕ → ℕ × ℕ
unit_loop n d u [] = (d, u)
unit_loop n d u (v ∷ vs) =
    let rest = unit_loop n (d * 1024) v vs in if leb (d * 1024) n then rest else (d, u)

unfoldable pub unit_of : ℕ → ℕ × ℕ
unit_of n = unit_loop n 1 0 (codes "KMGTP")

-- `%.1f` of `n / d`, in tenths: the nearest one, and of two the even one
unfoldable pub tenths : ℕ → ℕ → ℕ
tenths n d =
    let q = 10 * n / d in
    let twice = 2 * (10 * n % d) in
    if ltb twice d then q else (if ltb d twice then q + 1 else q + q % 2)

abbrev pub fixed_one : ℕ → Text
fixed_one t = itoa (t / 10) ++ codes "." ++ itoa (t % 10)

unfoldable pub human_bytes : ℕ → Text
human_bytes n =
    if ltb n 1024
    then itoa n ++ codes "B"
    else (let (d, u) = unit_of n in fixed_one (tenths n d) ++ (u ∷ codes "B"))
