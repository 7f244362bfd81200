-- ===== src/Listing/Sizes.antt =====
-- What `HumanBytes` of internal/cache/list.go prints.
use regcachectl.Base.{
  ◌≡◌, ℕ, ◌+◌, ◌*◌, ◌^◌, ◌≤◌, ◌<◌, inl, inr, ◌∷◌, ◌++◌, ltb, leb, arith, Bool-cases, false,
}
use regcachectl.Text.{codes}
use regcachectl.Listing.{unit_loop, unit_of, tenths, fixed_one, human_bytes}

-- a divisor and the letter of its unit
pub data IsUnit : ℕ → ℕ → Type 0 where
  kilo : IsUnit 1024 b'K'
  mega : IsUnit 1048576 b'M'
  giga : IsUnit 1073741824 b'G'
  tera : IsUnit 1099511627776 b'T'
  peta : IsUnit 1125899906842624 b'P'

-- `t` tenths of the unit are as near to `n` as a number of tenths can be.
pub record IsNear (n d t : ℕ) : Type 0 where
  pub below : 2 * (t * d) ≤ 20 * n + d
  pub above : 20 * n ≤ 2 * (t * d) + d

tenths-IsNear : {d u : ℕ} (n : ℕ) → IsUnit d u → IsNear n d (tenths n d)
unfolding tenths
tenths-IsNear n kilo = record { below = ground arith; above = ground arith }
tenths-IsNear n mega = record { below = ground arith; above = ground arith }
tenths-IsNear n giga = record { below = ground arith; above = ground arith }
tenths-IsNear n tera = record { below = ground arith; above = ground arith }
tenths-IsNear n peta = record { below = ground arith; above = ground arith }

-- the unit that is chosen: the largest one that is not larger than the number
pub record IsChosen (n d u : ℕ) : Type 0 where
  pub unit : IsUnit d u
  pub chosen : unit_of n ≡ (d, u)
  pub at_least : d ≤ n
  pub largest : n < 2 ^ 60 → n < 1024 * d

choose : (n : ℕ) → 1024 ≤ n → (d : ℕ) × (u : ℕ) × IsChosen n d u
unfolding unit_of unit_loop
choose n h = elim (Bool-cases (leb 1125899906842624 n)) [
  | inl p ↦ (
    _,
    _,
    record {
      unit = peta;
      chosen = ground arith;
      at_least = ground arith;
      largest = λ l. omega arith;
    },
  )
  | inr p ↦ elim (Bool-cases (leb 1099511627776 n)) [
    | inl t ↦ (
      _,
      _,
      record {
        unit = tera;
        chosen = ground arith;
        at_least = ground arith;
        largest = λ l. ground arith;
      },
    )
    | inr t ↦ elim (Bool-cases (leb 1073741824 n)) [
      | inl g ↦ (
        _,
        _,
        record {
          unit = giga;
          chosen = ground arith;
          at_least = ground arith;
          largest = λ l. ground arith;
        },
      )
      | inr g ↦ elim (Bool-cases (leb 1048576 n)) [
        | inl m ↦ (
          _,
          _,
          record {
            unit = mega;
            chosen = ground arith;
            at_least = ground arith;
            largest = λ l. ground arith;
          },
        )
        | inr m ↦ (
          _,
          _,
          record { unit = kilo; chosen = ground arith; at_least = h; largest = λ l. ground arith },
        )
      ]
    ]
  ]
]

tenths-bound :
    {d u : ℕ} (n : ℕ) → IsUnit d u → IsNear n d (tenths n d) → n < 1024 * d → tenths n d ≤ 10240
tenths-bound n kilo near l = omega (arith, near.below)
tenths-bound n mega near l = omega (arith, near.below)
tenths-bound n giga near l = omega (arith, near.below)
tenths-bound n tera near l = omega (arith, near.below)
tenths-bound n peta near l = omega (arith, near.below)

printed :
    (n d u : ℕ)
    → 1024 ≤ n
    → unit_of n ≡ (d, u)
    → human_bytes n ≡ fixed_one (tenths n d) ++ (u ∷ codes "B")
unfolding human_bytes
printed n d u h e = let big : ltb n 1024 ≡ false = ground arith in simp (big, e)

-- A number of bytes from 1024 up to the numbers that a float64 holds exactly is printed as a decimal in
-- the largest unit that is not larger than it. The decimal is the nearest one with one digit behind the
-- point: it is off by at most half a tenth of the unit, and is never more than 1024.0.
pub human_bytes-IsNear :
    (n : ℕ)
    → 1024 ≤ n
    → n < 2 ^ 53
    → (d u : ℕ) × (human_bytes n ≡ fixed_one (tenths n d) ++ (u ∷ codes "B"))
      × IsChosen n d u
      × IsNear n d (tenths n d)
      × (tenths n d ≤ 10240)
human_bytes-IsNear n h l =
    let (d, u, c) = choose n h in
    let near = tenths-IsNear n c.unit in
    (
      d,
      u,
      printed n d u h c.chosen,
      c,
      near,
      tenths-bound n c.unit near (c.largest (omega (arith, l))),
    )
