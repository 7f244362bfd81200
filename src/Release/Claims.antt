-- ===== src/Release/Claims.antt =====
-- The set of seen blobs that the warmers of one `PullRelease` share, `warmManifestBlobs` of
-- internal/cache/pull.go: which blobs are being fetched while the warmers' steps interleave.
use regcachectl.Base.{
  ◌≡◌, ◌≢◌, ◌⊎◌, inl, inr, sym, ap, ◌∙◌, ℕ, zero, suc, List, [], ◌∷◌, true, false, Option, none,
  some, arith, get_elem?, set,
}
use regcachectl.Text.{Text, mem}
use regcachectl.Text.Equality.{eq_iff}
use regcachectl.Client.Warm.{store_key, delete_key}
use regcachectl.Client.Steps.{mem-store_key, mem-delete_key}
use regcachectl.Release.Schedules.{set_cases}

-- `hands` has the key of the blob that each warmer is fetching.
pub record Shared : Type 0 where
  pub seen : List Text
  pub hands : List (Option Text)

-- one warmer's step in the loop over the digests: `LoadOrStore` finds the key, or stores it and the
-- blob is fetched; a fetch succeeds, or fails and its key is deleted
pub data Move (s : Shared) : Shared → Type 0 where
  skip : (w : ℕ) (k : Text) → get_elem? s.hands w ≡ some none → mem k s.seen ≡ true → Move s s
  claim :
      (w : ℕ) (k : Text)
      → get_elem? s.hands w ≡ some none
      → mem k s.seen ≡ false
      → Move s (record s { seen = store_key k s.seen; hands = set s.hands w (some k) })
  fetched :
      (w : ℕ) (k : Text)
      → get_elem? s.hands w ≡ some (some k)
      → Move s (record s { hands = set s.hands w none })
  failed :
      (w : ℕ) (k : Text)
      → get_elem? s.hands w ≡ some (some k)
      → Move s (record s { seen = delete_key k s.seen; hands = set s.hands w none })

-- all warmers at work, with nothing fetched
unfoldable pub idle_hands : ℕ → List (Option Text)
idle_hands zero = []
idle_hands (suc n) = none ∷ idle_hands n

pub data Reached (n : ℕ) : Shared → Type 0 where
  begin : Reached n (record { seen = []; hands = idle_hands n })
  move : {s t : Shared} → Reached n s → Move s t → Reached n t

-- a key in hand is in the set, and in no other hand
record IsExclusive (s : Shared) : Type 0 where
  pub kept : (w : ℕ) (k : Text) → get_elem? s.hands w ≡ some (some k) → mem k s.seen ≡ true
  pub alone :
      (v w : ℕ) (k : Text)
      → get_elem? s.hands v ≡ some (some k)
      → get_elem? s.hands w ≡ some (some k)
      → v ≡ w

idle_hands-free : (n w : ℕ) (k : Text) → get_elem? (idle_hands n) w ≢ some (some k)
unfolding idle_hands
idle_hands-free zero w k h = cc
idle_hands-free (suc n) zero k h = cc
idle_hands-free (suc n) (suc w) k h = idle_hands-free n w k h

module _ {s : Shared} (inv : IsExclusive s) where
  claim-IsExclusive :
      (w : ℕ) (k : Text)
      → mem k s.seen ≡ false
      → IsExclusive (record s { seen = store_key k s.seen; hands = set s.hands w (some k) })
  claim-IsExclusive w k new = record {
    kept = λ v j h. held v j (set_cases s.hands w v (some k) (some j) h);
    alone = λ u v j hu hv.
        one u v j (set_cases s.hands w u (some k) (some j) hu)
          (set_cases s.hands w v (some k) (some j) hv);
  }
    where
      held :
          (v : ℕ) (j : Text)
          → ((w ≡ v) × (◌≡◌ {A = Option Text} (some k) (some j)))
            ⊎ ((w ≢ v) × (get_elem? s.hands v ≡ some (some j)))
          → mem j (store_key k s.seen) ≡ true
      held v j (inl (here, q)) =
          let e : k ≡ j = cc in ground (arith, mem-store_key j k s.seen, eq_iff k j)
      held v j (inr (there, h)) = ground (arith, mem-store_key j k s.seen, inv.kept v j h)

      one :
          (u v : ℕ) (j : Text)
          → ((w ≡ u) × (◌≡◌ {A = Option Text} (some k) (some j)))
            ⊎ ((w ≢ u) × (get_elem? s.hands u ≡ some (some j)))
          → ((w ≡ v) × (◌≡◌ {A = Option Text} (some k) (some j)))
            ⊎ ((w ≢ v) × (get_elem? s.hands v ≡ some (some j)))
          → u ≡ v
      one u v j (inl (a, q)) (inl (b, r)) = sym a ∙ b
      one u v j (inl (a, q)) (inr (b, h)) = let e : k ≡ j = cc in cc (inv.kept v j h, e, new)
      one u v j (inr (a, h)) (inl (b, q)) = let e : k ≡ j = cc in cc (inv.kept u j h, e, new)
      one u v j (inr (a, h)) (inr (b, i)) = inv.alone u v j h i

  -- a hand is emptied, and at most its key leaves the set
  release-IsExclusive :
      (w : ℕ) (k : Text) (seen : List Text)
      → get_elem? s.hands w ≡ some (some k)
      → ((j : Text) → k ≢ j → mem j s.seen ≡ true → mem j seen ≡ true)
      → IsExclusive (record s { seen = seen; hands = set s.hands w none })
  release-IsExclusive w k seen mine others = record {
    kept = λ v j h. held v j (set_cases s.hands w v none (some j) h);
    alone = λ u v j hu hv.
        one u v j (set_cases s.hands w u none (some j) hu) (set_cases s.hands w v none (some j) hv);
  }
    where
      held :
          (v : ℕ) (j : Text)
          → ((w ≡ v) × (◌≡◌ {A = Option Text} none (some j)))
            ⊎ ((w ≢ v) × (get_elem? s.hands v ≡ some (some j)))
          → mem j seen ≡ true
      held v j (inl (here, q)) = cc
      held v j (inr (there, h)) =
          others j (λ e. there (inv.alone w v j (mine ∙ ap (λ (x : Text). some (some x)) e) h))
            (inv.kept v j h)

      one :
          (u v : ℕ) (j : Text)
          → ((w ≡ u) × (◌≡◌ {A = Option Text} none (some j)))
            ⊎ ((w ≢ u) × (get_elem? s.hands u ≡ some (some j)))
          → ((w ≡ v) × (◌≡◌ {A = Option Text} none (some j)))
            ⊎ ((w ≢ v) × (get_elem? s.hands v ≡ some (some j)))
          → u ≡ v
      one u v j (inl (a, q)) y = cc
      one u v j (inr (a, h)) (inl (b, q)) = cc
      one u v j (inr (a, h)) (inr (b, i)) = inv.alone u v j h i

begin-IsExclusive : (n : ℕ) → IsExclusive (record { seen = []; hands = idle_hands n })
begin-IsExclusive n = record {
  kept = λ w k h. absurd (idle_hands-free n w k h);
  alone = λ v w k h i. absurd (idle_hands-free n v k h);
}

Reached-IsExclusive : {n : ℕ} {s : Shared} → Reached n s → IsExclusive s
Reached-IsExclusive {n} begin = begin-IsExclusive n
Reached-IsExclusive (move run (skip w k h m)) = Reached-IsExclusive run
Reached-IsExclusive (move run (claim w k h m)) = claim-IsExclusive (Reached-IsExclusive run) w k m
Reached-IsExclusive (move {s} run (fetched w k h)) =
    release-IsExclusive (Reached-IsExclusive run) w k s.seen h (λ j n m. m)
Reached-IsExclusive (move {s} run (failed w k h)) =
    release-IsExclusive (Reached-IsExclusive run) w k (delete_key k s.seen) h
      (λ j n m. ground (arith, mem-delete_key j k s.seen, eq_iff k j))

-- In no interleaving of the warmers, with failed fetches among them, do two of them fetch the same blob
-- through the same cache and repository at once.
pub Reached-exclusive :
    {n : ℕ} {s : Shared} (v w : ℕ) (k : Text)
    → Reached n s
    → get_elem? s.hands v ≡ some (some k)
    → get_elem? s.hands w ≡ some (some k)
    → v ≡ w
Reached-exclusive v w k run hv hw = (Reached-IsExclusive run).alone v w k hv hw
