-- ===== src/Client/Steps.antt =====
-- One step of the loop of `warmManifestBlobs` of internal/cache/pull.go, and its set of seen blobs.
use regcachectl.Base.{
  ◌≡◌, ◌⊎◌, inl, inr, refl, sym, ap, ◌∙◌, subst, true, not, ◌&&◌, ◌||◌, List, [], ◌∷◌, ◌++◌, Option,
  none, some, arith, Bool-cases, drop, drop-append, length, Bool,
}
use regcachectl.Base.Results.{Result, ok, err}
use regcachectl.Text.{Text, slash, at_sign, eq, mem}
use regcachectl.Text.Equality.{eq_iff}
use regcachectl.Coverage.{Codec}
use regcachectl.Client.{Client, Session, Network}
use regcachectl.Client.Warm.{
  store_key, delete_key, has_key, is_loaded, change_seen, seen_key, settle, warm_digest,
}
use regcachectl.Client.Fetched.{
  WasFetched, IsCovered, SeenAreFetched, IsWarmed, warm_blob-IsWarmed, WasFetched-IsWarmed,
}

append_cancel : (xs ys zs : Text) → xs ++ ys ≡ xs ++ zs → ys ≡ zs
append_cancel xs ys zs h = sym (drop-append xs ys) ∙ ap (drop (length xs)) h ∙ drop-append xs zs

pub mem-delete_key :
    (j k : Text) (ks : List Text) → mem j (delete_key k ks) ≡ (mem j ks && not (eq k j))
unfolding delete_key mem
mem-delete_key j k [] = refl
mem-delete_key j k (i ∷ ks) =
    ground (arith, eq_iff i k, eq_iff i j, eq_iff k j, mem-delete_key j k ks)

pub mem-store_key : (j k : Text) (ks : List Text) → mem j (store_key k ks) ≡ (eq k j || mem j ks)
unfolding store_key mem
mem-store_key j k ks = ground (arith, eq_iff k j)

has_key_store :
    (j k : Text) (o : Option (List Text))
    → has_key j (change_seen (store_key k) o) ≡ true
    → (k ≡ j) ⊎ (has_key j o ≡ true)
has_key_store j k none h = cc
has_key_store j k (some ks) h = elim (Bool-cases (eq k j)) [
  | inl same ↦ inl ((eq_iff k j).0 same)
  | inr other ↦ inr (ground (arith, mem-store_key j k ks))
]

has_key_deleted :
    (j k : Text) (o : Option (List Text))
    → has_key j (change_seen (delete_key k) (change_seen (store_key k) o)) ≡ true
    → has_key j o ≡ true
has_key_deleted j k none h = cc
has_key_deleted j k (some ks) h =
    ground (arith, mem-delete_key j k (store_key k ks), mem-store_key j k ks)

is_loaded_lem :
    (by_other : Bool) (k : Text) (o : Option (List Text))
    → is_loaded by_other k o ≡ true
    → (has_key k o ≡ true) ⊎ (by_other ≡ true)
is_loaded_lem by_other k none h = cc
is_loaded_lem by_other k (some ks) h = elim (Bool-cases by_other) [
  | inl other ↦ inr other
  | inr alone ↦ inl (ground arith)
]

module _ (net : Network) (c : Codec) (pc : Client) where
  seen_key_injective : (d e : Text) → seen_key net c pc d ≡ seen_key net c pc e → d ≡ e
  unfolding seen_key
  seen_key_injective d e h =
      let a = ap (drop 1) (
        append_cancel pc.base (slash ∷ (pc.repo ++ at_sign ∷ d)) (slash ∷ (pc.repo ++ at_sign ∷ e))
          h) in
      ap (drop 1) (append_cancel pc.repo (at_sign ∷ d) (at_sign ∷ e) a)

  -- A step of the loop that succeeds has its blob fetched or left to another warmer, and every step
  -- keeps the set of seen blobs true.
  pub record IsStep (d : Text) (r : Result (Unit {0})) (after : Session) : Type 0 where
    pub seen : SeenAreFetched net c pc after
    pub fetched : r ≡ ok tt → IsCovered net c pc after.sent d

  settle-IsStep :
      (d : Text) (s : Session) (r : Result (Unit {0})) (after : Session)
      → SeenAreFetched net c pc s
      → IsWarmed net c pc d
          (record s { seen = change_seen (store_key (seen_key net c pc d)) s.seen })
          r
          after
      → IsStep d
          (settle net c pc (seen_key net c pc d) (r, after)).0
          (settle net c pc (seen_key net c pc d) (r, after)).1
  settle-IsStep d s (ok tt) after h w = record {
    seen = record { fetched = λ e k. here e (has_key_store _ _ s.seen (rw w.seen at k)) };
    fetched = λ q. inl (w.fetched q);
  }
    where
      here :
          (e : Text)
          → (seen_key net c pc d ≡ seen_key net c pc e)
            ⊎ (has_key (seen_key net c pc e) s.seen ≡ true)
          → WasFetched net c pc after.sent e
      here e (inl same) =
          subst (WasFetched net c pc after.sent) (seen_key_injective d e same) (w.fetched refl)
      here e (inr old) = WasFetched-IsWarmed net c pc d e _ (ok tt) after w (h.fetched e old)
  settle-IsStep d s (err x) after h w = record {
    seen = record {
      fetched = λ e k.
          WasFetched-IsWarmed net c pc d e _ (err x) after w
            (h.fetched e (has_key_deleted _ _ s.seen (rw w.seen at k)));
    };
    fetched = λ q. cc;
  }

  pub warm_digest-IsStep :
      (d : Text) (s : Session)
      → SeenAreFetched net c pc s
      → IsStep d (warm_digest net c pc d s).0 (warm_digest net c pc d s).1
  unfolding warm_digest
  warm_digest-IsStep d s h =
      elim (Bool-cases
        (is_loaded (net.claimed s.sent (seen_key net c pc d)) (seen_key net c pc d) s.seen)) [
          | inl known ↦ rw known (record {
            seen = h;
            fetched = λ q. elim (is_loaded_lem _ _ s.seen known) [
              | inl own ↦ inl (h.fetched d own)
              | inr other ↦
                  inr (record { newer = []; older = s.sent; place = refl; claimed = other })
            ];
          })
          | inr fresh ↦ rw fresh (settle-IsStep d s _ _ h (warm_blob-IsWarmed net c pc d _))
        ]
