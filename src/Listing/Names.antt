-- ===== src/Listing/Names.antt =====
-- The names that `fillBlobcache` of internal/cache/list.go lists.
use regcachectl.Base.{
  ◌≡◌, refl, sym, ap, subst, ◌∙◌, Bool, true, false, not, ◌||◌, List, [], ◌∷◌, ◌++◌, some, ◌==◌,
  arith, length, map, select, some_of, Bool-cases, inl, inr,
}
use regcachectl.Text.{Text, codes, eq, mem, sort}
use regcachectl.Text.Equality.{eq_iff}
use regcachectl.Text.Search.{mem-append, mem-sort}
use regcachectl.Dict.{get}
use regcachectl.Listing.Inventory.{
  Object, Listing, Blob, Inventory, named, is_digest_ref, repo_names, add_names, repo_set,
  or_no_refs, all_names, with_inventory,
}

mem-add_names : (r : Text) (ns rs : List Text) → mem r (add_names ns rs) ≡ (mem r ns || mem r rs)
unfolding add_names mem
mem-add_names r [] rs = refl
mem-add_names r (n ∷ ns) rs = ground (arith, eq_iff n r, mem-add_names r ns rs)

mem-repo_set : (r : Text) (bs : List Blob) → mem r (repo_set bs) ≡ some_of (λ b. mem r b.repos) bs
unfolding repo_set mem
mem-repo_set r [] = refl
mem-repo_set r (b ∷ bs) = ground (arith, mem-add_names r b.repos (repo_set bs), mem-repo_set r bs)

mem-map :
    (f : Text → Text) (t : Text) (ts : List Text) → mem t ts ≡ true → mem (f t) (map f ts) ≡ true
unfolding mem
mem-map f t [] h = cc
mem-map f t (s ∷ ts) h = elim (Bool-cases (eq s t)) [
  | inl same ↦ ground (arith, eq_iff (f s) (f t), ap f ((eq_iff s t).0 same))
  | inr other ↦ ground (arith, mem-map f t ts)
]

mem-select :
    (p : Text → Bool) (t : Text) (ts : List Text)
    → mem t ts ≡ true
    → p t ≡ true
    → mem t (select p ts) ≡ true
unfolding mem
mem-select p t [] h q = cc
mem-select p t (s ∷ ts) h q = elim (Bool-cases (eq s t)) [
  | inl same ↦ ground (arith, ap p ((eq_iff s t).0 same), mem-select p t ts)
  | inr other ↦ ground (arith, mem-select p t ts)
]

mem-nonempty : (t : Text) (ts : List Text) → mem t ts ≡ true → (length ts == 0) ≡ false
unfolding mem
mem-nonempty t [] h = cc
mem-nonempty t (s ∷ ts) h = ground arith

mem-repo_names :
    (r t : Text) (refs : List Text)
    → mem t refs ≡ true
    → is_digest_ref t ≡ false
    → mem (r ++ codes ":" ++ t) (repo_names r refs) ≡ true
unfolding repo_names
mem-repo_names r t refs h q =
    let is_tag : Text → Bool = λ u. not (is_digest_ref u) in
    let m : mem t (select is_tag refs) ≡ true = mem-select is_tag t refs h (ap not q) in
    let some_tag = mem-nonempty t (select is_tag refs) m in
    simp (some_tag, mem-map (λ u. r ++ codes ":" ++ u) t (select is_tag refs) m)

mem-all_names :
    (st : Inventory) (n r : Text) (rs : List Text)
    → mem r rs ≡ true
    → mem n (repo_names r (or_no_refs (get r st.tags))) ≡ true
    → mem n (all_names st.tags rs) ≡ true
unfolding all_names mem
mem-all_names st n r [] h q = cc
mem-all_names st n r (s ∷ rs) h q = elim (Bool-cases (eq s r)) [
  | inl same ↦
      let k : mem n (repo_names s (or_no_refs (get s st.tags))) ≡ true =
        subst (λ x. mem n (repo_names x (or_no_refs (get x st.tags))) ≡ true)
          (sym ((eq_iff s r).0 same)) q in
      ground
        (arith, mem-append n (repo_names s (or_no_refs (get s st.tags))) (all_names st.tags rs), k)
  | inr other ↦ ground (
    arith,
    mem-append n (repo_names s (or_no_refs (get s st.tags))) (all_names st.tags rs),
    mem-all_names st n r rs,
  )
]

pub names_of_objects : List Object → List Text
names_of_objects [] = []
names_of_objects (o ∷ os) = o.name ∷ names_of_objects os

mem-named :
    (n : Text) (ns : List Text) (us : List Object)
    → mem n ns ≡ true
    → mem n (names_of_objects (map named ns ++ us)) ≡ true
unfolding mem names_of_objects
mem-named n [] us h = cc
mem-named n (m ∷ ns) us h = ground (arith, mem-named n ns us)

mem-objects :
    (n : Text) (os us : List Object)
    → mem n (names_of_objects us) ≡ true
    → mem n (names_of_objects (os ++ us)) ≡ true
unfolding mem names_of_objects
mem-objects n [] us h = h
mem-objects n (o ∷ os) us h = ground (arith, mem-objects n os us h)

-- Each tag that the blob cache reports for a repository, of which it holds a blob with that name, is
-- listed as `repo:tag`, whatever the other entries are.
pub with_inventory-lists_tags :
    (st : Inventory) (l : Listing) (r t : Text)
    → some_of (λ b. mem r b.repos) st.blobs ≡ true
    → mem t (or_no_refs (get r st.tags)) ≡ true
    → is_digest_ref t ≡ false
    → mem (r ++ codes ":" ++ t) (names_of_objects (with_inventory (some st) l).objects) ≡ true
unfolding with_inventory
with_inventory-lists_tags st l r t held tagged tag =
    let rs = sort (repo_set st.blobs) in
    let named_repo : mem r rs ≡ true =
      mem-sort r (repo_set st.blobs) ∙ mem-repo_set r st.blobs ∙ held in
    mem-objects (r ++ codes ":" ++ t) l.objects _ (
      mem-named (r ++ codes ":" ++ t) (all_names st.tags rs) _ (
        mem-all_names st (r ++ codes ":" ++ t) r rs named_repo
          (mem-repo_names r t (or_no_refs (get r st.tags)) tagged tag)))
