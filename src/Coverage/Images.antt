-- ===== src/Coverage/Images.antt =====
-- `parseImageReferences` of internal/cache/release.go.
use regcachectl.Base.{
  ◌≡◌, inl, inr, refl, Bool, false, not, ◌&&◌, ◌||◌, List, [], ◌∷◌, ◌++◌, some_of, subst, ap, arith,
  if◌then◌else◌, Bool-cases,
}
use regcachectl.Base.Results.{Result, ok, err, wrap, ◌>>=◌}
use regcachectl.Text.Quote.{quoted}
use regcachectl.Text.{Text, codes, eq, is_empty, mem}
use regcachectl.Text.Equality.{eq_iff, eq_refl, is_empty_iff}
use regcachectl.Coverage.{Tag, ImageStream, Codec}

unfoldable pub image_references_path : Text
image_references_path = codes "release-manifests/image-references"

-- `parseImageReferences` behind the decoding: the loop, with the names that it has met
unfoldable pub distinct_images : List Text → List Tag → List Text
distinct_images seen [] = []
distinct_images seen (t ∷ ts) =
    let rest = distinct_images seen ts in
    let more = distinct_images (t.name ∷ seen) ts in
    if not (eq t.kind (codes "DockerImage")) || is_empty t.name || mem t.name seen
    then rest
    else t.name ∷ more

unfoldable pub some_images : List Text → Result (List Text)
some_images [] = err (image_references_path ++ codes " lists no images")
some_images (r ∷ refs) = ok (r ∷ refs)

unfoldable pub stream_images : ImageStream → Result (List Text)
stream_images is =
    if not (eq is.kind (codes "ImageStream"))
    then err
        (image_references_path ++ codes " is a " ++ quoted is.kind ++ codes ", want an ImageStream")
    else some_images (distinct_images [] is.tags)

-- No name stands twice in a list.
abbrev pub AreDistinct : List Text → Type 0
AreDistinct [] = Unit
AreDistinct (r ∷ rs) = (mem r rs ≡ false) × AreDistinct rs

abbrev pub is_image : Text → Tag → Bool
is_image r t = eq t.kind (codes "DockerImage") && eq t.name r

mem-distinct_images :
    (r : Text) (seen : List Text) (ts : List Tag)
    → is_empty r ≡ false
    → mem r (distinct_images seen ts) ≡ (some_of (is_image r) ts && not (mem r seen))
unfolding distinct_images mem
mem-distinct_images r seen [] h = ground arith
mem-distinct_images r seen (t ∷ ts) h = ground (
  arith,
  eq_iff t.name r,
  mem-distinct_images r seen ts h,
  mem-distinct_images r (t.name ∷ seen) ts h,
)

mem_nil_distinct : (seen : List Text) (ts : List Tag) → mem [] (distinct_images seen ts) ≡ false
unfolding distinct_images mem is_empty eq
mem_nil_distinct seen [] = refl
mem_nil_distinct seen (t ∷ ts) = ground (
  arith,
  eq_iff t.name [],
  is_empty_iff t.name,
  mem_nil_distinct seen ts,
  mem_nil_distinct (t.name ∷ seen) ts,
)

seen_absent :
    (r : Text) (seen : List Text) (ts : List Tag)
    → is_empty r ≡ false
    → mem r (distinct_images (r ∷ seen) ts) ≡ false
unfolding mem
seen_absent r seen ts h = ground (arith, eq_refl r, mem-distinct_images r (r ∷ seen) ts h)

distinct_images-AreDistinct :
    (seen : List Text) (ts : List Tag) → AreDistinct (distinct_images seen ts)
unfolding distinct_images
distinct_images-AreDistinct seen [] = tt
distinct_images-AreDistinct seen (t ∷ ts) = elim (Bool-cases skipped) [
  | inl skip ↦ rw skip (distinct_images-AreDistinct seen ts)
  | inr keep ↦
      rw keep
        (seen_absent t.name seen ts (ground arith), distinct_images-AreDistinct (t.name ∷ seen) ts)
]
  where
    skipped : Bool
    skipped = not (eq t.kind (codes "DockerImage")) || is_empty t.name || mem t.name seen

listed_images :
    (is : ImageStream) (refs : List Text)
    → stream_images is ≡ ok refs
    → distinct_images [] is.tags ≡ refs
unfolding stream_images some_images
listed_images is refs h = elim (Bool-cases (eq is.kind (codes "ImageStream"))) [
  | inr other ↦ absurd (cc (rw other at h))
  | inl good ↦ from_some (distinct_images [] is.tags) (rw good at h)
]
  where
    from_some : (found : List Text) → some_images found ≡ ok refs → found ≡ refs
    from_some [] h = cc
    from_some (r ∷ rs) h = cc

-- The images of a release are those that its stream names, each one once.
pub stream_images_iff :
    (is : ImageStream) (refs : List Text)
    → stream_images is ≡ ok refs
    → AreDistinct refs
      × ((r : Text) → is_empty r ≡ false → mem r refs ≡ some_of (is_image r) is.tags)
unfolding mem
stream_images_iff is refs h =
    let e : distinct_images [] is.tags ≡ refs = listed_images is refs h in
    (
      subst AreDistinct e (distinct_images-AreDistinct [] is.tags),
      λ r p. ground (arith, mem-distinct_images r [] is.tags p, ap (mem r) e),
    )

module _ (c : Codec) where
  unfoldable pub parse_image_references : Text → Result (List Text)
  parse_image_references raw = do
    is ← wrap (λ e. codes "parse " ++ image_references_path ++ codes ": " ++ e) (c.stream raw)
    stream_images is
