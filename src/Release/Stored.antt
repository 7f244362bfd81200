-- ===== src/Release/Stored.antt =====
-- What it means that an image is stored by the cache of its registry, and that `missingOnDisk` of
-- internal/cache/release.go leaves out no other.
use regcachectl.Base.{
  ◌≡◌, ◌⊎◌, inl, inr, refl, ap, subst, ℕ, true, false, List, [], ◌∷◌, Option, none, some, arith,
  Bool-cases, Option-cases,
}
use regcachectl.Base.Results.{ok, Result-cases}
use regcachectl.Base.Stateful.{Stateful, pure, bind_ok}
use regcachectl.Text.{Text, eq, mem}
use regcachectl.Text.Equality.{eq_iff}
use regcachectl.Dict.{Dict, get, put, get-put}
use regcachectl.Upstream.{Upstream, upstream_for_host}
use regcachectl.Reference.{ImageRef, parse_ref}
use regcachectl.Coverage.{Codec, Store}
use regcachectl.Coverage.Complete.{IsComplete, image_on_disk_sound}
use regcachectl.Release.Missing.{
  image_digest, view_for, is_full, note_missing, check_view, check_host, check_ref, missing_loop,
  missing_on_disk,
}

module _ {W : Type 0} (open_store : Upstream → Stateful W Store) (c : Codec) (platform : Text) where
  -- The view was opened for a cache of that name.
  pub record IsOpened (name : Text) (v : Store) : Type 0 where
    pub upstream : Upstream
    pub named : upstream.name ≡ name
    pub world : W
    pub opened : (open_store upstream world).0 ≡ ok v

  -- The reference names an image of a registry that has a cache other than the blob cache, and a view
  -- that was opened for this cache holds the image completely.
  pub record IsStored (r : Text) : Type 0 where
    pub ref : ImageRef
    pub parsed : parse_ref r ≡ ok ref
    pub index : ℕ
    pub upstream : Upstream
    pub found : upstream_for_host ref.host ≡ some (index, upstream)
    pub proxy : upstream.blobcache ≡ false
    pub view : Store
    pub opened : IsOpened upstream.name view
    pub digest : Text
    pub resolved : image_digest view ref ≡ some digest
    pub complete : IsComplete c view ref.repo digest platform

  record AreOpened (views : Dict Store) : Type 0 where
    pub at : (name : Text) (v : Store) → get name views ≡ some v → IsOpened name v

  -- A step of the loop: the views stay open, and the image is listed as missing or is stored.
  record IsStep (rest : Dict Store → Stateful W (List Text)) (r : Text) (missing : List Text)
      : Type 0 where
    pub views : Dict Store
    pub opened : AreOpened views
    pub world : W
    pub others : List Text
    pub went_on : (rest views world).0 ≡ ok others
    pub listed : (missing ≡ r ∷ others) ⊎ ((missing ≡ others) × IsStored r)

  noted :
      (rest : Dict Store → Stateful W (List Text)) (r : Text) (views : Dict Store) (w : W)
      (missing : List Text)
      → AreOpened views
      → (note_missing open_store c platform r (rest views) w).0 ≡ ok missing
      → IsStep rest r missing
  unfolding note_missing pure
  noted rest r views w missing o h =
      let (others, went, e) = bind_ok (rest views) (λ m s. (ok (r ∷ m), s)) w h in
      record {
        views = views;
        opened = o;
        world = w;
        others = others;
        went_on = went;
        listed = inl (cc e);
      }

  view_for_opened :
      (u : Upstream) (views : Dict Store) (w : W) (v : Store) (views' : Dict Store)
      → AreOpened views
      → (view_for open_store c platform u views (get u.name views) w).0 ≡ ok (v, views')
      → IsOpened u.name v × AreOpened views'
  unfolding view_for pure
  view_for_opened u views w v views' o h = go (get u.name views) refl h
    where
      go :
          (s : Option Store)
          → get u.name views ≡ s
          → (view_for open_store c platform u views s w).0 ≡ ok (v, views')
          → IsOpened u.name v × AreOpened views'
      go (some s) q g =
          let same : s ≡ v = cc in
          let kept_views : views ≡ views' = cc in
          (subst (IsOpened u.name) same (o.at u.name s q), subst AreOpened kept_views o)
      go none q g =
          let (s, opened, e) =
            bind_ok (open_store u) (λ a t. (ok (a, put u.name a views), t)) w g in
          let same : s ≡ v = cc e in
          let more : put u.name s views ≡ views' = cc e in
          let here : IsOpened u.name s = record {
            upstream = u;
            named = refl;
            world = w;
            opened = opened;
          } in
          (
            subst (IsOpened u.name) same here,
            subst AreOpened more (record {
              at = λ name t f. elim (Bool-cases (eq u.name name)) [
                | inl this ↦
                    let n : u.name ≡ name = (eq_iff u.name name).0 this in
                    let b : s ≡ t = cc (rw (get-put u.name name s views, this) at f) in
                    subst (λ (x : Text). IsOpened x t) n (subst (IsOpened u.name) b here)
                | inr other ↦ o.at name t (rw (get-put u.name name s views, other) at f)
              ];
            }),
          )

  is_full_digest :
      (v : Store) (p : ImageRef)
      → is_full open_store c platform v p (image_digest v p) ≡ true
      → (digest : Text) × (image_digest v p ≡ some digest) × IsComplete c v p.repo digest platform
  unfolding is_full
  is_full_digest v p h = elim (Option-cases (image_digest v p)) [
    | inl none_found ↦ absurd (cc (rw none_found at h))
    | inr (digest, q) ↦ (digest, q, image_on_disk_sound c v p.repo digest platform (rw q at h))
  ]

  check_view-IsStep :
      (rest : Dict Store → Stateful W (List Text)) (r : Text) (p : ImageRef) (i : ℕ) (u : Upstream)
      (v : Store) (views : Dict Store) (w : W) (missing : List Text)
      → parse_ref r ≡ ok p
      → upstream_for_host p.host ≡ some (i, u)
      → u.blobcache ≡ false
      → IsOpened u.name v
      → AreOpened views
      → (check_view open_store c platform rest r p (v, views) w).0 ≡ ok missing
      → IsStep rest r missing
  unfolding check_view
  check_view-IsStep rest r p i u v views w missing parsed found proxy here o h =
      elim (Bool-cases (is_full open_store c platform v p (image_digest v p))) [
        | inr part ↦ noted rest r views w missing o (rw part at h)
        | inl full ↦
            let (digest, resolved, complete) = is_full_digest v p full in
            record {
              views = views;
              opened = o;
              world = w;
              others = missing;
              went_on = rw full at h;
              listed = inr (
                refl,
                record {
                  ref = p;
                  parsed = parsed;
                  index = i;
                  upstream = u;
                  found = found;
                  proxy = proxy;
                  view = v;
                  opened = here;
                  digest = digest;
                  resolved = resolved;
                  complete = complete;
                },
              );
            }
      ]

  check_host-IsStep :
      (rest : Dict Store → Stateful W (List Text)) (r : Text) (p : ImageRef) (views : Dict Store)
      (w : W) (missing : List Text)
      → parse_ref r ≡ ok p
      → AreOpened views
      → (check_host open_store c platform rest r p views (upstream_for_host p.host) w).0
        ≡ ok missing
      → IsStep rest r missing
  unfolding check_host
  check_host-IsStep rest r p views w missing parsed o h =
      elim (Option-cases (upstream_for_host p.host)) [
        | inl unknown ↦ noted rest r views w missing o (rw unknown at h)
        | inr ((i, u), found) ↦ elim (Bool-cases u.blobcache) [
          | inl blobs ↦ noted rest r views w missing o (rw (found, blobs) at h)
          | inr proxy ↦
              let ((v, views'), viewed, went) =
                bind_ok (view_for open_store c platform u views (get u.name views))
                  (check_view open_store c platform rest r p) w (simp (found, proxy) at h) in
              let (here, o') = view_for_opened u views w v views' o viewed in
              check_view-IsStep rest r p i u v views' _ missing parsed found proxy here o' went
        ]
      ]

  check_ref-IsStep :
      (rest : Dict Store → Stateful W (List Text)) (r : Text) (views : Dict Store) (w : W)
      (missing : List Text)
      → AreOpened views
      → (check_ref open_store c platform rest r views (parse_ref r) w).0 ≡ ok missing
      → IsStep rest r missing
  unfolding check_ref
  check_ref-IsStep rest r views w missing o h = elim (Result-cases (parse_ref r)) [
    | inr (e, bad) ↦ noted rest r views w missing o (rw bad at h)
    | inl (p, parsed) ↦ check_host-IsStep rest r p views w missing parsed o (rw parsed at h)
  ]

  missing_loop_sound :
      (rs : List Text) (views : Dict Store) (w : W) (missing : List Text) (r : Text)
      → AreOpened views
      → (missing_loop open_store c platform rs views w).0 ≡ ok missing
      → mem r rs ≡ true
      → mem r missing ≡ false
      → IsStored r
  unfolding missing_loop mem
  missing_loop_sound [] views w missing r o h l m = cc
  missing_loop_sound (s ∷ rs) views w missing r o h l m =
      let step = check_ref-IsStep (missing_loop open_store c platform rs) s views w missing o h in
      elim (Bool-cases (eq s r)) [
        | inl this ↦ let e : s ≡ r = (eq_iff s r).0 this in first step.listed e
        | inr other ↦
            missing_loop_sound rs step.views step.world step.others r step.opened step.went_on
              (rw other at l) (absent step.others step.listed)
      ]
    where
      first :
          {others : List Text}
          → (missing ≡ s ∷ others) ⊎ ((missing ≡ others) × IsStored s)
          → s ≡ r
          → IsStored r
      first {others} (inl q) e = absurd (ground (arith, ap (mem r) q, eq_iff s r))
      first (inr (q, stored)) e = subst IsStored e stored

      absent :
          (others : List Text)
          → (missing ≡ s ∷ others) ⊎ ((missing ≡ others) × IsStored s)
          → mem r others ≡ false
      absent others (inl q) = ground (arith, ap (mem r) q)
      absent others (inr (q, stored)) = rw (← q) m

  none_opened : AreOpened []
  unfolding get
  none_opened = record { at = λ name v h. cc }

  -- A reference that is checked and not reported as missing is stored: it names an image of a
  -- registry that has a proxy cache, and the view that was opened for this cache holds all manifests
  -- and blobs of the image that the platform needs.
  pub missing_on_disk_sound :
      (refs : List Text) (w : W) (missing : List Text) (r : Text)
      → (missing_on_disk open_store c platform refs w).0 ≡ ok missing
      → mem r refs ≡ true
      → mem r missing ≡ false
      → IsStored r
  unfolding missing_on_disk
  missing_on_disk_sound refs w missing r h l m =
      missing_loop_sound refs [] w missing r none_opened h l m
