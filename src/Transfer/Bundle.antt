-- ===== src/Transfer/Bundle.antt =====
-- What `Export` of internal/cache/transfer.go leaves on the host's disk.
use regcachectl.Base.{
  ◌≡◌, ◌≢◌, ◌⊎◌, inl, inr, refl, sym, ap, subst, Bool, true, false, List, [], ◌∷◌, Option, none,
  some, arith, if◌then◌else◌, All,
}
use regcachectl.Base.Results.{Result, ok, err}
use regcachectl.Base.Stateful.{
  pure, raise, attempt, wrapped, ◌>>=◌, ◌>>◌, Gives, Gives-bind, Gives-then, Gives-pure, Ends,
  Ends-bind, Ends-bind_gives, Ends-raise,
}
use regcachectl.Text.{Text, codes}
use regcachectl.Text.Equality.{eq_iff, eq_refl}
use regcachectl.Dict.{Dict, get, put, get-put, get-remove, get-put_self}
use regcachectl.Upstream.{Upstream, upstreams}
use regcachectl.Engine.{Engine, image_name, volume}
use regcachectl.Io.{Runtime, Io, run, log as log_io, ran}
use regcachectl.Transfer.{
  Host, Os, io, log, export_args, helper_image, create, stream_to, ended, log_size, remove_file,
  conclude, bundle, nothing_to_export, bundle_some, volume_exists, exported, export, is_wanted,
  or_false, absent_line, no_helper, created, exporting_line,
}

-- the image that tar runs in, where it is there or was pulled
pub helper_image-Gives :
    (rt : Runtime) (e : Engine) → Gives (λ h. h ≡ image_name e) (helper_image rt e)
unfolding helper_image
helper_image-Gives rt e = Gives-then _ _ λ found. chosen (or_false found)
  where
    chosen :
        (b : Bool)
        → Gives
            (λ h. h ≡ image_name e)
            (if b then pure (image_name e) else (do
              noted ← log_io (absent_line (image_name e))
              pulled ←
                  wrapped (no_helper (image_name e)) (run rt (codes "pull" ∷ image_name e ∷ []))
              pure (image_name e)))
    chosen true = Gives-pure (image_name e) refl
    chosen false = Gives-then _ _ λ noted. Gives-then _ _ λ pulled. Gives-pure (image_name e) refl

-- An action of the runtime leaves the host's files.
pub Ends-io {ℓ} :
    {A : Type ℓ} (F : Dict Text → Type 0) (m : Io A)
    → Ends (λ w. F w.files) (λ r w. F w.files) (io m)
unfolding io
Ends-io F m = record { at = λ w h. h }

pub Gives-io {ℓ} : {A : Type ℓ} {V : A → Type 0} (m : Io A) → Gives V m → Gives V (io m)
unfolding io
Gives-io m k = record { at = λ w a h. k.at w.history a h }

-- the action did not fail, and the files satisfy `F`
abbrev Always : (Dict Text → Type 0) → Result (Unit {0}) → Host → Type 0
Always F (ok a) w = F w.files
Always F (err x) w = ⊥

Ends-log : (F : Dict Text → Type 0) (line : Text) → Ends (λ w. F w.files) (Always F) (log line)
unfolding log
Ends-log F line = record { at = λ w h. h }

module _ (os : Os) (e : Engine) (path : Text) (only : List Text) (before : Dict Text) where
  -- no other file than the bundle has changed
  abbrev pub OthersKept : Dict Text → Type 0
  OthersKept files = (p : Text) → path ≢ p → get p files ≡ get p before

  -- The bundle is all that a run of tar wrote which did not fail, over at least one cache, each of
  -- those that are asked for and mounted read-only.
  pub record IsBundle (files : Dict Text) : Type 0 where
    pub caches : List Upstream
    pub wanted : All (λ u. is_wanted only u ≡ true) caches
    pub some_cache : caches ≢ []
    pub ran_in : Host
    pub complete : (os.stream ran_in (export_args (image_name e) caches) []).failure ≡ none
    pub content :
        get path files ≡ some (os.stream ran_in (export_args (image_name e) caches) []).written

  abbrev pub Outcome : Result (Unit {0}) → Host → Type 0
  Outcome (ok done) w = OthersKept w.files × IsBundle w.files
  Outcome (err x) w = OthersKept w.files × ((w.files ≡ before) ⊎ (get path w.files ≡ none))

  Ends-log_size : Ends (λ w. OthersKept w.files × IsBundle w.files) Outcome (log_size os path)
  unfolding log_size log
  Ends-log_size = record { at = λ w h. sized (os.stat_fails w path) _ w h }
    where
      sized :
          (b : Bool) (line : Text) (w : Host)
          → OthersKept w.files × IsBundle w.files
          → Outcome
              (if b then (ok tt, w) else log line w).0
              (if b then (ok tt, w) else log line w).1
      sized true line w h = h
      sized false line w h = h

  abbrev Written : List Upstream → Result (Unit {0}) → Host → Type 0
  Written us (ok done) w = OthersKept w.files × IsBundle w.files
  Written us (err x) w = OthersKept w.files

  Ends-conclude :
      (us : List Upstream) (r : Result (Unit {0}))
      → Ends (Written us r) Outcome (conclude os path r)
  unfolding conclude remove_file raise ◌>>=◌
  Ends-conclude us (ok done) = Ends-log_size
  Ends-conclude us (err x) = record {
    at = λ w h. (
      λ p n. ground (arith, eq_iff path p, get-remove path p w.files, h p n),
      inr (simp (get-remove, eq_refl)),
    );
  }

  abbrev Created : Result (Unit {0}) → Host → Type 0
  Created (ok done) w = OthersKept w.files
  Created (err x) w = w.files ≡ before

  Ends-create : Ends (λ w. w.files ≡ before) Created (create os path)
  unfolding create
  Ends-create = record { at = λ w h. made (os.create_error w path) w h }
    where
      made :
          (o : Option Text) (w : Host)
          → w.files ≡ before
          → Created (created path w o).0 (created path w o).1
      made (some x) w h = h
      made none w h = λ p n. ground (arith, eq_iff path p, get-put path p [] w.files, ap (get p) h)

  abbrev Streaming : List Upstream → Result (Result (Unit {0})) → Host → Type 0
  Streaming us (ok r) w = Written us r w
  Streaming us (err x) w = ⊥

  Ends-stream_to :
      (us : List Upstream)
      → us ≢ []
      → All (λ u. is_wanted only u ≡ true) us
      → Ends
          (λ w. OthersKept w.files)
          (Streaming us)
          (attempt (stream_to os path (export_args (image_name e) us)))
  unfolding attempt stream_to
  Ends-stream_to us nonempty asked = record {
    at = λ w h. streamed w (os.stream w (export_args (image_name e) us) []).failure refl h;
  }
    where
      put_file : Host → Dict Text
      put_file w = put path (os.stream w (export_args (image_name e) us) []).written w.files

      others : (w : Host) → OthersKept w.files → OthersKept (put_file w)
      others w h p n = ground (
        arith,
        eq_iff path p,
        get-put path p (os.stream w (export_args (image_name e) us) []).written w.files,
        h p n,
      )

      streamed :
          (w : Host) (o : Option Text)
          → (os.stream w (export_args (image_name e) us) []).failure ≡ o
          → OthersKept w.files
          → Written us (ended o) (record {
            history = ran (export_args (image_name e) us) ∷ w.history;
            files = put_file w;
          })
      streamed w (some x) q h = others w h
      streamed w none q h = (
        others w h,
        record {
          caches = us;
          wanted = asked;
          some_cache = nonempty;
          ran_in = w;
          complete = q;
          content = get-put_self path _ w.files;
        },
      )

  module _ (rt : Runtime) where
    untouched : (x : Text) (w : Host) → w.files ≡ before → Outcome (err x) w
    untouched x w h = (λ p n. ap (get p) h, inl h)

    Ends-bundle :
        (us : List Upstream)
        → us ≢ []
        → All (λ u. is_wanted only u ≡ true) us
        → Ends (λ w. w.files ≡ before) Outcome (bundle rt e os path us)
    unfolding bundle
    Ends-bundle us nonempty asked =
        Ends-bind_gives _ _ (Gives-io _ (helper_image-Gives rt e)) (Ends-io (λ f. f ≡ before) _)
          (λ helper q.
            subst
              (λ h.
                Ends (λ w. w.files ≡ before) Outcome
                  (create os path
                    >> (log (exporting_line us path)
                        >> (attempt (stream_to os path (export_args h us)) >>= conclude os path))))
              (sym q) filled)
          untouched
      where
        filled :
            Ends
              (λ w. w.files ≡ before)
              Outcome
              (create os path
                >> (log (exporting_line us path)
                    >> (attempt (stream_to os path (export_args (image_name e) us))
                        >>= conclude os path)))
        filled =
            Ends-bind _ _ Ends-create
              (λ made.
                Ends-bind _ _ (Ends-log OthersKept _)
                  (λ noted.
                    Ends-bind _ _ (Ends-stream_to us nonempty asked) (Ends-conclude us)
                      (λ x w h. absurd h))
                  (λ x w h. absurd h))
              untouched

    Ends-bundle_some :
        (us : List Upstream)
        → All (λ u. is_wanted only u ≡ true) us
        → Ends (λ w. w.files ≡ before) Outcome (bundle_some rt e os path only us)
    Ends-bundle_some [] asked = Ends-raise _ (untouched (nothing_to_export only))
    Ends-bundle_some (u ∷ us) asked = Ends-bundle (u ∷ us) (λ e. cc) asked

exported-Gives :
    (rt : Runtime) (only : List Text) (us : List Upstream)
    → Gives (All (λ u. is_wanted only u ≡ true)) (exported rt only us)
unfolding exported
exported-Gives rt only [] = Gives-pure [] tt
exported-Gives rt only (u ∷ us) = asked (is_wanted only u) refl (exported-Gives rt only us)
  where
    kept :
        (b : Bool) (rest : List Upstream)
        → is_wanted only u ≡ true
        → All (λ v. is_wanted only v ≡ true) rest
        → All (λ v. is_wanted only v ≡ true) (if b then u ∷ rest else rest)
    kept true rest q h = (q, h)
    kept false rest q h = h

    asked :
        (b : Bool)
        → is_wanted only u ≡ b
        → Gives (All (λ v. is_wanted only v ≡ true)) (exported rt only us)
        → Gives (All (λ v. is_wanted only v ≡ true)) (
            if b
            then (do
              found ← volume_exists rt (volume u)
              rest ← exported rt only us
              pure (if found then u ∷ rest else rest))
            else exported rt only us)
    asked true q deeper =
        Gives-then _ _ λ found. Gives-bind _ _ deeper λ rest h. Gives-pure _ (kept found rest q h)
    asked false q deeper = deeper

-- Whatever the runtime answers and whichever file operation fails: `Export` changes no other file than
-- the bundle. If it succeeds, the file is what one run of tar wrote, which did not fail, over at least
-- one cache, all of them asked for and mounted read-only. If it fails, either all files are as before
-- or the file is gone, so that no partial bundle is left.
pub export-Outcome :
    (rt : Runtime) (e : Engine) (os : Os) (path : Text) (only : List Text) (w : Host)
    → Outcome os e path only w.files (export rt e os path only w).0 (export rt e os path only w).1
unfolding export
export-Outcome rt e os path only w =
    (Ends-bind_gives {P = λ (h : Host). h.files ≡ w.files} _ _
        (Gives-io _ (exported-Gives rt only upstreams)) (Ends-io (λ f. f ≡ w.files) _)
        (λ us asked. Ends-bundle_some os e path only w.files rt us asked)
        (untouched os e path only w.files rt)).at
      w refl
