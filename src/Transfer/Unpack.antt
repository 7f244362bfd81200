-- ===== src/Transfer/Unpack.antt =====
-- What a successful `Import` of internal/cache/transfer.go has done.
use regcachectl.Base.{
  ◌≡◌, refl, sym, ap, subst, ◌∙◌, Bool, true, false, [], ◌∷◌, ◌++◌, Option, none, some,
  if◌then◌else◌,
}
use regcachectl.Base.Results.{Result, ok, err}
use regcachectl.Base.Stateful.{◌>>◌, Ends, Ends-bind, Ends-bind_gives}
use regcachectl.Text.{Text, codes}
use regcachectl.Dict.{Dict, get}
use regcachectl.Upstream.{upstreams}
use regcachectl.Engine.{Engine, image_name}
use regcachectl.Io.{ran, History, Runtime}
use regcachectl.Transfer.Volumes.{HaveVolumes, HaveVolumes-later, OnOk, ensure_volumes-All}
use regcachectl.Transfer.{
  Host, Os, io, log, import_args, helper_image, open_file, opened, stream_from, ended,
  ensure_volumes, import_from,
}
use regcachectl.Transfer.Bundle.{helper_image-Gives, Gives-io, Ends-io}

module _ (rt : Runtime) (e : Engine) (os : Os) (path : Text) (before : Dict Text) where
  -- `tar` was given the whole bundle in a run that did not fail, with the volumes of all caches mounted,
  -- which were all there before.
  pub record IsUnpacked : Type 0 where
    pub input : Text
    pub read : get path before ≡ some input
    pub ran_in : Host
    pub volumes : HaveVolumes rt upstreams ran_in.history
    pub complete : (os.stream ran_in (import_args (image_name e) upstreams) input).failure ≡ none

  abbrev pub Imported : Result (Unit {0}) → Host → Type 0
  Imported (ok done) w = (w.files ≡ before) × IsUnpacked
  Imported (err x) w = w.files ≡ before

  -- the volumes are there, behind a success
  abbrev Ready : Result (Unit {0}) → Host → Type 0
  Ready (ok a) w = (w.files ≡ before) × HaveVolumes rt upstreams w.history
  Ready (err x) w = w.files ≡ before

  abbrev Opened : Result Text → Host → Type 0
  Opened (ok input) w = (w.files ≡ before) × (get path before ≡ some input)
  Opened (err x) w = w.files ≡ before

  Ends-open : Ends (λ w. w.files ≡ before) Opened (open_file os path)
  unfolding open_file
  Ends-open = record { at = λ w h. read (os.refuses w path) (get path w.files) w h refl }
    where
      granted :
          (b : Bool) (s x : Text) (w : Host)
          → w.files ≡ before
          → get path w.files ≡ some s
          → Opened (if b then err x else ok s) w
      granted true s x w h q = h
      granted false s x w h q = (h, ap (get path) (sym h) ∙ q)

      read :
          (b : Bool) (o : Option Text) (w : Host)
          → w.files ≡ before
          → get path w.files ≡ o
          → Opened (opened os path w o) w
      read b none w h q = h
      read b (some s) w h q = granted (os.refuses w path) s _ w h q

  Ends-volumes : Ends (λ w. w.files ≡ before) Ready (io (ensure_volumes rt upstreams))
  unfolding io
  Ends-volumes = record {
    at = λ w h. ready _ _ w h ((ensure_volumes-All rt upstreams []).at w.history tt);
  }
    where
      ready :
          (r : Result (Unit {0})) (es : History) (w : Host)
          → w.files ≡ before
          → OnOk rt (λ es. HaveVolumes rt [] es × HaveVolumes rt upstreams es) r es
          → Ready r (record w { history = es })
      ready (ok done) es w h (none_kept, all) = (h, all)
      ready (err x) es w h k = h

  Ends-helper : Ends (λ w. w.files ≡ before) (λ r w. w.files ≡ before) (io (helper_image rt e))
  Ends-helper = Ends-io (λ f. f ≡ before) _

  abbrev ReadyOnOk : Result (Unit {0}) → Host → Type 0
  ReadyOnOk (ok done) w = Ready (ok done) w
  ReadyOnOk (err x) w = ⊥

  Ends-noted : (line : Text) → Ends (Ready (ok tt)) ReadyOnOk (log line)
  unfolding log
  Ends-noted line = record { at = λ w h. (h.0, HaveVolumes-later rt upstreams _ w.history h.1) }

  Ends-told : (line : Text) → Ends (Imported (ok tt)) Imported (log line)
  unfolding log
  Ends-told line = record { at = λ w h. h }

  Ends-stream_from :
      (input : Text)
      → get path before ≡ some input
      → Ends (Ready (ok tt)) Imported (stream_from os input (import_args (image_name e) upstreams))
  unfolding stream_from
  Ends-stream_from input q = record {
    at =
        λ w h. unpacked w h (os.stream w (import_args (image_name e) upstreams) input).failure refl;
  }
    where
      unpacked :
          (w : Host)
          → Ready (ok tt) w
          → (o : Option Text)
          → (os.stream w (import_args (image_name e) upstreams) input).failure ≡ o
          → Imported
              (ended o)
              (record w { history = ran (import_args (image_name e) upstreams) ∷ w.history })
      unpacked w h (some x) p = h.0
      unpacked w h none p =
          (h.0, record { input = input; read = q; ran_in = w; volumes = h.1; complete = p })

  Ends-unpack :
      (input helper : Text)
      → get path before ≡ some input
      → helper ≡ image_name e
      → Ends
          (λ w. w.files ≡ before)
          Imported
          (io (ensure_volumes rt upstreams)
            >> (log (codes "importing " ++ path ++ codes " into the cache volumes ...")
                >> (stream_from os input (import_args helper upstreams)
                    >> log (
                        codes
                          "imported. run `regcachectl up` to (re)start the fleet serving the data."))))
  Ends-unpack input helper read q =
      Ends-bind _ _ Ends-volumes
        (λ done.
          Ends-bind _ _ (Ends-noted _)
            (λ noted.
              Ends-bind _ _
                (subst
                  (λ h.
                    Ends (Ready (ok tt)) Imported (stream_from os input (import_args h upstreams)))
                  (sym q) (Ends-stream_from input read))
                (λ unpacked. Ends-told _) (λ x w h. h))
            (λ x w h. absurd h))
        (λ x w h. h)

-- Whatever the runtime answers and whichever file operation fails: `Import` changes no file of the
-- host. If it succeeds, one run of tar that did not fail was given the whole bundle, with the volumes
-- of all caches mounted, and each volume had been found or made before.
pub import_from-Imported :
    (rt : Runtime) (e : Engine) (os : Os) (path : Text) (w : Host)
    → Imported rt e os path w.files (import_from rt e os path w).0 (import_from rt e os path w).1
unfolding import_from
import_from-Imported rt e os path w =
    (Ends-bind {B = Unit {0}} {P = λ (h : Host). h.files ≡ w.files}
        {Q = Imported rt e os path w.files} _ _ (Ends-open rt e os path w.files)
        (λ input. record {
          at = λ v h.
              (Ends-bind_gives {P = λ (h : Host). h.files ≡ w.files} _ _
                  (Gives-io _ (helper_image-Gives rt e)) (Ends-helper rt e os path w.files)
                  (λ helper q. Ends-unpack rt e os path w.files input helper h.1 q) (λ x s k. k)).at
                v h.0;
        })
        (λ x s h. h)).at
      w refl
