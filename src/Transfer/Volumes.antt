-- ===== src/Transfer/Volumes.antt =====
-- The volumes that `ensureVolume` of internal/cache/cache.go finds or makes, for each cache in turn.
use regcachectl.Base.{◌≡◌, refl, Bool, true, false, List, [], ◌∷◌, if◌then◌else◌, All}
use regcachectl.Base.Results.{Result, ok, err}
use regcachectl.Base.Stateful.{Ends, Ends-bind, Ends-pure}
use regcachectl.Text.{Text, eq}
use regcachectl.Text.Equality.{eq_iff}
use regcachectl.Upstream.{Upstream}
use regcachectl.Engine.{volume}
use regcachectl.Io.{
  Event, ran, ran_detached, logged, History, Runtime, Io, run, attempt, or_empty, trimmed,
}
use regcachectl.Io
use regcachectl.Io.Keeps.{Keeps, IsStable, keeps_rules}
use regcachectl.Fleet.Commands.{volume_ls_args, volume_create_args}
use regcachectl.Fleet.Query.{ensure_volume}
use regcachectl.Transfer.{ensure_volumes}

module _ (rt : Runtime) where
  -- The volume was there when the runtime was asked, or the runtime made it.
  pub data HasVolume (u : Upstream) : History → Type 0 where
    listed :
        (es : History)
        → or_empty (trimmed (rt es (ran (volume_ls_args (volume u))))) ≡ volume u
        → HasVolume u (ran (volume_ls_args (volume u)) ∷ es)
    made :
        (es : History) (out : Text)
        → trimmed (rt es (ran (volume_create_args (volume u)))) ≡ ok out
        → HasVolume u (ran (volume_create_args (volume u)) ∷ es)
    later : (ev : Event) (es : History) → HasVolume u es → HasVolume u (ev ∷ es)

  abbrev pub HaveVolumes : List Upstream → History → Type 0
  HaveVolumes us es = All (λ u. HasVolume u es) us

  pub HaveVolumes-later :
      (us : List Upstream) (ev : Event) (es : History)
      → HaveVolumes us es
      → HaveVolumes us (ev ∷ es)
  HaveVolumes-later [] ev es h = tt
  HaveVolumes-later (u ∷ us) ev es (h, hs) = (later ev es h, HaveVolumes-later us ev es hs)

  HaveVolumes-IsStable : (us : List Upstream) (ev : Event) → IsStable (HaveVolumes us) ev
  HaveVolumes-IsStable us ev = record { step = HaveVolumes-later us ev }

  ensure_volume-Keeps :
      (us : List Upstream) (n : Text) → Keeps (HaveVolumes us) (ensure_volume rt n)
  unfolding ensure_volume
  ensure_volume-Keeps us n = search (keeps_rules, HaveVolumes-IsStable)

  -- behind a success
  abbrev pub OnOk {ℓ} : {A : Type ℓ} → (History → Type 0) → Result A → History → Type 0
  OnOk Q (ok a) es = Q es
  OnOk Q (err x) es = Unit {0}

  ensure_volume-HasVolume :
      (u : Upstream) (es : History)
      → OnOk (HasVolume u) (ensure_volume rt (volume u) es).0 (ensure_volume rt (volume u) es).1
  unfolding ensure_volume run attempt Io.◌>>=◌ Io.pure
  ensure_volume-HasVolume u es =
      asked (eq (or_empty (trimmed (rt es (ran (volume_ls_args (volume u)))))) (volume u)) refl
    where
      then_made : Result Text → Io (Unit {0})
      then_made r es' =
          Io.continue r (λ out. Io.pure tt) (ran (volume_create_args (volume u)) ∷ es')

      ask : History
      ask = ran (volume_ls_args (volume u)) ∷ es

      created :
          (r : Result Text)
          → trimmed (rt ask (ran (volume_create_args (volume u)))) ≡ r
          → OnOk (HasVolume u) (then_made r ask).0 (then_made r ask).1
      created (ok out) p = made ask out p
      created (err x) p = tt

      settled : Bool → Io (Unit {0})
      settled b =
          if b
          then Io.pure tt
          else (λ es'. then_made (trimmed (rt es' (ran (volume_create_args (volume u))))) es')

      asked :
          (b : Bool)
          → eq (or_empty (trimmed (rt es (ran (volume_ls_args (volume u)))))) (volume u) ≡ b
          → OnOk (HasVolume u) (settled b ask).0 (settled b ask).1
      asked true q = listed es ((eq_iff _ _).0 q)
      asked false q = created _ refl

  ensure_volume-All :
      (us : List Upstream) (u : Upstream)
      → Ends (HaveVolumes us) (OnOk (HaveVolumes (u ∷ us))) (ensure_volume rt (volume u))
  ensure_volume-All us u = record {
    at = λ es h.
        both _ _ (ensure_volume-HasVolume u es) ((ensure_volume-Keeps us (volume u)).at es h);
  }
    where
      both :
          (r : Result (Unit {0})) (es : History)
          → OnOk (HasVolume u) r es
          → HaveVolumes us es
          → OnOk (HaveVolumes (u ∷ us)) r es
      both (ok done) es h hs = (h, hs)
      both (err x) es h hs = tt

  pub ensure_volumes-All :
      (us kept : List Upstream)
      → Ends
          (HaveVolumes kept)
          (OnOk (λ es. HaveVolumes kept es × HaveVolumes us es))
          (ensure_volumes rt us)
  unfolding ensure_volumes
  ensure_volumes-All [] kept = Ends-pure tt (λ es h. (h, tt))
  ensure_volumes-All (u ∷ us) kept = record {
    at = λ es h. moved _ _ (
        (Ends-bind {Q = OnOk (λ es. HaveVolumes (u ∷ kept) es × HaveVolumes us es)} _ _
            (ensure_volume-All kept u) (λ done. ensure_volumes-All us (u ∷ kept)) (λ x s h. tt)).at
          es h);
  }
    where
      moved :
          (r : Result (Unit {0})) (es : History)
          → OnOk (λ es. HaveVolumes (u ∷ kept) es × HaveVolumes us es) r es
          → OnOk (λ es. HaveVolumes kept es × HaveVolumes (u ∷ us) es) r es
      moved (ok done) es ((h, hs), all) = (hs, (h, all))
      moved (err x) es h = tt
