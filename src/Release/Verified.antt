-- ===== src/Release/Verified.antt =====
-- What the success of `PullRelease` of internal/cache/release.go says of the caches.
use regcachectl.Base.{
  ◌≡◌, ◌⊎◌, inl, inr, refl, subst, ℕ, zero, suc, true, List, [], ◌∷◌, ◌++◌, Option, none, some,
  arith, Bool-cases, ltb, length,
}
use regcachectl.Base.Results.{Result, ok, err}
use regcachectl.Base.Stateful.{
  Stateful, pure, raise, lift, attempt, bind_ok, Gives, Gives-bind, Gives-then, ◌>>=◌, ◌>>◌,
  Gives-run, Gives-lift, Yields, Yields-bind, Yields-then,
}
use regcachectl.Text.{Text, codes, mem}
use regcachectl.Dict.{Dict, put}
use regcachectl.Upstream.{Upstream, upstream_for_host}
use regcachectl.Engine.{Engine}
use regcachectl.Reference.{ImageRef, parse_ref}
use regcachectl.Coverage.{Codec, Store}
use regcachectl.Client.{Network}
use regcachectl.Client.Layers.{read_payload}
use regcachectl.Io.{History, logged}
use regcachectl.Release.{World, log_line, WarmResult, pull_client, with_client}
use regcachectl.Release.Missing.{missing_on_disk}
use regcachectl.Release.Stored.{IsStored, missing_on_disk_sound}
use regcachectl.Release.Pull.{
  verify_rounds, note_results, note_failures, not_on_disk, report_failures, log_lines, check_disk,
  rounds, verdict, warm_and_verify, pull_known, pull_release,
}

report_failures_ok :
    (failed : Dict Text) (total : ℕ) (what : Text) (w : World)
    → (report_failures failed total what w).0 ≡ ok tt
    → failed ≡ []
unfolding report_failures raise
report_failures_ok [] total what w h = refl
report_failures_ok (f ∷ failed) total what w h = let (a, q, e) = bind_ok (log_lines _) _ w h in cc e

put-ne-nil : {V : Type 0} (k : Text) (v : V) (m : Dict V) → put k v m ≡ [] → ⊥
unfolding put
put-ne-nil k v [] h = cc
put-ne-nil k v ((j, w) ∷ m) h = ground arith

not_on_disk_nil :
    (failed : Dict Text) (missing : List Text) → not_on_disk failed missing ≡ [] → missing ≡ []
unfolding not_on_disk
not_on_disk_nil failed [] h = refl
not_on_disk_nil failed (m ∷ ms) h = absurd (put-ne-nil m _ _ h)

module _ (open_store : Upstream → Stateful World Store)
    (warm_all : List Text → Stateful World (List WarmResult)) (elapsed : World → Text) (e : Engine)
    (net : Network) (c : Codec) (platform : Text) where
  -- The payload that the release image lists, as it was read through the cache of its registry.
  pub record IsPayload (ref creds : Text) (refs : List Text) : Type 0 where
    pub image : ImageRef
    pub parsed : parse_ref ref ≡ ok image
    pub index : ℕ
    pub upstream : Upstream
    pub found : upstream_for_host image.host ≡ some (index, upstream)
    pub world : World
    pub listed :
        (with_client
          (read_payload net c (pull_client e index upstream image.repo creds) image.ref platform)
          world).0
        ≡ ok refs

  -- The last check failed, and the last line of the run says so, with the error.
  pub record IsUnverified (refs : List Text) (after : World) : Type 0 where
    pub world : World
    pub error : Text
    pub unread : (missing_on_disk open_store c platform refs world).0 ≡ err error
    pub before : History
    pub told :
        after.history
        ≡ logged (codes "done (NOT verified on disk: " ++ (error ++ codes ")")) ∷ before

  -- Each reference was found on disk, or the run ends with the line that it was not verified.
  abbrev pub StoredOrTold : List Text → World → Type 0
  StoredOrTold refs after =
      ((r : Text) → mem r refs ≡ true → IsStored open_store c platform r) ⊎ IsUnverified refs after

  -- The payload of a release, and what is on disk of it at the end of the run
  pub record IsPulled (ref creds : Text) (after : World) : Type 0 where
    pub refs : List Text
    pub payload : IsPayload ref creds refs
    pub stored : StoredOrTold (ref ∷ refs) after

  -- a result of `missingOnDisk`
  record IsCheck (refs : List Text) (found : Result (List Text)) : Type 0 where
    pub world : World
    pub checked : (missing_on_disk open_store c platform refs world).0 ≡ found

  check_disk-IsCheck :
      (refs : List Text)
      → Gives (IsCheck refs) (check_disk open_store warm_all elapsed e net c platform refs)
  unfolding check_disk attempt
  check_disk-IsCheck refs = record { at = λ w found h. record { world = w; checked = cc h } }

  -- Behind the rounds stands the result of the last check.
  rounds-IsCheck :
      (left round : ℕ) (refs : List Text) (failed : Dict Text) (found : Result (List Text))
      → IsCheck refs found
      → Gives
          (λ (a : Dict Text × Result (List Text)). IsCheck refs a.1)
          (rounds open_store warm_all elapsed e net c platform left round refs failed found)
  unfolding rounds pure
  rounds-IsCheck zero round refs failed found k = record {
    at = λ w a h. let q : found ≡ a.1 = cc h in subst (IsCheck refs) q k;
  }
  rounds-IsCheck (suc left) round refs failed (err x) k = record {
    at = λ w a h. let q : err x ≡ a.1 = cc h in subst (IsCheck refs) q k;
  }
  rounds-IsCheck (suc left) round refs failed (ok []) k = record {
    at = λ w a h. let q : ok [] ≡ a.1 = cc h in subst (IsCheck refs) q k;
  }
  rounds-IsCheck (suc left) round refs failed (ok (m ∷ ms)) k = Gives-then _ _ λ a.
      Gives-then _ _ λ results.
        Gives-bind _ _ (check_disk-IsCheck refs)
          λ again now. rounds-IsCheck left (suc round) refs (note_results results failed) again now

  nothing_missing :
      (refs : List Text)
      → IsCheck refs (ok [])
      → (r : Text) → mem r refs ≡ true
      → IsStored open_store c platform r
  unfolding mem
  nothing_missing refs k r l =
      missing_on_disk_sound open_store c platform refs k.world [] r k.checked l refl

  -- Where nothing is reported as failed, the line of the failed check is the last one.
  unread-StoredOrTold :
      (all : List Text) (x : Text) (total : ℕ) (what : Text)
      → IsCheck all (err x)
      → Yields
          (λ (a : Unit {0}) w. StoredOrTold all w)
          (log_line (codes "done (NOT verified on disk: " ++ (x ++ codes ")"))
            >> report_failures [] total what)
  unfolding log_line report_failures pure ◌>>=◌
  unread-StoredOrTold all x total what k = record {
    at = λ w b h. inr (record {
      world = k.world;
      error = x;
      unread = k.checked;
      before = w.history;
      told = refl;
    });
  }

  -- Where `verdict` reports no failure the last check found nothing missing, or could not be made.
  verdict-StoredOrTold :
      (ref : Text) (refs all : List Text) (failed : Dict Text) (found : Result (List Text))
      → IsCheck all found
      → Yields
          (λ (a : Unit {0}) w. StoredOrTold all w)
          (verdict open_store warm_all elapsed e net c platform ref refs (failed, found))
  unfolding verdict
  verdict-StoredOrTold ref refs all [] (err x) k =
      unread-StoredOrTold all x (length refs) (codes "failed") k
  verdict-StoredOrTold ref refs all (f ∷ failed) (err x) k =
      Yields-then _ _
        λ a. record { at = λ w b h. absurd (cc (report_failures_ok (f ∷ failed) _ _ w h)) }
  verdict-StoredOrTold ref refs all failed (ok missing) k = Yields-then _ _ λ a. record {
    at = λ w b h.
        let none : missing ≡ [] = not_on_disk_nil failed missing (report_failures_ok _ _ _ w h) in
        inl (nothing_missing all (subst (λ x. IsCheck all (ok x)) none k));
  }

  warm_and_verify-StoredOrTold :
      (jobs : ℕ) (ref : Text) (refs : List Text)
      → Yields
          (λ (a : Unit {0}) w. StoredOrTold (ref ∷ refs) w)
          (warm_and_verify open_store warm_all elapsed e net c platform jobs ref refs)
  unfolding warm_and_verify
  warm_and_verify-StoredOrTold jobs ref refs = Yields-then _ _ λ logged. Yields-then _ _ λ results.
      Yields-then _ _ λ told. Yields-bind _ _ (check_disk-IsCheck (ref ∷ refs)) λ found now.
        Yields-bind _ _
          (rounds-IsCheck verify_rounds 1 (ref ∷ refs) (note_failures results []) found now)
          λ (failed, last) check. verdict-StoredOrTold ref refs (ref ∷ refs) failed last check

  pull_known-IsPulled :
      (jobs : ℕ) (ref creds : Text) (p : ImageRef) (o : Option (ℕ × Upstream))
      → parse_ref ref ≡ ok p
      → upstream_for_host p.host ≡ o
      → Yields
          (λ (a : Unit {0}) w. IsPulled ref creds w)
          (pull_known open_store warm_all elapsed e net c platform jobs ref creds p o)
  unfolding pull_known raise
  pull_known-IsPulled jobs ref creds p none parsed found = record { at = λ w a h. cc h }
  pull_known-IsPulled jobs ref creds p (some (i, u)) parsed found = Yields-then _ _ λ begun.
      Yields-bind _ _
        (Gives-run
          (with_client (read_payload net c (pull_client e i u p.repo creds) p.ref platform)))
        λ refs (w, listed). record {
          at = λ w₁ a h. record {
            refs = refs;
            payload = record {
              image = p;
              parsed = parsed;
              index = i;
              upstream = u;
              found = found;
              world = w;
              listed = listed;
            };
            stored = (warm_and_verify-StoredOrTold jobs ref refs).at w₁ a h;
          };
        }

  -- If `PullRelease` reports success, then every image of the release, the release image itself
  -- included, was found to be completely on disk in the cache of its registry, or the last check
  -- failed and the last line that the run logged is `done (NOT verified on disk: …)` with its error.
  -- This holds for every behaviour of the concurrent warmers and of the network.
  pub pull_release_verified :
      (jobs : ℕ) (ref creds : Text) (w : World)
      → (pull_release open_store warm_all elapsed e net c platform jobs ref creds w).0 ≡ ok tt
      → IsPulled ref creds
          (pull_release open_store warm_all elapsed e net c platform jobs ref creds w).1
  unfolding pull_release raise
  pull_release_verified jobs ref creds w h = elim (Bool-cases (ltb jobs 1)) [
    | inl none_allowed ↦ absurd (cc (rw none_allowed at h))
    | inr some_jobs ↦ rw some_jobs (
        (Yields-bind (lift (parse_ref ref))
            (λ p.
              pull_known open_store warm_all elapsed e net c platform jobs ref creds p
                (upstream_for_host p.host))
            (Gives-lift (parse_ref ref))
            (λ p parsed.
              pull_known-IsPulled jobs ref creds p (upstream_for_host p.host) parsed refl)).at
          w tt (rw some_jobs at h))
  ]
