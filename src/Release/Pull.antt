-- ===== src/Release/Pull.antt =====
-- `PullRelease` and `reportFailures` of internal/cache/release.go. `warm_all` is any behaviour of
-- `warmAll`, whose warmers run concurrently; `open_store` is `openStore`; `elapsed` prints a duration.
use regcachectl.Base.{
  ℕ, zero, suc, ◌+◌, ◌-◌, Bool, true, false, List, [], ◌∷◌, ◌++◌, Option, none, some, if◌then◌else◌,
  length, ltb,
}
use regcachectl.Base.Results.{Result, ok, err}
use regcachectl.Base.Stateful.{Stateful, pure, raise, lift, attempt, ◌>>=◌, ◌>>◌}
use regcachectl.Text.{Text, codes, utf8, itoa, sort}
use regcachectl.Text.Quote.{quoted}
use regcachectl.Dict.{Dict, get, put, remove}
use regcachectl.Upstream.{Upstream, upstream_for_host, known_hosts}
use regcachectl.Engine.{Engine, port}
use regcachectl.Reference.{ImageRef, parse_ref}
use regcachectl.Coverage.{Codec, Store}
use regcachectl.Coverage.Images.{image_references_path}
use regcachectl.Client.{Network}
use regcachectl.Client.Layers.{read_payload}
use regcachectl.Release.{
  World, WarmResult, log_line, fresh_seen, platform_label, pull_client, with_client,
}
use regcachectl.Release.Missing.{missing_on_disk}

-- `verifyRounds`
abbrev pub verify_rounds : ℕ
verify_rounds = 2

-- `warmErr`: the references whose warming failed, with the error
unfoldable pub note_failure : Text → Result (ℕ × ℕ) → Dict Text → Dict Text
note_failure ref (ok n) failed = failed
note_failure ref (err e) failed = put ref e failed

unfoldable pub note_failures : List WarmResult → Dict Text → Dict Text
unfolding note_failure
note_failures [] failed = failed
note_failures (r ∷ rs) failed = note_failures rs (note_failure r.ref r.outcome failed)

-- the same in a later round, which takes back the failure of an image that it warms
unfoldable pub note_outcome : Text → Result (ℕ × ℕ) → Dict Text → Dict Text
note_outcome ref (ok n) failed = remove ref failed
note_outcome ref (err e) failed = put ref e failed

unfoldable pub note_results : List WarmResult → Dict Text → Dict Text
unfolding note_outcome
note_results [] failed = failed
note_results (r ∷ rs) failed = note_results rs (note_outcome r.ref r.outcome failed)

abbrev pub blobs_of : Result (ℕ × ℕ) → ℕ
blobs_of (ok (manifests, blobs)) = blobs
blobs_of (err e) = 0

pub sum_blobs : List WarmResult → ℕ
sum_blobs [] = 0
sum_blobs (r ∷ rs) = blobs_of r.outcome + sum_blobs rs

abbrev pub error_or_unstored : Option Text → Text
error_or_unstored none = codes "served, but not stored by the cache"
error_or_unstored (some e) = e

-- `notOnDisk`
unfoldable pub not_on_disk : Dict Text → List Text → Dict Text
not_on_disk failed [] = []
not_on_disk failed (m ∷ ms) = put m (error_or_unstored (get m failed)) (not_on_disk failed ms)

abbrev pub is_listed : Option Text → Bool
is_listed none = false
is_listed (some e) = true

unfoldable pub log_lines : List Text → Stateful World (Unit {0})
unfolding pure
log_lines [] = pure tt
log_lines (l ∷ ls) = log_line (utf8 "  ✗ " ++ l) >> log_lines ls

pub failure_lines : Dict Text → List Text
failure_lines [] = []
failure_lines ((r, e) ∷ failed) = (r ++ codes ": " ++ e) ∷ failure_lines failed

-- `reportFailures`
unfoldable pub report_failures : Dict Text → ℕ → Text → Stateful World (Unit {0})
unfolding pure raise
report_failures [] total what = pure tt
report_failures (f ∷ failed) total what =
    log_lines (sort (failure_lines (f ∷ failed)))
    >> raise (
        codes "pull-release: "
        ++ itoa (length (f ∷ failed))
        ++ codes " of "
        ++ itoa total
        ++ codes " payload images "
        ++ what)

module _ (open_store : Upstream → Stateful World Store)
    (warm_all : List Text → Stateful World (List WarmResult)) (elapsed : World → Text) (e : Engine)
    (net : Network) (c : Codec) (platform : Text) where
  -- `warmAll` gives one result for each reference and fails as a whole in no case
  unfoldable pub check_disk : List Text → Stateful World (Result (List Text))
  unfolding attempt
  check_disk refs = attempt (missing_on_disk open_store c platform refs)

  pub rewarm_line : ℕ → List Text → Text
  rewarm_line round missing =
      itoa (length missing)
      ++ codes " image(s) not fully on disk after warming; re-warming them (round "
      ++ itoa round
      ++ codes "/"
      ++ itoa verify_rounds
      ++ codes ") ..."

  -- the rounds that are left, the next being number `round`
  unfoldable pub rounds :
      ℕ
      → ℕ
      → List Text
      → Dict Text
      → Result (List Text)
      → Stateful World (Dict Text × Result (List Text))
  unfolding pure
  rounds zero round refs failed found = pure (failed, found)
  rounds (suc left) round refs failed (err x) = pure (failed, err x)
  rounds (suc left) round refs failed (ok []) = pure (failed, ok [])
  rounds (suc left) round refs failed (ok (m ∷ ms)) =
      log_line (rewarm_line round (m ∷ ms))
      >> fresh_seen
      >> (warm_all (m ∷ ms) >>= λ results. check_disk refs >>= λ again.
          rounds left (suc round) refs (note_results results failed) again)

  abbrev pub payload_missing : Text → Dict Text → List Text → ℕ
  payload_missing ref absent missing =
      if is_listed (get ref absent) then length missing - 1 else length missing

  pub done_line : Text → List Text → Dict Text → List Text → Text → Text
  done_line ref refs absent missing time =
      codes "done: "
      ++ itoa (length refs - payload_missing ref absent missing)
      ++ codes "/"
      ++ itoa (length refs)
      ++ codes " payload images verified on disk in "
      ++ time

  unfoldable pub log_done : Text → List Text → Dict Text → List Text → Stateful World (Unit {0})
  log_done ref refs absent missing w = log_line (done_line ref refs absent missing (elapsed w)) w

  -- behind the rounds: where the store cannot be read, what the warming itself saw is reported
  unfoldable pub verdict :
      Text → List Text → Dict Text × Result (List Text) → Stateful World (Unit {0})
  verdict ref refs (failed, err x) =
      log_line (codes "done (NOT verified on disk: " ++ x ++ codes ")")
      >> report_failures failed (length refs) (codes "failed")
  verdict ref refs (failed, ok missing) =
      log_done ref refs (not_on_disk failed missing) missing
      >> report_failures (not_on_disk failed missing) (length refs) (codes "not on disk")

  pub warmed_line : List Text → Dict Text → List WarmResult → World → Text
  warmed_line refs failed results w =
      codes "warmed "
      ++ itoa (length refs - length failed)
      ++ codes "/"
      ++ itoa (length refs)
      ++ codes " payload images ("
      ++ itoa (sum_blobs results)
      ++ codes " blob references, "
      ++ itoa (length w.seen)
      ++ codes " blobs fetched) in "
      ++ elapsed w

  unfoldable pub log_warmed : List Text → Dict Text → List WarmResult → Stateful World (Unit {0})
  log_warmed refs failed results w = log_line (warmed_line refs failed results w) w

  -- the warming of the payload, and the check of what is on disk
  unfoldable pub warm_and_verify : ℕ → Text → List Text → Stateful World (Unit {0})
  warm_and_verify jobs ref refs =
      log_line (
        codes "release lists "
        ++ itoa (length refs)
        ++ codes " payload images; warming "
        ++ platform_label platform
        ++ codes " with -j "
        ++ itoa jobs
        ++ codes " ...")
      >> (warm_all refs >>= λ results.
          log_warmed refs (note_failures results []) results
          >> (check_disk (ref ∷ refs) >>= λ found.
              rounds verify_rounds 1 (ref ∷ refs) (note_failures results []) found
              >>= verdict ref refs))

  unfoldable pub pull_known :
      ℕ → Text → Text → ImageRef → Option (ℕ × Upstream) → Stateful World (Unit {0})
  unfolding raise
  pull_known jobs ref creds p none =
      raise (
        codes "no cache for host "
        ++ quoted p.host
        ++ codes " (known: "
        ++ known_hosts
        ++ codes ")")
  pull_known jobs ref creds p (some (i, u)) =
      fresh_seen
      >> log_line (
          codes "reading "
          ++ image_references_path
          ++ codes " from "
          ++ p.host
          ++ codes "/"
          ++ p.repo
          ++ codes ":"
          ++ p.ref
          ++ codes " via :"
          ++ itoa (port e i u)
          ++ codes " ...")
      >> (with_client (read_payload net c (pull_client e i u p.repo creds) p.ref platform)
          >>= warm_and_verify jobs ref)

  -- `PullRelease`
  unfoldable pub pull_release : ℕ → Text → Text → Stateful World (Unit {0})
  unfolding raise lift
  pull_release jobs ref creds =
      if ltb jobs 1
      then raise (codes "pull-release: -j must be at least 1")
      else (lift (parse_ref ref) >>= λ p. pull_known jobs ref creds p (upstream_for_host p.host))
