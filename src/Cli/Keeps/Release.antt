-- ===== src/Cli/Keeps/Release.antt =====
-- `PullRelease`, `Pull` and `ReleaseCoverage` delete no volume where the warming and the reading of a
-- store delete none.
use regcachectl.Base.{ℕ, zero, suc, List, [], ◌∷◌, Option, none, some}
use regcachectl.Base.Results.{Result, ok, err}
use regcachectl.Base.Stateful.{Stateful}
use regcachectl.Base.Kept.{
  Kept, Kept-bind, Kept-pure, Kept-if, Kept-lift, Kept-raise, Kept-attempt, Kept-wrapped,
  kept_rules,
}
use regcachectl.Text.{Text}
use regcachectl.Dict.{Dict, get}
use regcachectl.Upstream.{Upstream, upstream_for_host}
use regcachectl.Engine.{Engine}
use regcachectl.Reference.{ImageRef, parse_ref}
use regcachectl.Coverage.{Codec, Store}
use regcachectl.Client.{Client, Network, Action}
use regcachectl.Fleet.Removal.{Outlasts, KeepsData, KeepsData-Outlasts}
use regcachectl.Release.{World, WarmResult, log_line, fresh_seen, with_client, without_seen}
use regcachectl.Release.Missing.{
  view_for, note_missing, check_view, check_host, check_ref, missing_loop, missing_on_disk,
}
use regcachectl.Release.Pull.{
  note_results, log_lines, report_failures, check_disk, rounds, log_done, verdict, log_warmed,
  warm_and_verify, pull_known, pull_release,
}
use regcachectl.Release.Report.{no_registry, report_from, report}
use regcachectl.Release.Image
use regcachectl.Release.Image.{
  Told, log_told, default_creds, warm_and_tell, pull_through, pull_one, pull,
}

abbrev o : Outlasts KeepsData
o = KeepsData-Outlasts

abbrev pub OnWorld : World → Type 0
OnWorld w = KeepsData w.history

pub log_line-Kept : (line : Text) → Kept OnWorld (log_line line)
unfolding log_line
log_line-Kept line = record { at = λ w p. (o.line line).step w.history p }

fresh_seen-Kept : Kept OnWorld fresh_seen
unfolding fresh_seen
fresh_seen-Kept = record { at = λ w p. p }

module _ {ℓ} {A : Type ℓ} where
  pub with_client-Kept : (m : Action A) → Kept OnWorld (with_client m)
  unfolding with_client
  with_client-Kept m = record { at = λ w p. p }

module _ {P : World → Type 0} (open_store : Upstream → Stateful World Store) (c : Codec)
    (platform : Text) (opens : (u : Upstream) → Kept P (open_store u)) where
  note_missing-Kept :
      (r : Text) (rest : Stateful World (List Text))
      → Kept P rest
      → Kept P (note_missing open_store c platform r rest)
  unfolding note_missing
  note_missing-Kept r rest k = search kept_rules

  view_for-Kept :
      (u : Upstream) (views : Dict Store) (o : Option Store)
      → Kept P (view_for open_store c platform u views o)
  unfolding view_for
  view_for-Kept u views (some v) = search kept_rules
  view_for-Kept u views none = Kept-bind _ _ (opens u) (λ v. Kept-pure _)

  module _ (rest : Dict Store → Stateful World (List Text))
      (k : (vs : Dict Store) → Kept P (rest vs)) (r : Text) where
    check_view-Kept :
        (p : ImageRef) (a : Store × Dict Store)
        → Kept P (check_view open_store c platform rest r p a)
    unfolding check_view
    check_view-Kept p (v, vs) = Kept-if _ _ _ (k vs) (note_missing-Kept r _ (k vs))

    check_host-Kept :
        (p : ImageRef) (views : Dict Store) (h : Option (ℕ × Upstream))
        → Kept P (check_host open_store c platform rest r p views h)
    unfolding check_host
    check_host-Kept p views none = note_missing-Kept r _ (k views)
    check_host-Kept p views (some (i, u)) =
        Kept-if _ _ _ (note_missing-Kept r _ (k views))
          (Kept-bind _ _ (view_for-Kept u views (get u.name views)) (check_view-Kept p))

    check_ref-Kept :
        (views : Dict Store) (p : Result ImageRef)
        → Kept P (check_ref open_store c platform rest r views p)
    unfolding check_ref
    check_ref-Kept views (err x) = note_missing-Kept r _ (k views)
    check_ref-Kept views (ok p) = check_host-Kept p views (upstream_for_host p.host)

  missing_loop-Kept :
      (rs : List Text) (views : Dict Store) → Kept P (missing_loop open_store c platform rs views)
  unfolding missing_loop
  missing_loop-Kept [] views = search kept_rules
  missing_loop-Kept (r ∷ rs) views =
      check_ref-Kept (missing_loop open_store c platform rs) (missing_loop-Kept rs) r views
        (parse_ref r)

  missing_on_disk-Kept : (refs : List Text) → Kept P (missing_on_disk open_store c platform refs)
  unfolding missing_on_disk
  missing_on_disk-Kept refs = missing_loop-Kept refs []

  report_from-Kept :
      (depth : ℕ) (p : ImageRef) (h : Option (ℕ × Upstream))
      → Kept P (report_from open_store c platform depth p h)
  unfolding report_from no_registry
  report_from-Kept depth p none = Kept-raise _
  report_from-Kept depth p (some (i, u)) =
      Kept-if _ _ _ (Kept-raise _) (Kept-bind _ _ (opens u) (λ v. Kept-pure _))

  pub report-Kept : (depth : ℕ) (ref : Text) → Kept P (report open_store c platform depth ref)
  unfolding report
  report-Kept depth ref =
      Kept-bind _ _ (Kept-lift _) (λ p. report_from-Kept depth p (upstream_for_host p.host))

log_lines-Kept : (ls : List Text) → Kept OnWorld (log_lines ls)
unfolding log_lines
log_lines-Kept [] = Kept-pure _
log_lines-Kept (l ∷ ls) = Kept-bind _ _ (log_line-Kept _) (λ done. log_lines-Kept ls)

report_failures-Kept :
    (failed : Dict Text) (total : ℕ) (what : Text)
    → Kept OnWorld (report_failures failed total what)
unfolding report_failures
report_failures-Kept [] total what = search kept_rules
report_failures-Kept (f ∷ failed) total what =
    Kept-bind _ _ (log_lines-Kept _) (λ done. Kept-raise _)

module _ (open_store : Upstream → Stateful World Store)
    (warm_all : List Text → Stateful World (List WarmResult)) (elapsed : World → Text) (e : Engine)
    (net : Network) (c : Codec) (platform : Text)
    (opens : (u : Upstream) → Kept OnWorld (open_store u))
    (warms : (refs : List Text) → Kept OnWorld (warm_all refs)) where
  check_disk-Kept :
      (refs : List Text)
      → Kept OnWorld (check_disk open_store warm_all elapsed e net c platform refs)
  unfolding check_disk
  check_disk-Kept refs = Kept-attempt _ (missing_on_disk-Kept open_store c platform opens refs)

  rounds-Kept :
      (left round : ℕ) (refs : List Text) (failed : Dict Text) (found : Result (List Text))
      → Kept OnWorld
          (rounds open_store warm_all elapsed e net c platform left round refs failed found)
  unfolding rounds
  rounds-Kept zero round refs failed found = Kept-pure _
  rounds-Kept (suc left) round refs failed (err x) = Kept-pure _
  rounds-Kept (suc left) round refs failed (ok []) = Kept-pure _
  rounds-Kept (suc left) round refs failed (ok (m ∷ ms)) =
      Kept-bind _ _ (Kept-bind _ _ (log_line-Kept _) (λ l. fresh_seen-Kept)) (λ s.
        Kept-bind _ _ (warms (m ∷ ms)) (λ results.
          Kept-bind _ _ (check_disk-Kept refs)
            (λ again. rounds-Kept left (suc round) refs (note_results results failed) again)))

  verdict-Kept :
      (ref : Text) (refs : List Text) (d : Dict Text × Result (List Text))
      → Kept OnWorld (verdict open_store warm_all elapsed e net c platform ref refs d)
  unfolding verdict log_done
  verdict-Kept ref refs (failed, err x) =
      Kept-bind _ _ (log_line-Kept _) (λ l. report_failures-Kept _ _ _)
  verdict-Kept ref refs (failed, ok missing) =
      Kept-bind _ _ (record { at = λ w p. (log_line-Kept _).at w p })
        (λ l. report_failures-Kept _ _ _)

  warm_and_verify-Kept :
      (jobs : ℕ) (ref : Text) (refs : List Text)
      → Kept OnWorld (warm_and_verify open_store warm_all elapsed e net c platform jobs ref refs)
  unfolding warm_and_verify log_warmed
  warm_and_verify-Kept jobs ref refs = Kept-bind _ _ (log_line-Kept _) (λ l.
      Kept-bind _ _ (warms refs) (λ results.
        Kept-bind _ _ (record { at = λ w p. (log_line-Kept _).at w p })
          (λ k.
            Kept-bind _ _ (check_disk-Kept (ref ∷ refs))
              (λ found. Kept-bind _ _ (rounds-Kept _ _ _ _ found) (verdict-Kept ref refs)))))

  pub pull_release-Kept :
      (jobs : ℕ) (ref creds : Text)
      → Kept OnWorld (pull_release open_store warm_all elapsed e net c platform jobs ref creds)
  unfolding pull_release pull_known
  pull_release-Kept jobs ref creds =
      Kept-if _ _ _ (Kept-raise _)
        (Kept-bind _ _ (Kept-lift _) (λ p. go p (upstream_for_host p.host)))
    where
      go :
          (p : ImageRef) (h : Option (ℕ × Upstream))
          → Kept OnWorld
              (pull_known open_store warm_all elapsed e net c platform jobs ref creds p h)
      go p none = Kept-raise _
      go p (some (i, u)) =
          Kept-bind _ _ (Kept-bind _ _ fresh_seen-Kept (λ s. log_line-Kept _))
            (λ l. Kept-bind _ _ (with_client-Kept _) (warm_and_verify-Kept jobs ref))

log_told-Kept : (ts : List Told) → Kept OnWorld (log_told ts)
unfolding log_told
log_told-Kept [] = Kept-pure _
log_told-Kept (t ∷ ts) = Kept-bind _ _ (log_line-Kept _) (λ l. log_told-Kept ts)

module _ (ngc : Option Text) (e : Engine) (net : Network) (c : Codec) where
  warm_and_tell-Kept : (pc : Client) (ref : Text) → Kept OnWorld (warm_and_tell ngc e net c pc ref)
  unfolding warm_and_tell without_seen
  warm_and_tell-Kept pc ref = record {
    at = λ w p. (Kept-bind _ _ (log_told-Kept _) (λ l. Kept-lift _)).at _ p;
  }

  pull_one-Kept : (raw creds : Text) → Kept OnWorld (pull_one ngc e net c raw creds)
  unfolding pull_one Image.pull_known pull_through
  pull_one-Kept raw creds = Kept-bind _ _ (Kept-lift _) (λ p. go p (upstream_for_host p.host))
    where
      go :
          (p : ImageRef) (h : Option (ℕ × Upstream))
          → Kept OnWorld (Image.pull_known ngc e net c p creds h)
      go p none = Kept-raise _
      go p (some (i, u)) = Kept-bind _ _ (Kept-lift _) (λ key.
          Kept-bind _ _ (log_line-Kept _)
            (λ l. Kept-bind _ _ (warm_and_tell-Kept _ _) (λ counted. log_line-Kept _)))

  pub pull-Kept : (refs : List Text) (creds : Text) → Kept OnWorld (pull ngc e net c refs creds)
  unfolding pull
  pull-Kept [] creds = Kept-pure _
  pull-Kept (raw ∷ refs) creds =
      Kept-bind _ _ (Kept-wrapped _ _ (pull_one-Kept raw creds)) (λ done. pull-Kept refs creds)
