-- ===== src/Workers/BillEnumeration/Closes.antt =====
-- workers/legislative_activity.py: the run is closed, however its enumeration ends.
use mathlib.Core.Option.{some_inj}
use civic_intel.Prelude.{
  ℕ, ◌+◌, String, ◌≡◌, refl, sym, ap, subst, ◌∙◌, inl, inr, Bool, true, false, Option, none, some,
  nat_beq, if◌then◌else◌, Bool-cases, string_eq, bool_eq, nat_eq, option_eq, pair_eq, list_eq,
  length, update_where, Result, Every, ok, err,
}
use civic_intel.Prelude.Integers.{int_eq}
use civic_intel.Prelude.Texts.{Unicode}
use civic_intel.Domain.Enums.{SourceRunStatus, source_run_status_eq}
use civic_intel.Domain.Contracts.Base.{Uuid, Time}
use civic_intel.Domain.Contracts.Evidence.{is_none}
use civic_intel.Domain.Contracts.Collection.{SourceRun}
use civic_intel.Persistence.Store.{
  Store, run_with, find_run, finish_source_run, finish_found, finished, is_terminal,
  holds_credentials, source_checkpoint,
}
use civic_intel.Connectors.Base.{Outside}
use civic_intel.Workers.BillEnumeration.Resume.{Beginning, beginning}
use civic_intel.Workers.BillEnumeration.Examine.{scope_key}
use civic_intel.Workers.BillEnumeration.Keeps.{Kept, enumerate_from-Kept}
use civic_intel.Workers.BillEnumeration.Live.{Live, Live-commit, Live-start, found_written}
use civic_intel.Workers.BillEnumeration.Run.{
  Ended, covered, raised, exhausted, enumerate_begun, enumerate_term, Outcome, failure_status,
  failure_summary, close_failed, after_close, close_covered, close_run, run_metadata, begin_run,
  enumerate_started, enumerate, nothing_yet,
}
use civic_intel.Workers.BillEnumeration.{
  CoverageFailure, EnumerationError, error_name, Progress, Fresh, BillEnumerator,
  AssemblyBillEnumerationResult, feeder_name,
}
use civic_intel.Workers.BillEnumeration.Begins.{beginning_uncommitted, begin_run-start}

-- `str.casefold` of the two summaries that a run is closed with.
pub record FoldsCase (u : Unicode) : Type 0 where
  pub empty_text : u.casefold "" ≡ ""
  pub summary :
      u.casefold "Assembly bill participation enumeration did not complete"
      ≡ "assembly bill participation enumeration did not complete"

-- How the row of the run shows the outcome: `PARTIAL` where a page moved its checkpoint.
abbrev pub Shows : Result EnumerationError AssemblyBillEnumerationResult → SourceRun → Type 0
Shows (ok result) r = (result.run ≡ r) × (r.status ≡ SourceRunStatus.success)
Shows (err e) r =
    (r.status
      ≡ (if is_none r.checkpoint_after then SourceRunStatus.failed else SourceRunStatus.partial))
    × (r.error_code ≡ some (error_name e))

pub record Closed (id : Uuid) (now : Time) (outcome : Outcome) : Type 0 where
  pub row : SourceRun
  pub found : find_run outcome.1 id ≡ some row
  pub ended : row.finished_at ≡ some now
  pub shows : Shows outcome.0 row

-- A live run is finished as it is asked to be.
pub finish_live :
    (u : Unicode) (now : Time) (id : Uuid) (status : SourceRunStatus) (code summary : Option String)
    (s : Store) (row : SourceRun)
    → is_terminal status ≡ true
    → holds_credentials u summary ≡ false
    → find_run s id ≡ some row
    → row.status ≡ SourceRunStatus.running
    → (after : Store) × (finish_source_run u now id status code summary s
        ≡ ok (finished status now code summary row, after))
      × (find_run after id ≡ some (finished status now code summary row))
unfolding finish_source_run finish_found find_run
finish_live u now id status code summary s row terminal safe found live =
    let close = finished status now code summary in
    (
      record s { runs = update_where (run_with id) close s.runs },
      simp (terminal, safe, found, live),
      found_written id close (λ q. refl) s.runs found,
    )

none_safe : (u : Unicode) → FoldsCase u → holds_credentials u none ≡ false
unfolding holds_credentials
none_safe u folds = rw folds.empty_text refl

summary_safe : (u : Unicode) → FoldsCase u → holds_credentials u (some failure_summary) ≡ false
unfolding holds_credentials failure_summary
summary_safe u folds = rw folds.summary refl

failure_terminal : (p : Progress) → is_terminal (failure_status p) ≡ true
failure_terminal p = elim (Bool-cases (nat_beq p.pages_committed 0)) [
  | inl e ↦ rw e refl
  | inr e ↦ rw e refl
]

module _ (o : Outside) (w : BillEnumerator) (fresh : Fresh) (folds : FoldsCase o.unicode)
    (run_id : Uuid) where
  close_failed-Closed :
      (e : EnumerationError) (p : Progress) (s : Store) (records : ℕ)
      → Live run_id records p s
      → Closed run_id fresh.closed_at (close_failed o w fresh run_id e p s)
  unfolding close_failed failure_summary
  close_failed-Closed e p s records l =
      let (after, closes, found) =
        finish_live o.unicode fresh.closed_at run_id (failure_status p) (some (error_name e))
          (some failure_summary) s l.row (failure_terminal p) (summary_safe o.unicode folds) l.found
          l.live in
      rw closes (record {
        row =
            finished (failure_status p) fresh.closed_at (some (error_name e)) (some failure_summary)
              l.row;
        found = found;
        ended = refl;
        shows = (
          ap (λ t. if t then SourceRunStatus.failed else SourceRunStatus.partial) (sym l.marked),
          refl,
        );
      })

  close_covered-Closed :
      (p : Progress) (s : Store) (records : ℕ)
      → Live run_id records p s
      → Closed run_id fresh.closed_at (close_covered o w fresh run_id p s)
  unfolding close_covered after_close
  close_covered-Closed p s records l =
      let (after, closes, found) =
        finish_live o.unicode fresh.closed_at run_id SourceRunStatus.success none none s l.row refl
          (none_safe o.unicode folds) l.found l.live in
      rw closes (record {
        row = finished SourceRunStatus.success fresh.closed_at none none l.row;
        found = found;
        ended = refl;
        shows = (refl, refl);
      })

  -- Before every round the run is live.
  abbrev IsLive : ℕ → Progress → Store → Type 0
  IsLive n p s = (records : ℕ) × Live run_id records p s

  close_run-Closed :
      (ended : Ended) (outcome : Outcome)
      → Kept o w fresh run_id IsLive ended
      → close_run o w fresh run_id ended ≡ some outcome
      → Closed run_id fresh.closed_at outcome
  unfolding close_run
  close_run-Closed (covered p s) outcome kept h =
      let (records, l) = kept.kept in
      subst (Closed run_id fresh.closed_at) (some_inj.0 h) (close_covered-Closed p s records l)
  close_run-Closed (raised e p s) outcome (n, (records, l)) h =
      subst (Closed run_id fresh.closed_at) (some_inj.0 h) (close_failed-Closed e p s records l)
  close_run-Closed exhausted outcome kept h = cc

  enumerate_begun-IsLive :
      (s : Store) (r : Result CoverageFailure Beginning)
      → Every (λ (b : Beginning). b.progress.pages_committed ≡ 0) r
      → ((p : Progress) → p.pages_committed ≡ 0 → Live run_id 0 p s)
      → Kept o w fresh run_id IsLive (enumerate_begun o w fresh run_id s r)
  unfolding enumerate_begun
  enumerate_begun-IsLive s (err e) h l = (0, (0, l nothing_yet refl))
  enumerate_begun-IsLive s (ok b) h l =
      enumerate_from-Kept o w fresh run_id IsLive
        (λ n p z x result after (records, i) prepared committed. (
          records + length prepared.bills,
          Live-commit o w fresh run_id n p z x result after records i prepared committed,
        ))
        b.start_page b.progress s (λ n. (0, l b.progress h))

-- Once an enumeration has started its run, the run is closed when it ends, on whatever store it
-- began: the row of the run is that of the result and is marked a success, if it returns; if it
-- raises, the row names the exception, and is marked as failed where it has no checkpoint, and as
-- partial where a page moved its checkpoint. The folding of case leaves the summary's words.
pub enumerate_closes :
    (o : Outside) (w : BillEnumerator) (fresh : Fresh)
    → FoldsCase o.unicode
    → (resume : Bool) (s : Store) (run : SourceRun) (started : Store) (outcome : Outcome)
    → begin_run o w fresh resume s ≡ ok (run, started)
    → enumerate o w fresh resume s ≡ some outcome
    → Closed run.id fresh.closed_at outcome
unfolding enumerate enumerate_started enumerate_term
enumerate_closes o w fresh folds resume s run started outcome h e =
    let prior = source_checkpoint s feeder_name (scope_key w.connector) in
    let start = begin_run-start o w fresh resume s run started h in
    close_run-Closed o w fresh folds run.id _ outcome
      (enumerate_begun-IsLive o w fresh folds run.id started (beginning o w.connector resume prior)
        (beginning_uncommitted o w.connector resume prior)
        (λ p q.
          Live-start fresh.run_id fresh.started_at (run_metadata o w fresh resume) feeder_name
            (scope_key w.connector) run s started p start q))
      (sym (ap (enumerate_started o w fresh resume s) h) ∙ e)
