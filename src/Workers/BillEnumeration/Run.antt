-- ===== src/Workers/BillEnumeration/Run.antt =====
-- workers/legislative_activity.py: the enumeration of a term, from its guards to the end of its run.
-- The loop over the pages has fuel; `max_pages + 1` rounds are enough, for no page is fetched beyond
-- the expected ones, which are `max_pages` at most.
use civic_intel.Prelude.{
  ℕ, zero, suc, ◌+◌, String, Bool, true, false, not, Option, none, some, [], ◌∷◌, ltb, nat_beq,
  if◌then◌else◌, ◌!=◌, string_eq, bool_eq, nat_eq, option_eq, pair_eq, list_eq, length, Result,
  ◌>>◌, raise_if, raising, ok, err,
}
use civic_intel.Prelude.Integers.{ℤ, pos, negsuc}
use civic_intel.Domain.Enums.{SourceRunStatus}
use civic_intel.Domain.Contracts.Base.{Uuid, Metadata, text, number, boolean}
use civic_intel.Domain.Contracts.Collection.{SourceRun, SourceCheckpoint}
use civic_intel.Persistence.Store.{
  Store, StoreError, database_not_ready, source_checkpoint, start_source_run, finish_source_run,
}
use civic_intel.Persistence.Page.{BatchPageCommitResult, commit_source_page}
use civic_intel.Verification.Policy.{PolicyAction, require_policy}
use civic_intel.Connectors.Base.{Outside}
use civic_intel.Connectors.AssemblyBills.{index_bound}
use civic_intel.Connectors.AssemblyBills.Client.{AssemblyBillConnector, host, has_filters}
use civic_intel.Connectors.AssemblyBills.Reviewed.{national_assembly_bill_policy}
use civic_intel.Domain.Contracts.Evidence.{SourcePolicy}
use civic_intel.Workers.BillEnumeration.Resume.{Beginning, beginning}
use civic_intel.Workers.BillEnumeration.Examine.{Examined, scope_key, examine}
use civic_intel.Workers.BillEnumeration.{
  CoverageFailure, EnumerationError, coverage, connector, wrong_host, denied, repository,
  not_from_page_one, filtered, incomplete, Progress, Fresh, BillEnumerator,
  AssemblyBillEnumerationResult, feeder_name, source_contract, error_name,
}

-- The constructor: `none` where it raises `ValueError`.
unfoldable pub construct_enumerator :
    AssemblyBillConnector → Option SourcePolicy → ℕ → Option BillEnumerator
construct_enumerator c policy max_pages =
    if ltb max_pages 1
    then none
    else some (record {
      connector = c;
      policy = elim policy [ none ↦ national_assembly_bill_policy | some p ↦ p ];
      max_pages = max_pages;
    })

-- How the loop ends: by its `break`, by an exception, or without fuel.
pub data Ended : Type 0 where
  covered : Progress → Store → Ended
  raised : EnumerationError → Progress → Store → Ended
  exhausted : Ended

-- The last expected page is committed.
unfoldable pub check_coverage : Examined → Store → Ended
check_coverage x s =
    if length x.next.seen_hashes != x.total
    then raised (coverage incomplete) x.next s
    else covered x.next s

-- Whether the page was the last one.
unfoldable pub next_page : (Progress → Store → Ended) → Examined → Store → Bool → Ended
unfolding check_coverage
next_page go_on x s true = check_coverage x s
next_page go_on x s false = go_on x.next s

unfoldable pub after_commit :
    (Progress → Store → Ended)
    → ℕ
    → Progress
    → Store
    → Examined
    → Result StoreError (BatchPageCommitResult × Store)
    → Ended
unfolding next_page
after_commit go_on n p s x (err e) = raised (repository e) p s
after_commit go_on n p s x (ok committed) = next_page go_on x committed.1 (nat_beq n x.pages)

abbrev pub nothing_yet : Progress
nothing_yet = record {
  expected = none;
  seen_hashes = [];
  page_fingerprints = [];
  pages_committed = 0;
}

abbrev pub Outcome : Type 0
Outcome = Result EnumerationError AssemblyBillEnumerationResult × Store

unfoldable pub failure_summary : String
failure_summary = "Assembly bill participation enumeration did not complete"

abbrev pub failure_status : Progress → SourceRunStatus
failure_status p =
    if nat_beq p.pages_committed 0 then SourceRunStatus.failed else SourceRunStatus.partial

-- One round, on what the page turned out to be.
unfoldable pub round :
    (Progress → Store → Ended) → ℕ → Progress → Store → Result EnumerationError Examined → Ended
unfolding after_commit
round go_on n p s (err e) = raised e p s
round go_on n p s (ok x) = after_commit go_on n p s x (commit_source_page x.page s)

module _ (o : Outside) (w : BillEnumerator) (fresh : Fresh) where
  unfoldable pub enumerate_pages : Uuid → ℕ → ℕ → Progress → Store → Ended
  unfolding examine round
  enumerate_pages run_id zero n p s = exhausted
  enumerate_pages run_id (suc fuel) n p s =
      round (enumerate_pages run_id fuel (n + 1)) n p s (examine o w fresh run_id n p)

  -- A page index that is negative is refused by `for_page`.
  unfoldable pub enumerate_from : Uuid → ℤ → Progress → Store → Ended
  unfolding enumerate_pages
  enumerate_from run_id (pos n) p s = enumerate_pages run_id (w.max_pages + 1) n p s
  enumerate_from run_id (negsuc n) p s = raised (connector index_bound) p s

  unfoldable pub enumerate_begun : Uuid → Store → Result CoverageFailure Beginning → Ended
  unfolding enumerate_from
  enumerate_begun run_id s (err e) = raised (coverage e) nothing_yet s
  enumerate_begun run_id s (ok b) = enumerate_from run_id b.start_page b.progress s

  unfoldable pub enumerate_term : Uuid → Bool → Option SourceCheckpoint → Store → Ended
  unfolding enumerate_begun beginning
  enumerate_term run_id resume prior s =
      enumerate_begun run_id s (beginning o w.connector resume prior)

  -- The handler: it closes the run and raises again. Its own exception takes the place of the first.
  abbrev pub raise_again :
      EnumerationError → Store → Result StoreError (SourceRun × Store) → Outcome
  raise_again e s (ok closed) = (err e, closed.1)
  raise_again e s (err f) = (err (repository f), s)

  unfoldable pub close_failed : Uuid → EnumerationError → Progress → Store → Outcome
  unfolding finish_source_run failure_summary
  close_failed run_id e p s = raise_again e s (
      finish_source_run o.unicode fresh.closed_at run_id (failure_status p) (some (error_name e))
        (some failure_summary) s)

  abbrev pub enumeration_result : Progress → SourceRun → AssemblyBillEnumerationResult
  enumeration_result p completed = record {
    run = completed;
    pages_committed = p.pages_committed;
    unique_records = length p.seen_hashes;
  }

  unfoldable pub after_close :
      Uuid → Progress → Store → Result StoreError (SourceRun × Store) → Outcome
  unfolding close_failed
  after_close run_id p s (ok completed) = (ok (enumeration_result p completed.0), completed.1)
  after_close run_id p s (err e) = close_failed run_id (repository e) p s

  unfoldable pub close_covered : Uuid → Progress → Store → Outcome
  unfolding finish_source_run after_close
  close_covered run_id p s =
      after_close run_id p s
        (finish_source_run o.unicode fresh.closed_at run_id SourceRunStatus.success none none s)

  unfoldable pub close_run : Uuid → Ended → Option Outcome
  unfolding close_failed close_covered
  close_run run_id (covered p s) = some (close_covered run_id p s)
  close_run run_id (raised e p s) = some (close_failed run_id e p s)
  close_run run_id exhausted = none

  abbrev pub run_metadata : Bool → Metadata
  run_metadata resume =
      ("source_contract", text source_contract)
      ∷ ("assembly_age", number w.connector.assembly_age)
      ∷ ("resume", boolean resume)
      ∷ []

  -- The guards, and the start of the run.
  unfoldable pub begin_run : Bool → Store → Result EnumerationError (SourceRun × Store)
  unfolding has_filters require_policy start_source_run
  begin_run resume s = do
    raise_if (w.connector.page_index != 1) (coverage not_from_page_one)
    raise_if (has_filters w.connector) (coverage filtered)
    raise_if (w.policy.domain != host) wrong_host
    raising denied (require_policy (some w.policy) PolicyAction.fetch)
    raising denied (require_policy (some w.policy) PolicyAction.store_metadata)
    raise_if (not s.schema_ready) (repository database_not_ready)
    raising repository (
        start_source_run fresh.run_id fresh.started_at (run_metadata resume) feeder_name
          (scope_key w.connector) s)

  unfoldable pub enumerate_started :
      Bool → Store → Result EnumerationError (SourceRun × Store) → Option Outcome
  unfolding enumerate_term close_run source_checkpoint
  enumerate_started resume s (err e) = some (err e, s)
  enumerate_started resume s (ok started) = close_run started.0.id (
      enumerate_term started.0.id resume (source_checkpoint s feeder_name (scope_key w.connector))
        started.1)

  -- `enumerate(resume=resume)`; `none` if the fuel does not suffice.
  unfoldable pub enumerate : Bool → Store → Option Outcome
  unfolding begin_run enumerate_started
  enumerate resume s = enumerate_started resume s (begin_run resume s)
