-- ===== src/Workers/BillEnumeration/Ends.antt =====
-- workers/legislative_activity.py: the loop over the pages ends, and what its rounds keep.
use civic_intel.Prelude.{
  ℕ, zero, suc, ◌+◌, ◌≤◌, ◌<◌, ◌≡◌, refl, Bool, true, false, some, arith, nat_beq, string_eq,
  bool_eq, nat_eq, option_eq, pair_eq, Result, ok, err,
}
use civic_intel.Prelude.Integers.{ℤ, pos, negsuc}
use civic_intel.Domain.Contracts.Base.{Uuid}
use civic_intel.Domain.Contracts.Collection.{SourceRun}
use civic_intel.Persistence.Store.{Store, StoreError, source_checkpoint}
use civic_intel.Persistence.Page.{BatchPageCommitResult, commit_source_page}
use civic_intel.Connectors.Base.{Outside}
use civic_intel.Workers.BillEnumeration.Resume.{Beginning, beginning}
use civic_intel.Workers.BillEnumeration.Examine.{Examined, examine, scope_key}
use civic_intel.Workers.BillEnumeration.Prepared.{examine-Prepared}
use civic_intel.Workers.BillEnumeration.Run.{
  Ended, covered, raised, exhausted, check_coverage, next_page, after_commit, round,
  enumerate_pages, enumerate_from, enumerate_begun, enumerate_term, Outcome, close_run, begin_run,
  enumerate_started, enumerate,
}
use civic_intel.Workers.BillEnumeration.{
  EnumerationError, CoverageFailure, Progress, Fresh, BillEnumerator, feeder_name,
}

-- The loop has not run out of fuel.
abbrev stops : Ended → Bool
stops (covered p s) = true
stops (raised e p s) = true
stops exhausted = false

stops-check_coverage : (x : Examined) (s : Store) → stops (check_coverage x s) ≡ true
unfolding check_coverage
stops-check_coverage x s = ground arith

module _ (o : Outside) (w : BillEnumerator) (fresh : Fresh) (run_id : Uuid) where
  -- A round stops, if the rounds that may follow it do.
  module _ (go_on : Progress → Store → Ended) (n : ℕ)
      (more : n < w.max_pages → (q : Progress) (z : Store) → stops (go_on q z) ≡ true) where
    stops-next_page :
        (x : Examined) (s : Store) (last : Bool)
        → nat_beq n x.pages ≡ last
        → n ≤ x.pages
        → x.pages ≤ w.max_pages
        → stops (next_page go_on x s last) ≡ true
    unfolding next_page
    stops-next_page x s true e due bound = stops-check_coverage x s
    stops-next_page x s false e due bound = more (ground (arith, e, due, bound)) x.next s

    stops-after_commit :
        (p : Progress) (s : Store) (x : Examined)
        (r : Result StoreError (BatchPageCommitResult × Store))
        → n ≤ x.pages
        → x.pages ≤ w.max_pages
        → stops (after_commit go_on n p s x r) ≡ true
    unfolding after_commit
    stops-after_commit p s x (err e) due bound = refl
    stops-after_commit p s x (ok committed) due bound =
        stops-next_page x committed.1 (nat_beq n x.pages) refl due bound

    stops-round :
        (p : Progress) (s : Store) (r : Result EnumerationError Examined)
        → examine o w fresh run_id n p ≡ r
        → stops (round go_on n p s r) ≡ true
    unfolding round
    stops-round p s (err e) h = refl
    stops-round p s (ok x) h =
        let a = (examine-Prepared o w fresh run_id n p h).announces in
        stops-after_commit p s x (commit_source_page x.page s) a.due a.within_max

  stops-enumerate_pages :
      (fuel n : ℕ) (p : Progress) (s : Store)
      → 1 ≤ fuel
      → w.max_pages < fuel + n
      → stops (enumerate_pages o w fresh run_id fuel n p s) ≡ true
  unfolding enumerate_pages
  stops-enumerate_pages zero n p s h enough = absurd (omega (arith, h))
  stops-enumerate_pages (suc fuel) n p s h enough =
      stops-round (enumerate_pages o w fresh run_id fuel (n + 1)) n
        (λ next q z.
          stops-enumerate_pages fuel (n + 1) q z (omega (arith, next, enough))
            (omega (arith, enough)))
        p s (examine o w fresh run_id n p) refl

  stops-enumerate_from :
      (start : ℤ) (p : Progress) (s : Store)
      → stops (enumerate_from o w fresh run_id start p s) ≡ true
  unfolding enumerate_from
  stops-enumerate_from (pos n) p s =
      stops-enumerate_pages (w.max_pages + 1) n p s (omega arith) (omega arith)
  stops-enumerate_from (negsuc n) p s = refl

  pub stops-enumerate_begun :
      (s : Store) (r : Result CoverageFailure Beginning)
      → stops (enumerate_begun o w fresh run_id s r) ≡ true
  unfolding enumerate_begun
  stops-enumerate_begun s (err e) = refl
  stops-enumerate_begun s (ok b) = stops-enumerate_from b.start_page b.progress s

stops-close_run :
    (o : Outside) (w : BillEnumerator) (fresh : Fresh) (run_id : Uuid) (ended : Ended)
    → stops ended ≡ true
    → (outcome : Outcome) × (close_run o w fresh run_id ended ≡ some outcome)
unfolding close_run
stops-close_run o w fresh run_id (covered p s) h = (_, refl)
stops-close_run o w fresh run_id (raised e p s) h = (_, refl)
stops-close_run o w fresh run_id exhausted h = cc

enumerate_started-ends :
    (o : Outside) (w : BillEnumerator) (fresh : Fresh) (resume : Bool) (s : Store)
    (r : Result EnumerationError (SourceRun × Store))
    → (outcome : Outcome) × (enumerate_started o w fresh resume s r ≡ some outcome)
unfolding enumerate_started enumerate_term
enumerate_started-ends o w fresh resume s (err e) = ((err e, s), refl)
enumerate_started-ends o w fresh resume s (ok started) =
    let prior = source_checkpoint s feeder_name (scope_key w.connector) in
    stops-close_run o w fresh started.0.id _ (
      stops-enumerate_begun o w fresh started.0.id started.1 (beginning o w.connector resume prior))

-- An enumeration ends, with a result or an exception, whatever the provider answers and whatever
-- the store and its checkpoint hold: `max_pages + 1` rounds of its loop are enough.
pub enumerate_ends :
    (o : Outside) (w : BillEnumerator) (fresh : Fresh) (resume : Bool) (s : Store)
    → (outcome : Outcome) × (enumerate o w fresh resume s ≡ some outcome)
unfolding enumerate
enumerate_ends o w fresh resume s =
    enumerate_started-ends o w fresh resume s (begin_run o w fresh resume s)
