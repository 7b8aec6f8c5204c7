-- ===== src/Tests/EnumerationRuns.antt =====
-- workers/legislative_activity.py: runs of the enumeration of a term of two bills, one on each page.
use civic_intel.Prelude.{
  ◌≡◌, refl, Bool, true, false, none, some, [], ◌∷◌, if◌then◌else◌, ◌==◌, string_eq, bool_eq,
  nat_eq, option_eq, pair_eq, list_eq, ok, err,
}
use civic_intel.Prelude.Texts.{within}
use civic_intel.Prelude.Integers.{str_nat}
use civic_intel.Domain.Contracts.Base.{boolean, number, text}
use civic_intel.Persistence.Store.{
  Store, new_run, find_run, start_source_run, finish_source_run, finish_found, holds_credentials,
  source_checkpoint,
}
use civic_intel.Persistence.Page.{
  observations_match, running, settle_policy, store_policy, settle_source, store_source,
  settle_snapshot, store_snapshot, settle_observation, store_observations, store_checkpoint,
  write_page, commit_source_page, BatchPageCommitResult,
}
use civic_intel.Domain.Enums.{SourceRunStatus}
use civic_intel.Domain.Contracts.Collection.{SourceRun}
use civic_intel.Verification.Policy.{require_policy}
use civic_intel.Connectors.AssemblyBills.{request_failed}
use civic_intel.Workers.BillEnumeration.Resume.{beginning}
use civic_intel.Workers.BillEnumeration.Examine.{Examined, examine}
use civic_intel.Workers.BillEnumeration.Run.{Outcome, begin_run, enumerate, nothing_yet}
use civic_intel.Workers.BillEnumeration.Ends.{enumerate_ends}
use civic_intel.Workers.BillEnumeration.Closes.{FoldsCase, Closed, enumerate_closes}
use civic_intel.Workers.BillEnumeration.Covers.{CoversTerm, enumerate_covers}
use civic_intel.Workers.BillEnumeration.ReadsBack.{beginning_at, resume-commit}
use civic_intel.Workers.BillEnumeration.{
  connector, invalid_url, already_covered, AssemblyBillEnumerationResult,
}
use civic_intel.Tests.StoreRuns.{empty_store}
use civic_intel.Tests.BillSamples.{folding, provider, desk, made, value_of, held}

-- The store that an enumeration leaves.
unfoldable store_after : Bool → Store
unfolding enumerate begin_run start_source_run source_checkpoint require_policy commit_source_page
    observations_match running find_run write_page store_policy settle_policy store_source
    settle_source store_snapshot settle_snapshot store_observations settle_observation
    store_checkpoint finish_source_run finish_found holds_credentials
store_after second =
    (held (err invalid_url, empty_store)
      (enumerate (provider second) desk made false empty_store)).1

abbrev begun : SourceRun
begun =
    new_run 500 5
      (("source_contract", text "assembly_term_bill_participation")
        ∷ ("assembly_age", number 22)
        ∷ ("resume", boolean false)
        ∷ [])
      "national_assembly_bill_participation" "assembly_age:22" none

abbrev whole_result : AssemblyBillEnumerationResult
whole_result = record {
  run = record begun {
    status = SourceRunStatus.success;
    finished_at = some 9;
    checkpoint_after = some "2";
    records_seen = 2;
    observations_created = 2;
  };
  pages_committed = 2;
  unique_records = 2;
}

-- Two pages are read, and the term is covered.
covers :
    enumerate (provider true) desk made false empty_store ≡ some (ok whole_result, store_after true)
unfolding store_after
covers = refl

-- The second page is not there.
stops :
    enumerate (provider false) desk made false empty_store
    ≡ some (err (connector request_failed), store_after false)
unfolding store_after
stops = refl

begins :
    begin_run (provider false) desk made false empty_store
    ≡ ok (begun, record empty_store { runs = begun ∷ [] })
unfolding begin_run start_source_run source_checkpoint str_nat
begins = refl

enumerate_ends_example :
    (outcome : Outcome) × (enumerate (provider false) desk made true empty_store ≡ some outcome)
enumerate_ends_example = enumerate_ends (provider false) desk made true empty_store

enumerate_covers_example : CoversTerm (provider true) desk whole_result (store_after true)
enumerate_covers_example =
    enumerate_covers (provider true) desk made empty_store whole_result (store_after true) covers

folds : FoldsCase folding
folds = record { empty_text = refl; summary = refl }

enumerate_closes_example : Closed 500 9 (err (connector request_failed), store_after false)
enumerate_closes_example =
    enumerate_closes (provider false) desk made folds false empty_store begun
      (record empty_store { runs = begun ∷ [] }) (err (connector request_failed), store_after false)
      begins stops

-- The first page, and its commit.
abbrev started_store : Store
started_store = record empty_store { runs = begun ∷ [] }

unfoldable first_page : Examined
unfolding examine require_policy within
first_page = value_of (examine (provider true) desk made 500 1 nothing_yet) refl

unfoldable first_commit : BatchPageCommitResult × Store
unfolding first_page examine within commit_source_page observations_match running find_run
    write_page store_policy settle_policy store_source settle_source store_snapshot settle_snapshot
    store_observations settle_observation store_checkpoint
first_commit = value_of (commit_source_page first_page.page started_store) refl

examines : examine (provider true) desk made 500 1 nothing_yet ≡ ok first_page
unfolding first_page examine within
examines = refl

commits_first :
    commit_source_page first_page.page started_store ≡ ok (first_commit.0, first_commit.1)
unfolding first_commit first_page commit_source_page
commits_first = refl

finds_begun : find_run started_store 500 ≡ some begun
unfolding find_run
finds_begun = refl

resume-commit_example :
    beginning
      (provider true)
      desk.connector
      true
      (source_checkpoint first_commit.1 begun.feeder begun.scope_key)
    ≡ (if 1 == first_page.pages then err already_covered else ok (beginning_at 1 first_page.next))
resume-commit_example =
    resume-commit (provider true) desk made 1 nothing_yet first_page started_store first_commit.1
      first_commit.0 begun examines finds_begun commits_first
