-- ===== src/Tests/StoreRuns.antt =====
-- packages/persistence/repository.py: runs of the operations on collection runs.
use civic_intel.Prelude.{
  ◌+◌, ◌≡◌, refl, true, false, none, some, [], ◌∷◌, arith, string_eq, bool_eq, nat_eq, option_eq,
  pair_eq, length, ok,
}
use civic_intel.Domain.Enums.{SourceRunStatus, source_run_status_eq}
use civic_intel.Domain.Contracts.Collection.{SourceRun}
use civic_intel.Persistence.Store.{
  Store, new_run, finished, find_run, start_source_run, finish_source_run, finish_found,
  holds_credentials, source_checkpoint,
}
use civic_intel.Persistence.Page.{
  Page, BatchPageCommitResult, observations_match, running, settle_policy, store_policy,
  settle_source, store_source, settle_snapshot, store_snapshot, settle_observation,
  store_observations, store_checkpoint, write_page, commit_source_page,
}
use civic_intel.Persistence.Page.Counts.{commit_counts}
use civic_intel.Persistence.History.{Reach, starts, finishes, commits, here, then_step}
use civic_intel.Persistence.History.Accounts.{Accounted, Reach-Accounted}
use civic_intel.Persistence.History.Resume.{start_source_run-commit_source_page}
use civic_intel.Persistence.Page.Again.{commit_again}
use civic_intel.Persistence.History.Frozen.{Reach-frozen}
use civic_intel.Tests.Samples.{plain, open_policy, roster_source, roster_snapshot, roster_record}

abbrev pub empty_store : Store
empty_store = record {
  schema_ready = true;
  policies = [];
  sources = [];
  snapshots = [];
  runs = [];
  checkpoints = [];
  observations = [];
  people = [];
  claims = [];
  evidence = [];
  links = [];
  reviews = [];
}

abbrev first_run : SourceRun
first_run = new_run 80 5 [] "national_assembly_members" "22" none

abbrev started_store : Store
started_store = record empty_store { runs = first_run ∷ [] }

starts_first :
    start_source_run 80 5 [] "national_assembly_members" "22" empty_store
    ≡ ok (first_run, started_store)
unfolding start_source_run source_checkpoint
starts_first = refl

-- A page with the same record twice.
abbrev page : Page
page = record {
  run_id = 80;
  policy = open_policy;
  source = roster_source;
  snapshot = roster_snapshot;
  observations = roster_record ∷ record roster_record { id = 71 } ∷ [];
  cursor = "p2";
  checkpoint_metadata = [];
  require_stored_policy_match = false;
  checkpoint_id = 90;
  now = 7;
}

abbrev page_result : BatchPageCommitResult
page_result = record {
  snapshot_id = 30;
  observation_ids = 70 ∷ 70 ∷ [];
  observations_created = 1;
  observations_unchanged = 1;
}

abbrev counted_run : SourceRun
counted_run = record first_run {
  records_seen = 2;
  observations_created = 1;
  observations_unchanged = 1;
  checkpoint_after = some "p2";
}

abbrev committed_store : Store
committed_store = record started_store {
  policies = open_policy ∷ [];
  sources = roster_source ∷ [];
  snapshots = roster_snapshot ∷ [];
  observations = roster_record ∷ [];
  checkpoints =
      record {
        id = 90;
        feeder = "national_assembly_members";
        scope_key = "22";
        cursor = some "p2";
        metadata = [];
        updated_at = 7;
        last_run_id = some 80;
      }
      ∷ [];
  runs = counted_run ∷ [];
}

commits_page : commit_source_page page started_store ≡ ok (page_result, committed_store)
unfolding commit_source_page observations_match running find_run write_page store_policy
    settle_policy store_source settle_source store_snapshot settle_snapshot store_observations
    settle_observation store_checkpoint
commits_page = refl

commit_counts_example :
    ((page_result.observations_created + page_result.observations_unchanged)
      ≡ length page.observations)
    × (length page_result.observation_ids ≡ length page.observations)
    × (length committed_store.observations
        ≡ length started_store.observations + page_result.observations_created)
commit_counts_example = commit_counts page started_store page_result committed_store commits_page

abbrev closed_run : SourceRun
closed_run = finished SourceRunStatus.success 9 none none counted_run

abbrev closed_store : Store
closed_store = record committed_store { runs = closed_run ∷ [] }

closes :
    finish_source_run plain 9 80 SourceRunStatus.success none none committed_store
    ≡ ok (closed_run, closed_store)
unfolding finish_source_run finish_found find_run holds_credentials
closes = refl

history : Reach plain empty_store closed_store
history =
    then_step committed_store closed_store
      (then_step started_store committed_store
        (then_step empty_store started_store here (starts 80 5 [] _ _ first_run _ _ starts_first))
        (commits page page_result _ _ commits_page))
      (finishes 9 80 SourceRunStatus.success none none closed_run _ _ closes)

Reach-Accounted_example : Accounted closed_store
Reach-Accounted_example =
    Reach-Accounted plain history (record { balances = tt; distinct = tt; total = refl })

abbrev second_run : SourceRun
second_run = new_run 81 10 [] "national_assembly_members" "22" (some "p2")

abbrev second_store : Store
second_store = record closed_store { runs = closed_run ∷ second_run ∷ [] }

starts_second :
    start_source_run 81 10 [] "national_assembly_members" "22" closed_store
    ≡ ok (second_run, second_store)
unfolding start_source_run source_checkpoint
starts_second = refl

found_closed : find_run closed_store 80 ≡ some closed_run
unfolding find_run
found_closed = refl

Reach-frozen_example : find_run second_store 80 ≡ some closed_run
Reach-frozen_example =
    Reach-frozen plain 80 closed_run
      (then_step closed_store second_store here (starts 81 10 [] _ _ second_run _ _ starts_second))
      found_closed (λ e. ground (arith, e))

abbrev resumed_store : Store
resumed_store = record committed_store { runs = counted_run ∷ second_run ∷ [] }

resumes :
    start_source_run 81 10 [] "national_assembly_members" "22" committed_store
    ≡ ok (second_run, resumed_store)
unfolding start_source_run source_checkpoint
resumes = refl

found_first : find_run started_store 80 ≡ some first_run
unfolding find_run
found_first = refl

start_source_run-commit_source_page_example : second_run.checkpoint_before ≡ some "p2"
start_source_run-commit_source_page_example =
    start_source_run-commit_source_page page started_store committed_store resumed_store page_result
      first_run second_run 81 10 [] found_first commits_page resumes

abbrev again_result : BatchPageCommitResult
again_result = record page_result { observations_created = 0; observations_unchanged = 2 }

abbrev again_run : SourceRun
again_run = record counted_run { records_seen = 4; observations_unchanged = 3 }

abbrev again_store : Store
again_store = record committed_store { runs = again_run ∷ [] }

commits_again : commit_source_page page committed_store ≡ ok (again_result, again_store)
unfolding commit_source_page observations_match running find_run write_page store_policy
    settle_policy store_source settle_source store_snapshot settle_snapshot store_observations
    settle_observation store_checkpoint
commits_again = refl

commit_again_example :
    (again_result.observations_created ≡ 0)
    × (again_store.observations ≡ committed_store.observations)
commit_again_example =
    commit_again page started_store committed_store again_store page_result again_result
      commits_page commits_again
