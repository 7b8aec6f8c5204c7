-- ===== src/Persistence/Page.antt =====
-- packages/persistence/repository.py: commit_source_page, one page of a provider's records. A row
-- whose primary key is taken is refused by the database, as the integrity error.
pub mod Counts
pub mod Written
pub mod Again
use civic_intel.Prelude.{
  ℕ, zero, suc, ◌+◌, ◌-◌, ◌*◌, ◌/◌, ◌%◌, ◌≤◌, ◌<◌, String, ◌≡◌, refl, sym, ap, subst, ◌∙◌, ◌≢◌, ◌↔◌,
  ◌⊎◌, inl, inr, Bool, true, false, not, ◌&&◌, ◌||◌, Option, none, some, List, [], ◌∷◌, ◌++◌, map,
  arith, ltb, leb, nat_beq, if◌then◌else◌, ltb→lt, lt→ltb, leb→le, nat_beq_iff, Bool-cases,
  Option-cases, Eq, ◌==◌, ◌!=◌, string_eq, bool_beq, bool_beq_iff, bool_eq, nat_eq, coded_eq,
  ==-refl, eq_of_==, ==-comm, option_beq, option_beq_iff, option_eq, pair_beq, pair_beq_iff,
  pair_eq, list_beq, list_beq_iff, list_eq, length, is_empty, any, all, keep, find_first, or_else,
  find_last, update_where, length-append, is_empty-append, is_empty-append_split, any-append,
  length-keep-le, contains, has_duplicates, overlaps, unseen, ordered_unique, contains-append,
  Result, ◌>>=◌, ◌>>◌, raise_if, raising, succeeds, >>=-eq-ok, ok-injective, past, Every,
  Every-bind, Result-cases, All, Exists, In, all_sound, all_complete, any_sound, any_complete,
  All-In, In-of_contains, contains_of_In, not_any_sound, not_any_complete, !=_iff, not-contains_iff,
  contains-unseen, has_duplicates-unseen, contains-ordered_unique, has_duplicates-ordered_unique,
  is_empty-ordered_unique, overlaps_comm, length-le_of_subset, contains-keep, has_duplicates-keep,
  intersection, length-intersection_comm, TwoShared, TwoShared-iff, two_values_iff, ok, err,
}
use civic_intel.Domain.Enums.{SourceRunStatus, source_run_status_eq}
use civic_intel.Domain.Contracts.Base.{Uuid, Time, Metadata}
use civic_intel.Domain.Contracts.Evidence.{SourcePolicy, Source, SourceSnapshot}
use civic_intel.Domain.Contracts.Collection.{SourceRun, SourceCheckpoint, FeederObservation}
use civic_intel.Persistence.Store.{
  Store, StoreError, run_with, scope_is, find_run, source_policy_semantics_equal, policy_identity,
  snapshot_identity, observation_run, observation_snapshot, run_not_running, observation_scope,
  policy_changed, domain_bound, policy_conflict, source_bound, integrity,
}

-- The arguments of a call; the clock and the fresh identifier of a checkpoint stand beside them.
pub record Page : Type 0 where
  pub run_id : Uuid
  pub policy : SourcePolicy
  pub source : Source
  pub snapshot : SourceSnapshot
  pub observations : List FeederObservation
  pub cursor : String
  pub checkpoint_metadata : Metadata
  pub require_stored_policy_match : Bool
  pub checkpoint_id : Uuid
  pub now : Time

pub record BatchPageCommitResult : Type 0 where
  pub snapshot_id : Uuid
  pub observation_ids : List Uuid
  pub observations_created : ℕ
  pub observations_unchanged : ℕ

unfoldable pub observations_match :
    Uuid → Uuid → List FeederObservation → Result StoreError (Unit {0})
observations_match run_id snapshot_id [] = ok tt
observations_match run_id snapshot_id (o ∷ os) = do
  raise_if (o.run_id != run_id) observation_run
  raise_if (o.snapshot_id != snapshot_id) observation_snapshot
  observations_match run_id snapshot_id os

-- The row of the run, while it is running.
unfoldable pub running : Option SourceRun → Result StoreError SourceRun
running none = err run_not_running
running (some r) = if r.status != SourceRunStatus.running then err run_not_running else ok r

abbrev pub out_of_scope : SourceRun → FeederObservation → Bool
out_of_scope r o = o.feeder != r.feeder || o.scope_key != r.scope_key

abbrev pub stored_policy_differs : SourcePolicy → Option SourcePolicy → Bool
stored_policy_differs p none = true
stored_policy_differs p (some row) = not (source_policy_semantics_equal row p)

unfoldable pub settle_policy :
    SourcePolicy → Option SourcePolicy → List SourcePolicy → Result StoreError (List SourcePolicy)
settle_policy p none rows = do
  raise_if (any (λ q. q.domain == p.domain) rows) domain_bound
  ok (rows ++ p ∷ [])
settle_policy p (some row) rows = do raise_if (row.domain != p.domain) policy_conflict; ok rows

unfoldable pub store_policy :
    Bool → SourcePolicy → List SourcePolicy → Result StoreError (List SourcePolicy)
store_policy required p rows = do
  let row = find_first (λ q. q.id == p.id) rows
  raise_if (required && stored_policy_differs p row) policy_changed
  settle_policy p row rows

unfoldable pub settle_source :
    SourcePolicy → Source → Option Source → List Source → Result StoreError (Source × List Source)
settle_source p s none rows = do
  raise_if (any (λ q. q.id == s.id) rows) integrity
  ok (s, rows ++ s ∷ [])
settle_source p s (some row) rows = do raise_if (row.policy_id != p.id) source_bound; ok (row, rows)

unfoldable pub store_source :
    SourcePolicy → Source → List Source → Result StoreError (Source × List Source)
store_source p s rows = settle_source p s (find_first (λ q. q.url == s.url) rows) rows

unfoldable pub settle_snapshot :
    SourceSnapshot
    → Option SourceSnapshot
    → List SourceSnapshot
    → Result StoreError (SourceSnapshot × List SourceSnapshot)
settle_snapshot new none rows = do
  raise_if (any (λ q. q.id == new.id) rows) integrity
  ok (new, rows ++ new ∷ [])
settle_snapshot new (some row) rows = ok (row, rows)

unfoldable pub store_snapshot :
    Source
    → SourceSnapshot
    → List SourceSnapshot
    → Result StoreError (SourceSnapshot × List SourceSnapshot)
store_snapshot source_row s rows =
    settle_snapshot (record s { source_id = source_row.id })
      (find_first (λ q. q.source_id == source_row.id && q.content_hash == s.content_hash) rows) rows

-- What the loop over the observations keeps: the table, the identifiers of the page, the counts.
pub record Tally : Type 0 where
  pub rows : List FeederObservation
  pub observation_ids : List Uuid
  pub created : ℕ
  pub unchanged : ℕ

-- The rows that `existing_by_identity` holds under the key of an observation; the last one wins.
abbrev pub same_identity : SourceRun → FeederObservation → FeederObservation → Bool
same_identity r o row =
    row.feeder == r.feeder
    && (row.scope_key == r.scope_key
        && (row.provider_record_key == o.provider_record_key && row.content_hash == o.content_hash))

unfoldable pub settle_observation :
    Uuid → FeederObservation → Option FeederObservation → Tally → Result StoreError Tally
settle_observation snapshot_id o (some row) t =
    ok
      (record t { observation_ids = t.observation_ids ++ row.id ∷ []; unchanged = t.unchanged + 1 })
settle_observation snapshot_id o none t = do
  raise_if (any (λ q. q.id == o.id) t.rows) integrity
  ok (record t {
    rows = t.rows ++ record o { snapshot_id = snapshot_id } ∷ [];
    observation_ids = t.observation_ids ++ o.id ∷ [];
    created = t.created + 1;
  })

unfoldable pub store_observations :
    SourceRun → Uuid → List FeederObservation → Tally → Result StoreError Tally
store_observations r snapshot_id [] t = ok t
store_observations r snapshot_id (o ∷ os) t = do
  next ← settle_observation snapshot_id o (find_last (same_identity r o) t.rows) t
  store_observations r snapshot_id os next

abbrev pub new_checkpoint : Page → SourceRun → SourceCheckpoint
new_checkpoint page r = record {
  id = page.checkpoint_id;
  feeder = r.feeder;
  scope_key = r.scope_key;
  cursor = some page.cursor;
  metadata = page.checkpoint_metadata;
  updated_at = page.now;
  last_run_id = some page.run_id;
}

abbrev pub moved_checkpoint : Page → SourceCheckpoint → SourceCheckpoint
moved_checkpoint page c = record c {
  cursor = some page.cursor;
  metadata = page.checkpoint_metadata;
  updated_at = page.now;
  last_run_id = some page.run_id;
}

unfoldable pub store_checkpoint : Page → SourceRun → List SourceCheckpoint → List SourceCheckpoint
store_checkpoint page r rows =
    if any (scope_is r.feeder r.scope_key) rows
    then update_where (scope_is r.feeder r.scope_key) (moved_checkpoint page) rows
    else rows ++ new_checkpoint page r ∷ []

-- The primary key of a new checkpoint is taken.
abbrev pub checkpoint_refused : Page → SourceRun → List SourceCheckpoint → Bool
checkpoint_refused page r rows =
    not (any (scope_is r.feeder r.scope_key) rows)
    && any (λ (c : SourceCheckpoint). c.id == page.checkpoint_id) rows

abbrev pub counted : Page → Tally → SourceRun → SourceRun
counted page t r = record r {
  records_seen = r.records_seen + length page.observations;
  observations_created = r.observations_created + t.created;
  observations_unchanged = r.observations_unchanged + t.unchanged;
  checkpoint_after = some page.cursor;
}

abbrev pub page_result : SourceSnapshot → Tally → BatchPageCommitResult
page_result snapshot t = record {
  snapshot_id = snapshot.id;
  observation_ids = t.observation_ids;
  observations_created = t.created;
  observations_unchanged = t.unchanged;
}

abbrev pub untallied : List FeederObservation → Tally
untallied rows = record { rows = rows; observation_ids = []; created = 0; unchanged = 0 }

-- The writes of the transaction, once its run is found and the page is in the run's scope.
unfoldable pub write_page :
    Page → SourceRun → Store → Result StoreError (BatchPageCommitResult × Store)
write_page page r s = do
  policies ← store_policy page.require_stored_policy_match page.policy s.policies
  source ← store_source page.policy page.source s.sources
  snapshot ← store_snapshot source.0 page.snapshot s.snapshots
  tally ← store_observations r snapshot.0.id page.observations (untallied s.observations)
  raise_if (checkpoint_refused page r s.checkpoints) integrity
  ok (
    page_result snapshot.0 tally,
    record s {
      policies = policies;
      sources = source.1;
      snapshots = snapshot.1;
      observations = tally.rows;
      checkpoints = store_checkpoint page r s.checkpoints;
      runs = update_where (run_with page.run_id) (counted page tally) s.runs;
    },
  )

unfoldable pub commit_source_page : Page → Store → Result StoreError (BatchPageCommitResult × Store)
commit_source_page page s = do
  raise_if (page.source.policy_id != page.policy.id) policy_identity
  raise_if (page.snapshot.source_id != page.source.id) snapshot_identity
  observations_match page.run_id page.snapshot.id page.observations
  r ← running (find_run s page.run_id)
  raise_if (any (out_of_scope r) page.observations) observation_scope
  write_page page r s
