-- ===== src/Persistence/Store.antt =====
-- packages/persistence/repository.py: the tables, and the operations on collection runs. A write
-- that raises is rolled back, so an operation returns the exception alone, or its result with the
-- new store. Fresh identifiers and the clock are arguments.
use civic_intel.Prelude.{
  String, Bool, true, false, not, ◌&&◌, ◌||◌, Option, none, some, List, [], ◌∷◌, ◌++◌, ◌==◌, ◌!=◌,
  string_eq, bool_eq, nat_eq, option_eq, pair_eq, list_eq, any, find_first, update_where, Result,
  ◌>>◌, raise_if, raising, ok, err,
}
use civic_intel.Prelude.Texts.{Unicode, within}
use civic_intel.Domain.Enums.{SourceRunStatus, source_run_status_eq, source_collection_mode_eq}
use civic_intel.Domain.Contracts.Base.{Uuid, Time, Stamp, aware, naive, Metadata, ContractError}
use civic_intel.Domain.Contracts.Evidence.{
  Person, SourcePolicy, Source, SourceSnapshot, Claim, ClaimEvidence,
}
use civic_intel.Domain.Contracts.Collection.{
  SourceRun, SourceCheckpoint, FeederObservation, PersonObservationLink, IdentityReviewItem,
  validate_source_run,
}

pub record Store : Type 0 where
  pub schema_ready : Bool
  pub policies : List SourcePolicy
  pub sources : List Source
  pub snapshots : List SourceSnapshot
  pub runs : List SourceRun
  pub checkpoints : List SourceCheckpoint
  pub observations : List FeederObservation
  pub people : List Person
  pub claims : List Claim
  pub evidence : List ClaimEvidence
  pub links : List PersonObservationLink
  pub reviews : List IdentityReviewItem

-- What the operations raise.
pub data StoreError : Type 0 where
  database_not_ready : StoreError
  not_terminal credentials_in_summary run_missing run_already_finished : StoreError
  policy_identity snapshot_identity observation_run observation_snapshot : StoreError
  run_not_running observation_scope policy_changed domain_bound policy_conflict : StoreError
  source_bound integrity : StoreError
  run_contract : ContractError → StoreError

abbrev pub run_with : Uuid → SourceRun → Bool
run_with id r = r.id == id

abbrev pub scope_is : String → String → SourceCheckpoint → Bool
scope_is feeder scope c = c.feeder == feeder && c.scope_key == scope

unfoldable pub find_run : Store → Uuid → Option SourceRun
find_run s id = find_first (run_with id) s.runs

unfoldable pub source_checkpoint : Store → String → String → Option SourceCheckpoint
source_checkpoint s feeder scope = find_first (scope_is feeder scope) s.checkpoints

abbrev pub cursor_of : Option SourceCheckpoint → Option String
cursor_of none = none
cursor_of (some c) = c.cursor

abbrev pub new_run : Uuid → Time → Metadata → String → String → Option String → SourceRun
new_run id now metadata feeder scope cursor = record {
  id = id;
  feeder = feeder;
  scope_key = scope;
  started_at = now;
  finished_at = none;
  status = SourceRunStatus.running;
  checkpoint_before = cursor;
  checkpoint_after = none;
  records_seen = 0;
  observations_created = 0;
  observations_unchanged = 0;
  error_code = none;
  error_summary = none;
  metadata = metadata;
}

unfoldable pub start_source_run :
    Uuid → Time → Metadata → String → String → Store → Result StoreError (SourceRun × Store)
unfolding validate_source_run
start_source_run id now metadata feeder scope s = do
  raise_if (not s.schema_ready) database_not_ready
  raising run_contract (validate_source_run feeder scope)
  raise_if (any (run_with id) s.runs) integrity
  let run = new_run id now metadata feeder scope (cursor_of (source_checkpoint s feeder scope))
  ok (run, record s { runs = s.runs ++ run ∷ [] })

abbrev pub is_terminal : SourceRunStatus → Bool
is_terminal status =
    status == SourceRunStatus.success
    || status == SourceRunStatus.partial
    || status == SourceRunStatus.failed

-- The tokens that an error summary may not hold.
credential_tokens : List String
credential_tokens = "key=" ∷ "authkey=" ∷ "api_key" ∷ "token=" ∷ []

text_of : Option String → String
text_of none = ""
text_of (some s) = s

unfoldable pub holds_credentials : Unicode → Option String → Bool
unfolding credential_tokens text_of within
holds_credentials u summary =
    let lowered = u.casefold (text_of summary) in
    any (λ token. within token lowered) credential_tokens

abbrev pub finished : SourceRunStatus → Time → Option String → Option String → SourceRun → SourceRun
finished status now code summary r = record r {
  status = status;
  finished_at = some now;
  error_code = code;
  error_summary = summary;
}

unfoldable pub finish_found :
    (SourceRun → SourceRun)
    → Uuid
    → Option SourceRun
    → Store
    → Result StoreError (SourceRun × Store)
finish_found close id none s = err run_missing
finish_found close id (some r) s = do
  raise_if (r.status != SourceRunStatus.running) run_already_finished
  ok (close r, record s { runs = update_where (run_with id) close s.runs })

module _ (u : Unicode) where
  unfoldable pub finish_source_run :
      Time
      → Uuid
      → SourceRunStatus
      → Option String
      → Option String
      → Store
      → Result StoreError (SourceRun × Store)
  finish_source_run now id status code summary s = do
    raise_if (not (is_terminal status)) not_terminal
    raise_if (holds_credentials u summary) credentials_in_summary
    finish_found (finished status now code summary) id (find_run s id) s

-- `source_policy_semantics_equal`: the review times, then every other field.
same_review_time : Option Stamp → Option Stamp → Bool
same_review_time none none = true
same_review_time none (some b) = false
same_review_time (some a) none = false
same_review_time (some (aware a _)) (some (aware b _)) = a == b
same_review_time (some (aware _ a)) (some (naive b)) = a == b
same_review_time (some (naive a)) (some (aware _ b)) = a == b
same_review_time (some (naive a)) (some (naive b)) = a == b

unfoldable pub source_policy_semantics_equal : SourcePolicy → SourcePolicy → Bool
unfolding same_review_time
source_policy_semantics_equal a b =
    same_review_time a.robots_checked_at b.robots_checked_at
    && (same_review_time a.terms_checked_at b.terms_checked_at
        && (a.id == b.id
            && (a.domain == b.domain
                && (a.source_class == b.source_class
                    && (a.collection_mode == b.collection_mode
                        && (a.can_fetch == b.can_fetch
                            && (a.can_store_metadata == b.can_store_metadata
                                && (a.can_store_fulltext == b.can_store_fulltext
                                    && (a.can_send_to_ai == b.can_send_to_ai
                                        && (a.can_show_excerpt == b.can_show_excerpt
                                            && (a.can_commercialize == b.can_commercialize
                                                && (a.license == b.license
                                                    && (a.rate_limit == b.rate_limit
                                                        && a.policy_note
                                                          == b.policy_note)))))))))))))
