-- ===== src/Tests/MaterializeRuns.antt =====
-- packages/persistence/repository.py: a run of materialize_feeder_observation.
use civic_intel.Prelude.{
  ◌≡◌, refl, ◌⊎◌, true, none, some, [], ◌∷◌, string_eq, bool_eq, nat_eq, option_eq, pair_eq, ok,
}
use civic_intel.Domain.Contracts.Base.{text}
use civic_intel.Domain.Contracts.Collection.{FeederObservation, MaterializationDecision}
use civic_intel.Domain.Enums.{MaterializationAction, MaterializationDecisionClass}
use civic_intel.Verification.Policy.{require_policy}
use civic_intel.Verification.Materialization.{
  decide_materialization, decide_unlinked, by_id, observation_birth_date,
}
use civic_intel.Verification.Claims.Atomic.{is_atomic}
use civic_intel.Verification.Claims.Gate.{
  subject_failures, unknown_failures, fact_failures, evidence_of, evidence_failures,
  validate_claim_publication,
}
use civic_intel.Persistence.Store.{Store}
use civic_intel.Persistence.Materialize.{
  Fresh, MaterializationResult, required, name_of, linked_people, same_name_people,
}
use civic_intel.Persistence.Materialize.Create.{
  new_claim, with_person, create_person, act_on, keys_taken, materialize_feeder_observation,
}
use civic_intel.Persistence.Materialize.Laws.{
  Untouched, NewPerson, materialize_feeder_observation_lem,
}
use civic_intel.Tests.Samples.{plain, open_policy, roster_source, roster_snapshot, roster_record}

abbrev named_record : FeederObservation
named_record = record roster_record { normalized = ("canonical_name", text "lee") ∷ [] }

abbrev observed_store : Store
observed_store = record {
  schema_ready = true;
  policies = open_policy ∷ [];
  sources = roster_source ∷ [];
  snapshots = roster_snapshot ∷ [];
  runs = [];
  checkpoints = [];
  observations = named_record ∷ [];
  people = [];
  claims = [];
  evidence = [];
  links = [];
  reviews = [];
}

abbrev fresh : Fresh
fresh = record {
  person_id = 100;
  claim_id = 101;
  evidence_id = 102;
  link_id = 103;
  review_id = 104;
  person_times = (8, 8);
  claim_times = (8, 8);
  linked_at = 8;
  created_at = 8;
}

abbrev decided : MaterializationDecision
decided = record {
  action = MaterializationAction.auto_create;
  decision_class = MaterializationDecisionClass.authoritative_new_identity;
  candidate_person_id = none;
  reasons = "authoritative_roster_unique_provider_identity_and_name" ∷ [];
}

abbrev made : MaterializationResult
made = record {
  decision = decided;
  person_id = some 100;
  claim_id = some 101;
  review_item_id = none;
  created = true;
}

abbrev peopled_store : Store
peopled_store = with_person plain fresh named_record "lee" decided none roster_source observed_store

materializes :
    materialize_feeder_observation plain fresh 70 observed_store ≡ ok (made, peopled_store)
unfolding materialize_feeder_observation required name_of linked_people same_name_people
    decide_materialization by_id observation_birth_date decide_unlinked act_on create_person
    keys_taken validate_claim_publication subject_failures unknown_failures fact_failures
    evidence_of evidence_failures is_atomic require_policy new_claim
materializes = refl

materialize_feeder_observation_lem_example :
    Untouched observed_store peopled_store ⊎ NewPerson plain fresh 70 observed_store peopled_store
materialize_feeder_observation_lem_example =
    materialize_feeder_observation_lem plain fresh 70 observed_store made peopled_store materializes
