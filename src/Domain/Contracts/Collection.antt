-- ===== src/Domain/Contracts/Collection.antt =====
-- packages/domain/contracts.py: collection runs, checkpoints, observations and their review.
use Prim.Native.Char.{code}
use civic_intel.Prelude.{
  ℕ, String, Bool, true, not, ◌&&◌, ◌||◌, Option, List, leb, nat_beq, string_eq, bool_eq, nat_eq,
  option_eq, pair_eq, ◌>>◌, raise_if,
}
use civic_intel.Domain.Enums.{
  SourceRunStatus, MaterializationAction, MaterializationDecisionClass, IdentityReviewStatus,
}
use civic_intel.Prelude.Texts.{fits, char_count}
use civic_intel.Domain.Contracts.Base.{Uuid, Time, Metadata, Checked, field_error}

pub record SourceRun : Type 0 where
  pub id : Uuid
  pub feeder : String
  pub scope_key : String
  pub started_at : Time
  pub finished_at : Option Time
  pub status : SourceRunStatus
  pub checkpoint_before : Option String
  pub checkpoint_after : Option String
  pub records_seen : ℕ
  pub observations_created : ℕ
  pub observations_unchanged : ℕ
  pub error_code : Option String
  pub error_summary : Option String
  pub metadata : Metadata

pub record SourceCheckpoint : Type 0 where
  pub id : Uuid
  pub feeder : String
  pub scope_key : String
  pub cursor : Option String
  pub metadata : Metadata
  pub updated_at : Time
  pub last_run_id : Option Uuid

pub record FeederObservation : Type 0 where
  pub id : Uuid
  pub feeder : String
  pub scope_key : String
  pub provider_record_key : String
  pub snapshot_id : Uuid
  pub run_id : Uuid
  pub recorded_at : Time
  pub provider_observed_at : Option Time
  pub semantic_scope : String
  pub identity_hints : Metadata
  pub normalized : Metadata
  pub content_hash : String

-- `Field(pattern=r"^[0-9a-f]{64}$")`
unfoldable pub is_hex : String → Bool
is_hex String.[] = true
is_hex (String.◌∷◌ c s) =
    (leb b'0' (code c) && leb (code c) b'9' || leb b'a' (code c) && leb (code c) b'f') && is_hex s

-- Construction of a `FeederObservation`.
unfoldable pub validate_feeder_observation : FeederObservation → Checked
unfolding is_hex fits char_count
validate_feeder_observation o = do
  raise_if (not (fits 100 o.feeder)) (field_error "feeder")
  raise_if (not (fits 300 o.scope_key)) (field_error "scope_key")
  raise_if (not (fits 500 o.provider_record_key)) (field_error "provider_record_key")
  raise_if (not (fits 120 o.semantic_scope)) (field_error "semantic_scope")
  raise_if (not (nat_beq (char_count o.content_hash) 64 && is_hex o.content_hash))
      (field_error "content_hash")

-- What the construction of a `SourceRun` checks of its feeder and its scope.
unfoldable pub validate_source_run : String → String → Checked
unfolding fits char_count
validate_source_run feeder scope = do
  raise_if (not (fits 100 feeder)) (field_error "feeder")
  raise_if (not (fits 300 scope)) (field_error "scope_key")

pub record PersonObservationLink : Type 0 where
  pub id : Uuid
  pub person_id : Uuid
  pub observation_id : Uuid
  pub action : MaterializationAction
  pub decision_class : MaterializationDecisionClass
  pub linked_at : Time
  pub superseded_at : Option Time
  pub review_item_id : Option Uuid

pub record IdentityReviewItem : Type 0 where
  pub id : Uuid
  pub observation_id : Uuid
  pub candidate_person_id : Option Uuid
  pub reason_code : String
  pub details : Metadata
  pub status : IdentityReviewStatus
  pub created_at : Time
  pub resolved_at : Option Time
  pub resolution_note : Option String

pub record MaterializationDecision : Type 0 where
  pub action : MaterializationAction
  pub decision_class : MaterializationDecisionClass
  pub candidate_person_id : Option Uuid
  pub reasons : List String
