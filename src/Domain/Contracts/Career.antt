-- ===== src/Domain/Contracts/Career.antt =====
-- packages/domain/contracts.py: career episodes, employment reviews, origins, events and snapshots.
use civic_intel.Prelude.{String, Option, List, string_eq, bool_eq, nat_eq, option_eq, pair_eq, ◌>>◌}
use civic_intel.Domain.Enums.{
  CivilServiceCategory, CivilServiceEventType, CivilServiceAppointmentRoute,
  EmploymentReviewDecision, LegalCareerType, LegalCareerEventType, EvidenceStance,
}
use civic_intel.Domain.Contracts.Base.{
  Uuid, Date, Temporal, Checked, require_text, require_items, ordered_intervals,
}

pub record CivilServiceCareerEpisode : Type 0 where
  pub id : Uuid
  pub person_id : Uuid
  pub organization_id : Uuid
  pub office_id : Option Uuid
  pub category : CivilServiceCategory
  pub event_type : CivilServiceEventType
  pub appointment_route : CivilServiceAppointmentRoute
  pub title : String
  pub grade : Option String
  pub event_date : Date
  pub previous_organization_id : Option Uuid
  pub previous_office_id : Option Uuid
  pub source_ids : List Uuid
  pub claim_ids : List Uuid
  pub temporal : Temporal

unfoldable pub validate_civil_service_career_episode : CivilServiceCareerEpisode → Checked
unfolding ordered_intervals
validate_civil_service_career_episode x = do
  require_text "title" x.title
  require_items "source_ids" x.source_ids
  ordered_intervals x.temporal

pub record LegalCareerEpisode : Type 0 where
  pub id : Uuid
  pub person_id : Uuid
  pub organization_id : Uuid
  pub office_id : Option Uuid
  pub career_type : LegalCareerType
  pub event_type : LegalCareerEventType
  pub title : String
  pub event_date : Date
  pub previous_organization_id : Option Uuid
  pub previous_office_id : Option Uuid
  pub public_assignment_domain : Option String
  pub source_ids : List Uuid
  pub claim_ids : List Uuid
  pub temporal : Temporal

unfoldable pub validate_legal_career_episode : LegalCareerEpisode → Checked
unfolding ordered_intervals
validate_legal_career_episode x = do
  require_text "title" x.title
  require_items "source_ids" x.source_ids
  ordered_intervals x.temporal

pub record EmploymentReviewEvent : Type 0 where
  pub id : Uuid
  pub person_id : Uuid
  pub former_organization_id : Uuid
  pub destination_organization_id : Uuid
  pub review_date : Date
  pub decision : EmploymentReviewDecision
  pub decision_text : String
  pub former_title : Option String
  pub destination_title : Option String
  pub employment_start_date : Option Date
  pub source_ids : List Uuid

unfoldable pub validate_employment_review_event : EmploymentReviewEvent → Checked
validate_employment_review_event x = do
  require_text "decision_text" x.decision_text
  require_items "source_ids" x.source_ids

pub record SourceOriginCluster : Type 0 where
  pub id : Uuid
  pub canonical_source_id : Uuid
  pub member_source_ids : List Uuid
  pub reason : String

unfoldable pub validate_source_origin_cluster : SourceOriginCluster → Checked
validate_source_origin_cluster x = require_items "member_source_ids" x.member_source_ids

pub record Event : Type 0 where
  pub id : Uuid
  pub person_id : Uuid
  pub name : String
  pub temporal : Temporal

unfoldable pub validate_event : Event → Checked
unfolding ordered_intervals
validate_event x = ordered_intervals x.temporal

pub record EventDocument : Type 0 where
  pub id : Uuid
  pub event_id : Uuid
  pub source_id : Uuid

pub record HypothesisEvidence : Type 0 where
  pub id : Uuid
  pub hypothesis_id : Uuid
  pub claim_evidence_id : Uuid
  pub stance : EvidenceStance

pub record ProfileSnapshot : Type 0 where
  pub id : Uuid
  pub person_id : Uuid
  pub claim_ids : List Uuid
  pub relationship_ids : List Uuid
  pub asset_disclosure_ids : List Uuid
  pub temporal : Temporal

unfoldable pub validate_profile_snapshot : ProfileSnapshot → Checked
unfolding ordered_intervals
validate_profile_snapshot x = ordered_intervals x.temporal
