-- ===== src/Domain/Contracts/Profile.antt =====
-- packages/domain/contracts.py: committee membership, role fit, the talent pool, decision
-- episodes, relationships and hypotheses, with the validators of each.
use civic_intel.Prelude.{
  String, Bool, not, ◌&&◌, ◌||◌, Option, List, [], ◌∷◌, map, if◌then◌else◌, ◌==◌, ◌!=◌, nat_eq,
  string_eq, option_eq, pair_eq, length, is_empty, any, all, contains, has_duplicates, ◌>>◌,
  raise_if, ok,
}
use civic_intel.Prelude.Texts.{truthy}
use civic_intel.Domain.Enums.{
  RoleFitStatus, TalentPoolBucket, RelationshipStrength, RelationshipEvidenceType,
  PublicationStatus, role_fit_status_eq,
}
use civic_intel.Domain.Contracts.Base.{
  Uuid, Temporal, Checked, rule_error, field_error, require_text, require_items, ordered_intervals,
}
use civic_intel.Domain.Contracts.Evidence.{is_none}

pub record CommitteeMembershipEpisode : Type 0 where
  pub id : Uuid
  pub person_id : Uuid
  pub institutional_body_id : Uuid
  pub role : String
  pub standing_member : Option Bool
  pub compensation_text : Option String
  pub claim_ids : List Uuid
  pub source_ids : List Uuid
  pub temporal : Temporal

unfoldable pub validate_membership : CommitteeMembershipEpisode → Checked
unfolding ordered_intervals
validate_membership m = do
  require_text "role" m.role
  ordered_intervals m.temporal
  raise_if (is_empty m.claim_ids && is_empty m.source_ids)
      (rule_error "committee membership requires claim_ids or source_ids")

pub record RoleFitEvidence : Type 0 where
  pub dimension : String
  pub status : RoleFitStatus
  pub claim_ids : List Uuid
  pub source_ids : List Uuid
  pub note : Option String

-- `item.status in {EVIDENCED, PARTIAL}`
abbrev pub is_evidenced : RoleFitStatus → Bool
is_evidenced s = s == RoleFitStatus.evidenced || s == RoleFitStatus.partial

unfoldable pub validate_role_fit : RoleFitEvidence → Checked
validate_role_fit r = do
  require_text "dimension" r.dimension
  raise_if (is_evidenced r.status && is_empty r.claim_ids && is_empty r.source_ids)
      (rule_error "evidenced role fit requires claim_ids or source_ids")
  raise_if
      ((r.status == RoleFitStatus.unknown || r.status == RoleFitStatus.gap) && not (truthy r.note))
      (rule_error "UNKNOWN/GAP role fit requires a note")

pub record TalentPoolEntry : Type 0 where
  pub id : Uuid
  pub person_id : Uuid
  pub appointment_target_id : Uuid
  pub bucket : TalentPoolBucket
  pub inclusion_reason : String
  pub role_fit : List RoleFitEvidence
  pub actual_consideration_claim_id : Option Uuid
  pub temporal : Temporal

-- The items of `role_fit` are themselves constructed, and so checked, first.
validate_items : List RoleFitEvidence → Checked
unfolding validate_role_fit
validate_items [] = ok tt
validate_items (r ∷ rs) = do validate_role_fit r; validate_items rs

unfoldable pub validate_talent_pool_entry : TalentPoolEntry → Checked
unfolding ordered_intervals validate_items
validate_talent_pool_entry t = do
  require_text "inclusion_reason" t.inclusion_reason
  validate_items t.role_fit
  require_items "role_fit" t.role_fit
  ordered_intervals t.temporal
  raise_if (has_duplicates (map (λ (r : RoleFitEvidence). r.dimension) t.role_fit))
      (rule_error "role_fit dimensions must be unique within a talent-pool entry")
  raise_if (not (any (λ (r : RoleFitEvidence). is_evidenced r.status) t.role_fit))
      (rule_error "talent-pool inclusion requires at least one evidenced dimension")

pub record DecisionEpisode : Type 0 where
  pub id : Uuid
  pub person_id : Uuid
  pub description : String
  pub action : String
  pub target : String
  pub outcome : String
  pub source_ids : List Uuid
  pub independent_origin_ids : List Uuid
  pub claim_id : Option Uuid
  pub evidence_ids : List Uuid
  pub temporal : Temporal

unfoldable pub validate_decision_episode : DecisionEpisode → Checked
unfolding ordered_intervals
validate_decision_episode d = do
  require_text "action" d.action
  require_text "target" d.target
  require_text "outcome" d.outcome
  require_items "source_ids" d.source_ids
  require_items "independent_origin_ids" d.independent_origin_ids
  ordered_intervals d.temporal
  raise_if (if is_none d.claim_id then not (is_empty d.evidence_ids) else is_empty d.evidence_ids)
      (rule_error "decision episode claim and evidence links must be complete")

pub record RelationshipEvidenceRef : Type 0 where
  pub claim_evidence_id : Uuid
  pub evidence_type : RelationshipEvidenceType

pub record Relationship : Type 0 where
  pub id : Uuid
  pub person_id : Uuid
  pub related_person_id : Option Uuid
  pub related_organization_id : Option Uuid
  pub relationship_type : String
  pub strength : RelationshipStrength
  pub evidence : List RelationshipEvidenceRef
  pub temporal : Temporal

pub record HypothesisAlternative : Type 0 where
  pub label : String
  pub statement : String
  pub evidence_ids : List Uuid

pub record Hypothesis : Type 0 where
  pub id : Uuid
  pub person_id : Uuid
  pub statement : String
  pub ordinary_explanation : String
  pub falsifier : String
  pub alternatives : List HypothesisAlternative
  pub publication_status : PublicationStatus
  pub temporal : Temporal

-- `Field(pattern=r"^H[012]$")`
abbrev pub matrix_labels : List String
matrix_labels = "H0" ∷ "H1" ∷ "H2" ∷ []

validate_alternatives : List HypothesisAlternative → Checked
validate_alternatives [] = ok tt
validate_alternatives (a ∷ rest) = do
  raise_if (not (contains matrix_labels a.label)) (field_error "label")
  require_text "statement" a.statement
  validate_alternatives rest

-- The labels are three of `H0`, `H1`, `H2`, so the set of them is complete exactly when it has
-- each of the three.
unfoldable pub validate_hypothesis_contract : Hypothesis → Checked
unfolding ordered_intervals validate_alternatives
validate_hypothesis_contract h = do
  require_text "ordinary_explanation" h.ordinary_explanation
  require_text "falsifier" h.falsifier
  validate_alternatives h.alternatives
  raise_if (length h.alternatives != 3) (field_error "alternatives")
  ordered_intervals h.temporal
  let labels = map (λ (a : HypothesisAlternative). a.label) h.alternatives
  raise_if (not (all (contains labels) matrix_labels && all (contains matrix_labels) labels))
      (rule_error "hypothesis matrix must contain H0, H1, and H2")
