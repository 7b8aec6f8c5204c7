-- ===== src/Domain/Enums/Identity.antt =====
-- packages/domain/enums.py: the classes of identity decisions and of their evidence.
-- Each `StrEnum` is a data type with a code into the
-- numbers by which `==` tells its members apart.
use civic_intel.Prelude.{ℕ, String, ◌≡◌, arith, Eq, nat_eq, string_eq, coded_eq}

pub data IdentityStatus : Type 0 where
  resolved review unresolved : IdentityStatus

abbrev pub identity_status_code : IdentityStatus → ℕ
identity_status_code IdentityStatus.resolved = 0
identity_status_code IdentityStatus.review = 1
identity_status_code IdentityStatus.unresolved = 2

pub identity_status_code-injective :
    (a b : IdentityStatus) → identity_status_code a ≡ identity_status_code b → a ≡ b
identity_status_code-injective a b h = ground arith

instance abbrev pub identity_status_eq : Eq IdentityStatus
identity_status_eq = coded_eq identity_status_code identity_status_code-injective

pub data IdentityDecisionClass : Type 0 where
  name_conflict birth_date_conflict context_review exact_birth_date same_state_context
        shared_career_anchors external_id official_career_continuity official_biography_continuity :
      IdentityDecisionClass

abbrev pub identity_decision_class_code : IdentityDecisionClass → ℕ
identity_decision_class_code IdentityDecisionClass.name_conflict = 0
identity_decision_class_code IdentityDecisionClass.birth_date_conflict = 1
identity_decision_class_code IdentityDecisionClass.context_review = 2
identity_decision_class_code IdentityDecisionClass.exact_birth_date = 3
identity_decision_class_code IdentityDecisionClass.same_state_context = 4
identity_decision_class_code IdentityDecisionClass.shared_career_anchors = 5
identity_decision_class_code IdentityDecisionClass.external_id = 6
identity_decision_class_code IdentityDecisionClass.official_career_continuity = 7
identity_decision_class_code IdentityDecisionClass.official_biography_continuity = 8

pub identity_decision_class_code-injective :
    (a b : IdentityDecisionClass)
    → identity_decision_class_code a ≡ identity_decision_class_code b
    → a ≡ b
identity_decision_class_code-injective a b h = ground arith

instance abbrev pub identity_decision_class_eq : Eq IdentityDecisionClass
identity_decision_class_eq =
    coded_eq identity_decision_class_code identity_decision_class_code-injective

pub data IdentityReviewStatus : Type 0 where
  opened resolved rejected : IdentityReviewStatus

abbrev pub identity_review_status_code : IdentityReviewStatus → ℕ
identity_review_status_code IdentityReviewStatus.opened = 0
identity_review_status_code IdentityReviewStatus.resolved = 1
identity_review_status_code IdentityReviewStatus.rejected = 2

pub identity_review_status_code-injective :
    (a b : IdentityReviewStatus)
    → identity_review_status_code a ≡ identity_review_status_code b
    → a ≡ b
identity_review_status_code-injective a b h = ground arith

instance abbrev pub identity_review_status_eq : Eq IdentityReviewStatus
identity_review_status_eq =
    coded_eq identity_review_status_code identity_review_status_code-injective

pub data CrossLaneIdentityEvidenceType : Type 0 where
  exact_birth_date external_id official_career_continuity official_biography_continuity :
      CrossLaneIdentityEvidenceType

abbrev pub cross_lane_identity_evidence_type_code : CrossLaneIdentityEvidenceType → ℕ
cross_lane_identity_evidence_type_code CrossLaneIdentityEvidenceType.exact_birth_date = 0
cross_lane_identity_evidence_type_code CrossLaneIdentityEvidenceType.external_id = 1
cross_lane_identity_evidence_type_code CrossLaneIdentityEvidenceType.official_career_continuity = 2
cross_lane_identity_evidence_type_code CrossLaneIdentityEvidenceType.official_biography_continuity =
    3

pub cross_lane_identity_evidence_type_code-injective :
    (a b : CrossLaneIdentityEvidenceType)
    → cross_lane_identity_evidence_type_code a ≡ cross_lane_identity_evidence_type_code b
    → a ≡ b
cross_lane_identity_evidence_type_code-injective a b h = ground arith

instance abbrev pub cross_lane_identity_evidence_type_eq : Eq CrossLaneIdentityEvidenceType
cross_lane_identity_evidence_type_eq =
    coded_eq cross_lane_identity_evidence_type_code cross_lane_identity_evidence_type_code-injective

abbrev pub cross_lane_identity_evidence_type_value : CrossLaneIdentityEvidenceType → String
cross_lane_identity_evidence_type_value CrossLaneIdentityEvidenceType.exact_birth_date =
    "EXACT_BIRTH_DATE"
cross_lane_identity_evidence_type_value CrossLaneIdentityEvidenceType.external_id = "EXTERNAL_ID"
cross_lane_identity_evidence_type_value CrossLaneIdentityEvidenceType.official_career_continuity =
    "OFFICIAL_CAREER_CONTINUITY"
cross_lane_identity_evidence_type_value
      CrossLaneIdentityEvidenceType.official_biography_continuity =
    "OFFICIAL_BIOGRAPHY_CONTINUITY"
