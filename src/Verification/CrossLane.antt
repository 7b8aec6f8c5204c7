-- ===== src/Verification/CrossLane.antt =====
-- packages/verification/cross_lane_identity.py: identity across a career change, by bridging
-- evidence.
pub mod Evidence
pub mod Laws
use civic_intel.Prelude.{
  String, Bool, false, not, ◌&&◌, ◌||◌, Option, none, some, List, [], ◌∷◌, map, if◌then◌else◌, ◌==◌,
  ◌!=◌, nat_eq, string_eq, bool_eq, coded_eq, option_eq, pair_eq, contains, overlaps,
  ordered_unique, Result, ◌>>=◌, ◌>>◌, raise_if, ok, err,
}
use civic_intel.Prelude.Texts.{Unicode, blank, strip, truthy}
use civic_intel.Domain.Enums.{
  IdentityStatus, IdentityDecisionClass, CrossLaneIdentityEvidenceType,
  cross_lane_identity_evidence_type_eq, cross_lane_identity_evidence_type_value,
}
use civic_intel.Domain.Contracts.Base.{Date}
use civic_intel.Verification.Identity.{IdentityCandidate, names}

pub record CrossLaneIdentityEvidence : Type 0 where
  pub evidence_type : CrossLaneIdentityEvidenceType
  pub source_ref : String
  pub namespace : Option String
  pub left_value : Option String
  pub right_value : Option String
  pub from_role : Option String
  pub to_role : Option String

-- What construction and validation raise: the `ValueError`s, and the failed `assert`.
pub data EvidenceError : Type 0 where
  source_ref_required external_id_incomplete continuity_incomplete : EvidenceError
  birth_dates_required birth_dates_conflict values_missing values_differ : EvidenceError

abbrev pub is_continuity : CrossLaneIdentityEvidenceType → Bool
is_continuity t =
    t == CrossLaneIdentityEvidenceType.official_career_continuity
    || t == CrossLaneIdentityEvidenceType.official_biography_continuity

-- `CrossLaneIdentityEvidence.__post_init__`
unfoldable pub construct_evidence : CrossLaneIdentityEvidence → Result EvidenceError (Unit {0})
unfolding strip
construct_evidence e = do
  raise_if (blank (strip e.source_ref)) source_ref_required
  raise_if
      (e.evidence_type == CrossLaneIdentityEvidenceType.external_id
        && (not (truthy e.namespace) || not (truthy e.left_value) || not (truthy e.right_value)))
      external_id_incomplete
  raise_if (is_continuity e.evidence_type && (not (truthy e.from_role) || not (truthy e.to_role)))
      continuity_incomplete

pub record CrossLaneIdentityDecision : Type 0 where
  pub status : IdentityStatus
  pub decision_class : IdentityDecisionClass
  pub reasons : List String
  pub evidence_types : List CrossLaneIdentityEvidenceType

module _ (u : Unicode) where
  pub validate_external_id : Option String → Option String → Result EvidenceError (Unit {0})
  validate_external_id none right = err values_missing
  validate_external_id (some l) none = err values_missing
  validate_external_id (some l) (some r) =
      raise_if (u.casefold (strip l) != u.casefold (strip r)) values_differ

  pub validate_birth_dates : Option Date → Option Date → Result EvidenceError (Unit {0})
  validate_birth_dates none right = err birth_dates_required
  validate_birth_dates (some d) none = err birth_dates_required
  validate_birth_dates (some d) (some d') = raise_if (d != d') birth_dates_conflict

  -- `_validate_evidence`; the four types leave nothing for its last `raise`.
  unfoldable pub validate_evidence :
      IdentityCandidate
      → IdentityCandidate
      → CrossLaneIdentityEvidence
      → Result EvidenceError (Unit {0})
  unfolding validate_external_id validate_birth_dates
  validate_evidence left right e =
      if e.evidence_type == CrossLaneIdentityEvidenceType.exact_birth_date
      then validate_birth_dates left.birth_date right.birth_date
      else if e.evidence_type == CrossLaneIdentityEvidenceType.external_id
      then validate_external_id e.left_value e.right_value
      else ok tt

  -- The loop over the evidence, where every item must be valid: the accepted types, in order.
  unfoldable pub accept_evidence :
      IdentityCandidate
      → IdentityCandidate
      → List CrossLaneIdentityEvidence
      → Result EvidenceError (List CrossLaneIdentityEvidenceType)
  accept_evidence left right [] = ok []
  accept_evidence left right (e ∷ es) = do
    validate_evidence left right e
    types ← accept_evidence left right es
    ok (e.evidence_type ∷ types)

  -- Both birth dates are known, and differ.
  abbrev pub conflict_of_birth : Option Date → Option Date → Bool
  conflict_of_birth (some d) (some d') = d != d'
  conflict_of_birth (some d) none = false
  conflict_of_birth none right = false

  -- The first entry of `precedence` whose type is there; the last entry is the only type left.
  unfoldable pub strongest_class : List CrossLaneIdentityEvidenceType → IdentityDecisionClass
  strongest_class types =
      if contains types CrossLaneIdentityEvidenceType.external_id
      then IdentityDecisionClass.external_id
      else if contains types CrossLaneIdentityEvidenceType.exact_birth_date
      then IdentityDecisionClass.exact_birth_date
      else if contains types CrossLaneIdentityEvidenceType.official_biography_continuity
      then IdentityDecisionClass.official_biography_continuity
      else IdentityDecisionClass.official_career_continuity

  unresolved_by : IdentityDecisionClass → String → CrossLaneIdentityDecision
  unresolved_by decision_class reason = record {
    status = IdentityStatus.unresolved;
    decision_class = decision_class;
    reasons = reason ∷ [];
    evidence_types = [];
  }

  -- What follows the loop. A reason is added for each type once, at its first item.
  unfoldable pub decide_bridge : List CrossLaneIdentityEvidenceType → CrossLaneIdentityDecision
  decide_bridge [] = record {
    status = IdentityStatus.review;
    decision_class = IdentityDecisionClass.context_review;
    reasons = "name_match" ∷ "cross_lane_bridge_evidence_missing" ∷ [];
    evidence_types = [];
  }
  decide_bridge (t ∷ ts) = record {
    status = IdentityStatus.resolved;
    decision_class = strongest_class (t ∷ ts);
    reasons =
        "name_match"
        ∷ map
            (λ (k : CrossLaneIdentityEvidenceType).
              u.casefold (cross_lane_identity_evidence_type_value k))
            (ordered_unique (t ∷ ts));
    evidence_types = t ∷ ts;
  }

  unfoldable pub resolve_cross_lane_identity :
      IdentityCandidate
      → IdentityCandidate
      → List CrossLaneIdentityEvidence
      → Result EvidenceError CrossLaneIdentityDecision
  unfolding unresolved_by
  resolve_cross_lane_identity left right evidence =
      if not (overlaps (names u left) (names u right))
      then ok (unresolved_by IdentityDecisionClass.name_conflict "name_conflict")
      else if conflict_of_birth left.birth_date right.birth_date
      then ok (unresolved_by IdentityDecisionClass.birth_date_conflict "birth_date_conflict")
      else do types ← accept_evidence left right evidence; ok (decide_bridge types)
