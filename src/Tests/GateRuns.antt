-- ===== src/Tests/GateRuns.antt =====
-- packages/verification/claims.py and policy.py, packages/domain/contracts.py: runs of the gates.
use mathlib.Core.List.{flatten}
use civic_intel.Prelude.Lists.{unseen}
use civic_intel.Prelude.{
  ◌≤◌, String, ◌≡◌, refl, ◌≢◌, ◌↔◌, true, false, none, some, [], ◌∷◌, arith, string_eq, bool_eq,
  nat_eq, option_eq, pair_eq, list_eq, contains, has_duplicates, In, TwoShared, ok,
}
use civic_intel.Prelude.Texts.{strip}
use civic_intel.Verification.Claims.Atomic.{is_atomic}
use civic_intel.Domain.Enums.{EvidenceStance, PublicationStatus, RelationshipStrength}
use civic_intel.Domain.Contracts.Evidence.{validate_claim}
use civic_intel.Domain.Contracts.Laws.{IsWellFormed, validate_claim-IsWellFormed}
use civic_intel.Domain.Contracts.Profile.{Relationship, Hypothesis}
use civic_intel.Domain.WorkOrders.{
  RecipeId, RecordKind, CodeArea, WorkOrderRequest, is_version, validate_recipe,
  validate_work_order,
}
use civic_intel.Domain.WorkOrders.Laws.{Orderly, validate_work_order-Orderly}
use civic_intel.Verification.Policy.{PolicyAction, require_policy}
use civic_intel.Verification.Policy.Laws.{Permits, require_policy-Permits}
use civic_intel.Verification.Claims.Failures.{
  claim_subject_missing, failure_eq, fact_requires_support,
}
use civic_intel.Verification.Claims.Gate.{
  person, subject_failures, unknown_failures, fact_failures, evidence_of, evidence_failures,
  validate_claim_publication,
}
use civic_intel.Verification.Claims.Gate.Spec.{Publishable, validate_claim_publication-Publishable}
use civic_intel.Verification.Claims.Gate.Reasons.{Reason}
use civic_intel.Verification.Claims.Gate.Reported.{failures_reported}
use civic_intel.Verification.Claims.Gate.Laws.{
  foreign_evidence, contrary_evidence, contract_rules_out,
}
use civic_intel.Verification.Claims.Other.{
  validate_relationship, validate_pattern, validate_hypothesis, validate_relationship_lem,
  validate_pattern_lem, validate_hypothesis_lem,
}
use civic_intel.Tests.Samples.{
  plain, always, kim, open_policy, serves, cited, known_sources, known_policies,
}

support : validate_claim serves ≡ ok tt
unfolding validate_claim
support = refl

validate_claim-IsWellFormed_example : IsWellFormed serves
validate_claim-IsWellFormed_example = (validate_claim-IsWellFormed serves).0 support

require_policy-Permits_example : Permits (some open_policy) PolicyAction.fetch
unfolding require_policy
require_policy-Permits_example =
    (require_policy-Permits (some open_policy) PolicyAction.fetch).0 refl

gate_passes :
    (validate_claim_publication plain serves
      (person kim)
      (cited EvidenceStance.support 40 ∷ [])
      known_sources
      known_policies).publishable
    ≡ true
unfolding validate_claim_publication subject_failures unknown_failures fact_failures evidence_of
    evidence_failures is_atomic require_policy
gate_passes = refl

validate_claim_publication-Publishable_example :
    Publishable plain serves
      (person kim)
      (cited EvidenceStance.support 40 ∷ [])
      known_sources
      known_policies
validate_claim_publication-Publishable_example =
    (validate_claim_publication-Publishable plain serves (person kim)
        (cited EvidenceStance.support 40 ∷ []) known_sources known_policies).0
      gate_passes

failures_reported_example :
    (In fact_requires_support
        (validate_claim_publication plain serves
          (person kim)
          []
          known_sources
          known_policies).failures
      ↔ Reason plain serves (person kim) [] known_sources known_policies fact_requires_support)
    × (has_duplicates
          (validate_claim_publication plain serves
            (person kim)
            []
            known_sources
            known_policies).failures
        ≡ false)
failures_reported_example =
    failures_reported plain serves (person kim) [] known_sources known_policies
      fact_requires_support

foreign_evidence_example :
    validate_claim_publication plain serves
      (person kim)
      (cited EvidenceStance.support 41 ∷ [])
      known_sources
      known_policies
    ≡ validate_claim_publication plain serves (person kim) [] known_sources known_policies
foreign_evidence_example =
    foreign_evidence plain serves (person kim) known_sources known_policies
      (cited EvidenceStance.support 41) [] (λ e. ground (arith, e))

may_store : Permits (some open_policy) PolicyAction.store_metadata
unfolding require_policy
may_store = (require_policy-Permits (some open_policy) PolicyAction.store_metadata).0 refl

may_show : Permits (some open_policy) PolicyAction.show_excerpt
unfolding require_policy
may_show = (require_policy-Permits (some open_policy) PolicyAction.show_excerpt).0 refl

contrary_evidence_example :
    ((validate_claim_publication plain serves
        (person kim)
        (cited EvidenceStance.refute 40 ∷ cited EvidenceStance.support 40 ∷ [])
        known_sources
        known_policies).publishable
      ≡ true)
    ↔ ((validate_claim_publication plain serves
          (person kim)
          (cited EvidenceStance.support 40 ∷ [])
          known_sources
          known_policies).publishable
        ≡ true)
contrary_evidence_example =
    contrary_evidence plain serves (person kim) known_sources known_policies
      (cited EvidenceStance.refute 40) (cited EvidenceStance.support 40 ∷ [])
      (λ e. ground (arith, e)) (may_store, λ s. may_show)

contract_rules_out_example :
    contains
      (validate_claim_publication plain serves
        (person kim)
        []
        known_sources
        known_policies).failures
      claim_subject_missing
    ≡ false
contract_rules_out_example =
    (contract_rules_out plain serves (person kim) known_sources known_policies [] support).0

abbrev strong_tie : Relationship
strong_tie = record {
  id = 60;
  person_id = 1;
  related_person_id = some 2;
  related_organization_id = none;
  relationship_type = "colleague";
  strength = RelationshipStrength.strong;
  evidence = [];
  temporal = always;
}

validate_relationship_lem_example :
    ((validate_relationship strong_tie).publishable ≡ true)
    ↔ (RelationshipStrength.strong ≡ RelationshipStrength.strong → ⊥)
validate_relationship_lem_example = validate_relationship_lem strong_tie

validate_pattern_lem_example : (2 ≤ 2) × TwoShared {A = String} ("a" ∷ "b" ∷ []) ("a" ∷ "b" ∷ [])
unfolding validate_pattern unseen flatten
validate_pattern_lem_example = (validate_pattern_lem (("a" ∷ []) ∷ ("b" ∷ []) ∷ [])).0 refl

abbrev guess : Hypothesis
guess = record {
  id = 61;
  person_id = 1;
  statement = "s";
  ordinary_explanation = " ";
  falsifier = "f";
  alternatives = [];
  publication_status = PublicationStatus.published;
  temporal = always;
}

validate_hypothesis_lem_example : ((validate_hypothesis guess).publishable ≡ true) ↔ (
    PublicationStatus.published ≡ PublicationStatus.published → (strip " " ≢ "") × (strip "f" ≢ ""))
validate_hypothesis_lem_example = validate_hypothesis_lem guess

abbrev digest_text : String
digest_text = "0123456789abcdef0123456789abcdef0123456789abcdef0123456789abcdef"

abbrev link_order : WorkOrderRequest
link_order = record {
  request_id = 1;
  recipe_id = RecipeId.identity_link;
  references =
      record { kind = RecordKind.observations; id = 2; version = digest_text }
      ∷ record { kind = RecordKind.people; id = 3; version = digest_text }
      ∷ record { kind = RecordKind.evidence; id = 4; version = digest_text }
      ∷ [];
  operator_note = "";
  code_area = CodeArea.admin;
}

orders : validate_work_order link_order ≡ ok tt
unfolding validate_work_order validate_recipe is_version
orders = refl

validate_work_order-Orderly_example : Orderly link_order
validate_work_order-Orderly_example = (validate_work_order-Orderly link_order).0 orders
