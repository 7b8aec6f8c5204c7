-- ===== src/Verification/Claims/Gate.antt =====
-- packages/verification/claims.py: `validate_claim_publication`.
pub mod Spec
pub mod Laws
pub mod Reasons
pub mod Reported
use civic_intel.Prelude.{
  ◌+◌, ◌-◌, ◌≡◌, refl, Bool, true, false, not, ◌&&◌, ◌||◌, Option, none, some, List, [], ◌∷◌, ◌++◌,
  if◌then◌else◌, ◌==◌, ◌!=◌, string_eq, bool_eq, nat_eq, coded_eq, option_eq, pair_eq, is_empty,
  keep, ordered_unique, succeeds,
}
use civic_intel.Prelude.Texts.{Unicode, truthy}
use civic_intel.Prelude.Dict.{Dict, lookup}
use civic_intel.Domain.Enums.{
  EpistemicStatus, EvidenceStance, PublicationStatus, IdentityStatus, epistemic_status_eq,
  evidence_stance_eq, publication_status_eq, identity_status_eq,
}
use civic_intel.Domain.Contracts.Base.{Uuid}
use civic_intel.Domain.Contracts.Evidence.{
  Person, Organization, Source, SourcePolicy, Claim, ClaimEvidence, is_none,
}
use civic_intel.Verification.Policy.{PolicyAction, require_policy}
use civic_intel.Verification.Claims.Failures.{
  Failure, failure_code, failure_code-injective, failure_eq, GateResult,
  claim_not_marked_for_publication, claim_person_subject_mismatch, identity_not_resolved,
  claim_organization_subject_mismatch, organization_not_current, claim_subject_missing,
  claim_not_atomic, unknown_cannot_be_asserted_as_true, unknown_requires_resolution_note,
  fact_requires_support, fact_requires_explicit_assertion, evidence_source_missing,
  source_policy_prohibits_publication,
}
use civic_intel.Verification.Claims.Atomic.{is_atomic}

-- `Person | Organization`
pub data Subject : Type 0 where
  person : Person → Subject
  organization : Organization → Subject

-- `if test: failures.append(failure)`
abbrev pub fail_if : Bool → Failure → List Failure
fail_if true f = f ∷ []
fail_if false f = []

pub is_empty-fail_if : (b : Bool) (f : Failure) → is_empty (fail_if b f) ≡ not b
is_empty-fail_if true f = refl
is_empty-fail_if false f = refl

unfoldable pub person_failures : Uuid → Subject → List Failure
person_failures id (organization o) = claim_person_subject_mismatch ∷ []
person_failures id (person p) =
    if p.id != id
    then claim_person_subject_mismatch ∷ []
    else fail_if (p.identity_status != IdentityStatus.resolved) identity_not_resolved

unfoldable pub organization_failures : Uuid → Subject → List Failure
organization_failures id (person p) = claim_organization_subject_mismatch ∷ []
organization_failures id (organization o) =
    if o.id != id
    then claim_organization_subject_mismatch ∷ []
    else fail_if (not (is_none o.superseded_at)) organization_not_current

-- The `if claim.person_id … elif claim.organization_id … else` chain.
unfoldable pub subject_failures : Option Uuid → Option Uuid → Subject → List Failure
unfolding person_failures organization_failures
subject_failures (some id) organization_id subject = person_failures id subject
subject_failures none (some id) subject = organization_failures id subject
subject_failures none none subject = claim_subject_missing ∷ []

unfoldable pub unknown_failures : Claim → List Failure
unknown_failures c =
    if c.epistemic_status == EpistemicStatus.unknown
    then fail_if c.asserted_as_true unknown_cannot_be_asserted_as_true
      ++ fail_if (not (truthy c.resolution_note)) unknown_requires_resolution_note
    else []

-- `[item for item in evidence if item.claim_id == claim.id]`
unfoldable pub evidence_of : Claim → List ClaimEvidence → List ClaimEvidence
evidence_of c = keep (λ (e : ClaimEvidence). e.claim_id == c.id)

abbrev pub supports : ClaimEvidence → Bool
supports e = e.stance == EvidenceStance.support

unfoldable pub fact_failures : Claim → List ClaimEvidence → List Failure
fact_failures c own =
    fail_if (c.epistemic_status == EpistemicStatus.fact && is_empty (keep supports own))
      fact_requires_support
    ++ fail_if (c.epistemic_status == EpistemicStatus.fact && not c.asserted_as_true)
        fact_requires_explicit_assertion

module _ (sources : Dict Uuid Source) (policies : Dict Uuid SourcePolicy) where
  -- The `try` block: does either requirement raise `PolicyDenied`?
  unfoldable pub denied : Source → ClaimEvidence → Bool
  denied source e =
      let policy = lookup source.policy_id policies in
      not (
        succeeds (require_policy policy PolicyAction.store_metadata)
        && (not (truthy e.excerpt) || succeeds (require_policy policy PolicyAction.show_excerpt)))

  -- One round of the loop over the claim's evidence.
  unfoldable pub evidence_item_failures : ClaimEvidence → List Failure
  unfolding denied
  evidence_item_failures e = elim (lookup e.source_id sources) [
    | none ↦ evidence_source_missing ∷ []
    | some source ↦ fail_if (denied source e) source_policy_prohibits_publication
  ]

  unfoldable pub evidence_failures : List ClaimEvidence → List Failure
  unfolding evidence_item_failures
  evidence_failures [] = []
  evidence_failures (e ∷ es) = evidence_item_failures e ++ evidence_failures es

module _ (u : Unicode) (claim : Claim) (subject : Subject) (evidence : List ClaimEvidence)
    (sources : Dict Uuid Source) (policies : Dict Uuid SourcePolicy) where
  -- `failures`, in the order of the appends.
  unfoldable pub all_failures : List Failure
  all_failures =
      let own = evidence_of claim evidence in
      fail_if (claim.publication_status != PublicationStatus.published)
        claim_not_marked_for_publication
      ++ (subject_failures claim.person_id claim.organization_id subject
          ++ (fail_if (not (is_atomic u claim.proposition)) claim_not_atomic
              ++ (unknown_failures claim
                  ++ (fact_failures claim own ++ evidence_failures sources policies own))))

  unfoldable pub validate_claim_publication : GateResult
  unfolding all_failures
  validate_claim_publication = record {
    publishable = is_empty all_failures;
    failures = ordered_unique all_failures;
  }
