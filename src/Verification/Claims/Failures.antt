-- ===== src/Verification/Claims/Failures.antt =====
-- packages/verification/claims.py: what a gate answers.
use civic_intel.Prelude.{
  ℕ, ◌≡◌, Bool, List, arith, Eq, nat_eq, string_eq, bool_eq, coded_eq, option_eq, pair_eq,
}

-- The codes of `GateResult.failures`.
pub data Failure : Type 0 where
  claim_not_marked_for_publication : Failure
  claim_person_subject_mismatch identity_not_resolved : Failure
  claim_organization_subject_mismatch organization_not_current : Failure
  claim_subject_missing claim_not_atomic : Failure
  unknown_cannot_be_asserted_as_true unknown_requires_resolution_note : Failure
  fact_requires_support fact_requires_explicit_assertion : Failure
  evidence_source_missing source_policy_prohibits_publication : Failure
  strong_relationship_requires_typed_evidence : Failure
  pattern_requires_two_independent_episodes hypothesis_requires_h0_and_falsifier : Failure

abbrev pub failure_code : Failure → ℕ
failure_code claim_not_marked_for_publication = 0
failure_code claim_person_subject_mismatch = 1
failure_code identity_not_resolved = 2
failure_code claim_organization_subject_mismatch = 3
failure_code organization_not_current = 4
failure_code claim_subject_missing = 5
failure_code claim_not_atomic = 6
failure_code unknown_cannot_be_asserted_as_true = 7
failure_code unknown_requires_resolution_note = 8
failure_code fact_requires_support = 9
failure_code fact_requires_explicit_assertion = 10
failure_code evidence_source_missing = 11
failure_code source_policy_prohibits_publication = 12
failure_code strong_relationship_requires_typed_evidence = 13
failure_code pattern_requires_two_independent_episodes = 14
failure_code hypothesis_requires_h0_and_falsifier = 15

pub failure_code-injective : (a b : Failure) → failure_code a ≡ failure_code b → a ≡ b
failure_code-injective a b h = ground arith

instance abbrev pub failure_eq : Eq Failure
failure_eq = coded_eq failure_code failure_code-injective

pub record GateResult : Type 0 where
  pub publishable : Bool
  pub failures : List Failure
