-- ===== src/Verification/Claims/Gate/Laws.antt =====
-- packages/verification/claims.py: the failures that the publication gate reports, and what more
-- evidence changes.
use civic_intel.Prelude.{
  ◌≡◌, refl, ◌≢◌, ◌↔◌, inl, inr, true, false, Option, none, some, List, [], ◌∷◌, ◌++◌, arith,
  Bool-cases, ◌==◌, string_eq, bool_eq, nat_eq, eq_of_==, option_eq, pair_eq, list_eq, contains,
  contains-append, contains-ordered_unique, ok,
}
use civic_intel.Prelude.Texts.{Unicode}
use civic_intel.Prelude.Dict.{Dict}
use civic_intel.Domain.Enums.{EvidenceStance, evidence_stance_eq, epistemic_status_eq}
use civic_intel.Domain.Contracts.Base.{Uuid}
use civic_intel.Domain.Contracts.Evidence.{
  Source, SourcePolicy, Claim, ClaimEvidence, is_none, validate_claim,
}
use civic_intel.Verification.Claims.Gate.{
  Subject, subject_failures, unknown_failures, evidence_of, fact_failures, evidence_item_failures,
  evidence_failures, all_failures, validate_claim_publication,
}
use civic_intel.Verification.Claims.Failures.{
  Failure, failure_eq, GateResult, claim_subject_missing, unknown_cannot_be_asserted_as_true,
  unknown_requires_resolution_note, fact_requires_explicit_assertion,
}
use civic_intel.Domain.Contracts.Laws.{IsWellFormed, validate_claim-IsWellFormed}
use civic_intel.Domain.Contracts.Evidence.{is_none}
use civic_intel.Verification.Claims.Gate.Spec.{Citable, validate_claim_publication-Publishable}

-- None of the four failures that repeat what the validators of a claim check.
record Spares (fs : List Failure) : Type 0 where
  no_missing : contains fs claim_subject_missing ≡ false
  no_asserted : contains fs unknown_cannot_be_asserted_as_true ≡ false
  no_unnoted : contains fs unknown_requires_resolution_note ≡ false
  no_unasserted : contains fs fact_requires_explicit_assertion ≡ false

module _ (u : Unicode) (c : Claim) (subject : Subject) (sources : Dict Uuid Source)
    (policies : Dict Uuid SourcePolicy) where
  abbrev gate : List ClaimEvidence → GateResult
  gate evidence = validate_claim_publication u c subject evidence sources policies

  -- Evidence that belongs to another claim changes nothing.
  pub foreign_evidence :
      (e : ClaimEvidence) (evidence : List ClaimEvidence)
      → e.claim_id ≢ c.id
      → gate (e ∷ evidence) ≡ gate evidence
  unfolding validate_claim_publication all_failures evidence_of
  foreign_evidence e evidence foreign = elim (Bool-cases (e.claim_id == c.id)) [
    | inl t ↦ absurd (foreign (eq_of_== _ _ t))
    | inr t ↦ rw t
  ]

  -- Evidence against the claim, or neutral to it, neither blocks a publication nor supports one:
  -- where its source may be cited, the verdict is as without it.
  pub contrary_evidence :
      (e : ClaimEvidence) (evidence : List ClaimEvidence)
      → e.stance ≢ EvidenceStance.support
      → Citable sources policies e
      → ((gate (e ∷ evidence)).publishable ≡ true) ↔ ((gate evidence).publishable ≡ true)
  contrary_evidence e evidence contrary citable = (
    λ h.
        let p =
          (validate_claim_publication-Publishable u c subject (e ∷ evidence) sources policies).0
            h in
        (validate_claim_publication-Publishable u c subject evidence sources policies).1 (record {
          marked = p.marked;
          eligible = p.eligible;
          atomic = p.atomic;
          unknown_noted = p.unknown_noted;
          fact_asserted = p.fact_asserted;
          fact_supported =
              λ f. elim (p.fact_supported f) [ inl s ↦ absurd (contrary s.1) | inr s ↦ s ];
          cited = p.cited.1;
        }),
    λ h.
        let p =
          (validate_claim_publication-Publishable u c subject evidence sources policies).0 h in
        (validate_claim_publication-Publishable u c subject (e ∷ evidence) sources policies).1
          (record {
            marked = p.marked;
            eligible = p.eligible;
            atomic = p.atomic;
            unknown_noted = p.unknown_noted;
            fact_asserted = p.fact_asserted;
            fact_supported = λ f. inr (p.fact_supported f);
            cited = (λ _. citable, p.cited);
          }),
  )

  Spares-append : (xs ys : List Failure) → Spares xs → Spares ys → Spares (xs ++ ys)
  Spares-append xs ys h k = record {
    no_missing = rw contains-append (ground (arith, h.no_missing, k.no_missing));
    no_asserted = rw contains-append (ground (arith, h.no_asserted, k.no_asserted));
    no_unnoted = rw contains-append (ground (arith, h.no_unnoted, k.no_unnoted));
    no_unasserted = rw contains-append (ground (arith, h.no_unasserted, k.no_unasserted));
  }

  Spares-evidence : (es : List ClaimEvidence) → Spares (evidence_failures sources policies es)
  unfolding evidence_failures evidence_item_failures
  Spares-evidence [] = ground arith
  Spares-evidence (e ∷ es) = Spares-append _ _ (ground arith) (Spares-evidence es)

  Spares-subject :
      (a b : Option Uuid) → is_none a ≢ is_none b → Spares (subject_failures a b subject)
  unfolding subject_failures
  Spares-subject (some id) b h = ground arith
  Spares-subject none (some id) h = ground arith
  Spares-subject none none h = absurd (h refl)

  Spares-unknown : IsWellFormed c → Spares (unknown_failures c)
  unfolding unknown_failures
  Spares-unknown w = grind (arith, w.unknown_unasserted, w.unknown_noted)

  Spares-fact : (own : List ClaimEvidence) → IsWellFormed c → Spares (fact_failures c own)
  unfolding fact_failures
  Spares-fact own w = grind (arith, w.fact_asserted)

  -- A claim that passed the validators of its contract never meets four of the gate's failures,
  -- `claim_subject_missing`, `unknown_cannot_be_asserted_as_true`,
  -- `unknown_requires_resolution_note` and `fact_requires_explicit_assertion`.
  pub contract_rules_out :
      (evidence : List ClaimEvidence)
      → validate_claim c ≡ ok tt
      → (contains (gate evidence).failures claim_subject_missing ≡ false)
        × (contains (gate evidence).failures unknown_cannot_be_asserted_as_true ≡ false)
        × (contains (gate evidence).failures unknown_requires_resolution_note ≡ false)
        × (contains (gate evidence).failures fact_requires_explicit_assertion ≡ false)
  unfolding validate_claim_publication
  contract_rules_out evidence h =
      let w = (validate_claim-IsWellFormed c).0 h in
      let own = evidence_of c evidence in
      let raised : Spares (all_failures u c subject evidence sources policies) =
        Spares-append _ _ (ground arith) (
          Spares-append _ _ (Spares-subject c.person_id c.organization_id w.one_subject) (
            Spares-append _ _ (ground arith) (
              Spares-append _ _ (Spares-unknown w)
                (Spares-append _ _ (Spares-fact own w) (Spares-evidence own))))) in
      (
        rw contains-ordered_unique raised.no_missing,
        rw contains-ordered_unique raised.no_asserted,
        rw contains-ordered_unique raised.no_unnoted,
        rw contains-ordered_unique raised.no_unasserted,
      )
