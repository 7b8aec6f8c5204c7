-- ===== src/Verification/Claims/Gate/Spec.antt =====
-- packages/verification/claims.py: what the publication gate promises, and that it keeps it.
use civic_intel.Prelude.{
  ◌≡◌, refl, ◌↔◌, inl, inr, true, false, not, ◌&&◌, Option, none, some, List, [], ◌∷◌, arith,
  Bool-cases, ◌==◌, ◌!=◌, string_eq, bool_eq, nat_eq, eq_of_==, option_eq, pair_eq, list_eq,
  is_empty, keep, is_empty-append, is_empty-append_split, All, Exists,
}
use civic_intel.Prelude.Texts.{Unicode, truthy}
use civic_intel.Prelude.Dict.{Dict, lookup}
use civic_intel.Domain.Enums.{
  EpistemicStatus, EvidenceStance, PublicationStatus, IdentityStatus, epistemic_status_eq,
  evidence_stance_eq, publication_status_eq, identity_status_eq,
}
use civic_intel.Domain.Contracts.Base.{Uuid}
use civic_intel.Domain.Contracts.Evidence.{Source, SourcePolicy, Claim, ClaimEvidence}
use civic_intel.Verification.Policy.{PolicyAction}
use civic_intel.Verification.Policy.Laws.{Permits, require_policy-Permits}
use civic_intel.Verification.Claims.Atomic.{is_atomic}
use civic_intel.Verification.Claims.Gate.{
  Subject, person, organization, is_empty-fail_if, subject_failures, unknown_failures, evidence_of,
  supports, fact_failures, evidence_item_failures, evidence_failures, validate_claim_publication,
}
use civic_intel.Verification.Claims.Failures.{failure_eq}

-- The claim names exactly the subject that is at hand: a resolved person, or an organization that
-- nothing has superseded.
abbrev pub Eligible : Option Uuid → Option Uuid → Subject → Type 0
Eligible (some id) organization_id (person p) =
    (p.id ≡ id) × (p.identity_status ≡ IdentityStatus.resolved)
Eligible (some id) organization_id (organization o) = ⊥
Eligible none (some id) (person p) = ⊥
Eligible none (some id) (organization o) = (o.id ≡ id) × (o.superseded_at ≡ none)
Eligible none none subject = ⊥

-- The source may be cited for the evidence: metadata may be kept, and an excerpt may be shown
-- where there is one.
abbrev pub CitableFrom : Dict Uuid SourcePolicy → ClaimEvidence → Option Source → Type 0
CitableFrom policies e none = ⊥
CitableFrom policies e (some source) =
    Permits (lookup source.policy_id policies) PolicyAction.store_metadata
    × (truthy e.excerpt ≡ true
        → Permits (lookup source.policy_id policies) PolicyAction.show_excerpt)

abbrev pub Citable : Dict Uuid Source → Dict Uuid SourcePolicy → ClaimEvidence → Type 0
Citable sources policies e = CitableFrom policies e (lookup e.source_id sources)

abbrev pub Supports : Claim → ClaimEvidence → Type 0
Supports c e = (e.claim_id ≡ c.id) × (e.stance ≡ EvidenceStance.support)

pub record Publishable (u : Unicode) (c : Claim) (subject : Subject) (evidence : List ClaimEvidence)
    (sources : Dict Uuid Source) (policies : Dict Uuid SourcePolicy) : Type 0 where
  pub marked : c.publication_status ≡ PublicationStatus.published
  pub eligible : Eligible c.person_id c.organization_id subject
  pub atomic : is_atomic u c.proposition ≡ true
  pub unknown_noted :
      c.epistemic_status ≡ EpistemicStatus.unknown
      → (c.asserted_as_true ≡ false) × (truthy c.resolution_note ≡ true)
  pub fact_asserted : c.epistemic_status ≡ EpistemicStatus.fact → c.asserted_as_true ≡ true
  pub fact_supported : c.epistemic_status ≡ EpistemicStatus.fact → Exists (Supports c) evidence
  pub cited : All (λ (e : ClaimEvidence). e.claim_id ≡ c.id → Citable sources policies e) evidence

Eligible-sound :
    (a b : Option Uuid) (s : Subject) → is_empty (subject_failures a b s) ≡ true → Eligible a b s
unfolding subject_failures
Eligible-sound (some id) b (person p) h = (ground arith, ground arith)
Eligible-sound (some id) b (organization o) h = cc
Eligible-sound none (some id) (person p) h = cc
Eligible-sound none (some id) (organization o) h = (ground arith, ground arith)
Eligible-sound none none s h = cc

Eligible-complete :
    (a b : Option Uuid) (s : Subject) → Eligible a b s → is_empty (subject_failures a b s) ≡ true
unfolding subject_failures
Eligible-complete (some id) b (person p) h = ground arith
Eligible-complete (some id) b (organization o) h = elim h [ ]
Eligible-complete none (some id) (person p) h = elim h [ ]
Eligible-complete none (some id) (organization o) h = ground arith
Eligible-complete none none s h = elim h [ ]

module _ (sources : Dict Uuid Source) (policies : Dict Uuid SourcePolicy) (c : Claim) where
  pub citable_sound :
      (e : ClaimEvidence) (o : Option Source)
      → lookup e.source_id sources ≡ o
      → is_empty (evidence_item_failures sources policies e) ≡ true
      → CitableFrom policies e o
  unfolding evidence_item_failures
  citable_sound e none q h = ground (arith, q)
  citable_sound e (some source) q h =
      let policy = lookup source.policy_id policies in
      (
        (require_policy-Permits policy PolicyAction.store_metadata).0 (ground (arith, q)),
        λ t. (require_policy-Permits policy PolicyAction.show_excerpt).0 (ground (arith, q, t)),
      )

  pub citable_complete :
      (e : ClaimEvidence) (o : Option Source)
      → lookup e.source_id sources ≡ o
      → CitableFrom policies e o
      → is_empty (evidence_item_failures sources policies e) ≡ true
  unfolding evidence_item_failures
  citable_complete e none q h = elim h [ ]
  citable_complete e (some source) q h =
      let policy = lookup source.policy_id policies in
      let kept = (require_policy-Permits policy PolicyAction.store_metadata).1 h.0 in
      elim (Bool-cases (truthy e.excerpt)) [
        | inl t ↦
            ground
              (arith, q, kept, (require_policy-Permits policy PolicyAction.show_excerpt).1 (h.1 t))
        | inr t ↦ ground (arith, q, kept, t)
      ]

  cited_sound :
      (es : List ClaimEvidence)
      → is_empty (evidence_failures sources policies (evidence_of c es)) ≡ true
      → All (λ (e : ClaimEvidence). e.claim_id ≡ c.id → Citable sources policies e) es
  unfolding evidence_failures evidence_of
  cited_sound [] h = tt
  cited_sound (e ∷ es) h = elim (Bool-cases (e.claim_id == c.id)) [
    | inl t ↦
        let parts = is_empty-append_split _ _ (rw t at h) in
        (λ q. citable_sound e _ refl parts.0, cited_sound es parts.1)
    | inr t ↦ (λ q. absurd (ground (arith, t, q)), cited_sound es (rw t at h))
  ]

  cited_complete :
      (es : List ClaimEvidence)
      → All (λ (e : ClaimEvidence). e.claim_id ≡ c.id → Citable sources policies e) es
      → is_empty (evidence_failures sources policies (evidence_of c es)) ≡ true
  unfolding evidence_failures evidence_of
  cited_complete [] h = refl
  cited_complete (e ∷ es) h = elim (Bool-cases (e.claim_id == c.id)) [
    | inl t ↦
        rw (t, is_empty-append)
          (ground
            (arith, citable_complete e _ refl (h.0 (ground (arith, t))), cited_complete es h.1))
    | inr t ↦ rw t (cited_complete es h.1)
  ]

pub supported_sound :
    (c : Claim) (es : List ClaimEvidence)
    → is_empty (keep supports (evidence_of c es)) ≡ false
    → Exists (Supports c) es
unfolding evidence_of
supported_sound c [] h = cc
supported_sound c (e ∷ es) h = elim (Bool-cases (e.claim_id == c.id && supports e)) [
  | inl t ↦ inl (ground arith)
  | inr t ↦ inr (supported_sound c es (ground arith))
]

pub supported_complete :
    (c : Claim) (es : List ClaimEvidence)
    → Exists (Supports c) es
    → is_empty (keep supports (evidence_of c es)) ≡ false
unfolding evidence_of
supported_complete c [] h = elim h [ ]
supported_complete c (e ∷ es) (inl h) = ground arith
supported_complete c (e ∷ es) (inr h) = ground (arith, supported_complete c es h)

unknown_complete :
    (c : Claim)
    → (c.epistemic_status ≡ EpistemicStatus.unknown
        → (c.asserted_as_true ≡ false) × (truthy c.resolution_note ≡ true))
    → is_empty (unknown_failures c) ≡ true
unfolding unknown_failures
unknown_complete c h = elim (Bool-cases (c.epistemic_status == EpistemicStatus.unknown)) [
  | inl t ↦ let noted = h (eq_of_== _ _ t) in rw (t, noted.0, noted.1)
  | inr t ↦ rw t
]

fact_complete :
    (c : Claim) (es : List ClaimEvidence)
    → (c.epistemic_status ≡ EpistemicStatus.fact → c.asserted_as_true ≡ true)
    → (c.epistemic_status ≡ EpistemicStatus.fact → Exists (Supports c) es)
    → is_empty (fact_failures c (evidence_of c es)) ≡ true
unfolding fact_failures
fact_complete c es h k = elim (Bool-cases (c.epistemic_status == EpistemicStatus.fact)) [
  | inl t ↦ let fact = eq_of_== _ _ t in simp (t, h fact, supported_complete c es (k fact))
  | inr t ↦ rw t
]

module _ (u : Unicode) (c : Claim) (subject : Subject) (evidence : List ClaimEvidence)
    (sources : Dict Uuid Source) (policies : Dict Uuid SourcePolicy) where
  -- The gate passes exactly when each of its six lists of failures is empty.
  gate_parts : (validate_claim_publication u c subject evidence sources policies).publishable ≡ (
      not (c.publication_status != PublicationStatus.published)
      && (is_empty (subject_failures c.person_id c.organization_id subject)
          && (not (not (is_atomic u c.proposition))
              && (is_empty (unknown_failures c)
                  && (is_empty (fact_failures c (evidence_of c evidence))
                      && is_empty (evidence_failures sources policies (evidence_of c evidence)))))))
  unfolding validate_claim_publication
  gate_parts = simp (is_empty-append, is_empty-fail_if)

  publishable_sound :
      (validate_claim_publication u c subject evidence sources policies).publishable ≡ true
      → Publishable u c subject evidence sources policies
  publishable_sound passed =
      let h = passed in
      record {
        marked = ground (arith, gate_parts);
        eligible = Eligible-sound _ _ _ (ground (arith, gate_parts));
        atomic = ground (arith, gate_parts);
        unknown_noted =
            unfold unknown_failures in
            λ e. (ground (arith, gate_parts, e), ground (arith, gate_parts, e));
        fact_asserted = unfold fact_failures in λ e. ground (arith, gate_parts, e);
        fact_supported =
            λ e. supported_sound c evidence (unfold fact_failures in ground (arith, gate_parts, e));
        cited = cited_sound sources policies c evidence (ground (arith, gate_parts));
      }

  publishable_complete :
      Publishable u c subject evidence sources policies
      → (validate_claim_publication u c subject evidence sources policies).publishable ≡ true
  publishable_complete p = ground (
    arith,
    gate_parts,
    p.marked,
    p.atomic,
    Eligible-complete _ _ _ p.eligible,
    unknown_complete c p.unknown_noted,
    fact_complete c evidence p.fact_asserted p.fact_supported,
    cited_complete sources policies c evidence p.cited,
  )

  -- The gate passes a claim exactly when the claim is marked for publication, its subject is the
  -- resolved person or the current organization that it names, its proposition is atomic, an
  -- UNKNOWN claim is unasserted and has a note, a FACT is asserted and has supporting evidence, and
  -- every piece of the claim's evidence comes from a known source whose policy permits its use.
  pub validate_claim_publication-Publishable :
      ((validate_claim_publication u c subject evidence sources policies).publishable ≡ true)
      ↔ Publishable u c subject evidence sources policies
  validate_claim_publication-Publishable = (publishable_sound, publishable_complete)
