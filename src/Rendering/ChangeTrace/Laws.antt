-- ===== src/Rendering/ChangeTrace/Laws.antt =====
-- packages/rendering/change_projection.py: which changes are traced, and what a trace cites.
use civic_intel.Prelude.{
  String, ◌≡◌, refl, sym, ap, subst, ◌∙◌, ◌≢◌, ◌↔◌, inl, inr, true, false, ◌||◌, none, List, [],
  ◌∷◌, ◌++◌, map, arith, Bool-cases, ◌==◌, string_eq, bool_eq, nat_eq, ==-refl, eq_of_==, option_eq,
  pair_eq, list_eq, contains, has_duplicates, Result, Result-cases, All, Exists, any_sound,
  any_complete, not_any_sound, not_any_complete, !=_iff, contains-ordered_unique,
  has_duplicates-ordered_unique, ok,
}
use civic_intel.Domain.Enums.{
  EpistemicStatus, EvidenceStance, PublicationStatus, epistemic_status_eq, evidence_stance_eq,
  publication_status_eq,
}
use civic_intel.Domain.Contracts.Base.{Uuid}
use civic_intel.Domain.Contracts.Evidence.{Claim, ClaimEvidence}
use civic_intel.Rendering.ChangeTrace.{
  TraceError, TraceSide, TracePayload, ChangeTrace, subject_ref, validate_trace_claim,
  validate_trace_evidence, has_stance, trace_payload, some_field_empty,
  build_source_neutral_change_trace,
}

-- The claim is a published fact that is asserted and that nothing has superseded.
pub record CurrentFact (c : Claim) : Type 0 where
  pub current : c.superseded_at ≡ none
  pub published : c.publication_status ≡ PublicationStatus.published
  pub fact : c.epistemic_status ≡ EpistemicStatus.fact
  pub asserted : c.asserted_as_true ≡ true

-- The evidence is all of the claim, none of it refutes it, and some of it supports it.
pub record Backed (c : Claim) (es : List ClaimEvidence) : Type 0 where
  pub own : All (λ (e : ClaimEvidence). e.claim_id ≡ c.id) es
  pub unrefuted : All (λ (e : ClaimEvidence). e.stance ≢ EvidenceStance.refute) es
  pub supported : Exists (λ (e : ClaimEvidence). e.stance ≡ EvidenceStance.support) es

stance_iff : (s : EvidenceStance) (e : ClaimEvidence) → (has_stance s e ≡ true) ↔ (e.stance ≡ s)
stance_iff s e = (λ h. eq_of_== e.stance s h, λ q. ground (arith, q, ==-refl s))

stance_not_iff :
    (s : EvidenceStance) (e : ClaimEvidence) → (has_stance s e ≡ false) ↔ (e.stance ≢ s)
stance_not_iff s e = (
  λ h q. ground (arith, h, q, ==-refl s),
  λ k. elim (Bool-cases (has_stance s e)) [
    | inl t ↦ absurd (k (eq_of_== e.stance s t))
    | inr f ↦ f
  ],
)

claim_iff : (c : Claim) → (validate_trace_claim c ≡ ok tt) ↔ CurrentFact c
unfolding validate_trace_claim
claim_iff c = (
  λ h. record {
    current = ground (arith, h);
    published = ground (arith, h);
    fact = ground (arith, h);
    asserted = ground (arith, h);
  },
  λ k. ground (arith, k.current, k.published, k.fact, k.asserted),
)

evidence_sound :
    (c : Claim) (es : List ClaimEvidence) → validate_trace_evidence c es ≡ ok tt → Backed c es
unfolding validate_trace_evidence
evidence_sound c es h = record {
  own = not_any_sound _ _ (λ (e : ClaimEvidence). !=_iff e.claim_id c.id) es (ground (arith, h));
  unrefuted = not_any_sound _ _ (stance_not_iff EvidenceStance.refute) es (ground (arith, h));
  supported = any_sound _ _ (stance_iff EvidenceStance.support) es (ground (arith, h));
}

evidence_complete :
    (c : Claim) (es : List ClaimEvidence) → Backed c es → validate_trace_evidence c es ≡ ok tt
unfolding validate_trace_evidence
evidence_complete c [] b = elim b.supported [ ]
evidence_complete c (e ∷ es) b = rw (
  not_any_complete _ _ (λ (e : ClaimEvidence). !=_iff e.claim_id c.id) (e ∷ es) b.own,
  not_any_complete _ _ (stance_not_iff EvidenceStance.refute) (e ∷ es) b.unrefuted,
  any_complete _ _ (stance_iff EvidenceStance.support) (e ∷ es) b.supported,
)

-- Two sides whose change is traced.
pub record Comparable (method_version dimension : String) (earlier later : TraceSide)
    (subject : String × Uuid) : Type 0 where
  pub filled : some_field_empty method_version dimension earlier later ≡ false
  pub distinct : earlier.claim.id ≢ later.claim.id
  pub earlier_fact : CurrentFact earlier.claim
  pub later_fact : CurrentFact later.claim
  pub earlier_subject :
      subject_ref earlier.claim.person_id earlier.claim.organization_id ≡ ok subject
  pub later_subject : subject_ref later.claim.person_id later.claim.organization_id ≡ ok subject
  pub earlier_backed : Backed earlier.claim earlier.evidence
  pub later_backed : Backed later.claim later.evidence

abbrev pub ids_in : List ClaimEvidence → List Uuid
ids_in = map (λ (e : ClaimEvidence). e.id)

abbrev pub evidence_ids_of : TraceSide → List Uuid
evidence_ids_of s = ids_in s.evidence

abbrev pub sources_in : List ClaimEvidence → List Uuid
sources_in = map (λ (e : ClaimEvidence). e.source_id)

abbrev pub source_ids_of : TraceSide → List Uuid
source_ids_of s = sources_in s.evidence

sources_split :
    (id : Uuid) (es fs : List ClaimEvidence)
    → contains (sources_in (es ++ fs)) id
      ≡ (contains (sources_in es) id || contains (sources_in fs) id)
sources_split id [] fs = refl
sources_split id (e ∷ es) fs = ground (arith, sources_split id es fs)

ids_split :
    (id : Uuid) (es fs : List ClaimEvidence)
    → contains (ids_in (es ++ fs)) id ≡ (contains (ids_in es) id || contains (ids_in fs) id)
ids_split id [] fs = refl
ids_split id (e ∷ es) fs = ground (arith, ids_split id es fs)

module _ (digest : TracePayload → String) (method_version dimension : String)
    (earlier later : TraceSide) where
  abbrev pub built : Result TraceError ChangeTrace
  built = build_source_neutral_change_trace digest method_version dimension earlier later

  abbrev pub trace_of : String × Uuid → ChangeTrace
  trace_of subject =
      let payload = trace_payload method_version dimension earlier later subject in
      record { payload = payload; trace_key = digest payload }

  trace_complete :
      (subject : String × Uuid)
      → Comparable method_version dimension earlier later subject
      → built ≡ ok (trace_of subject)
  unfolding build_source_neutral_change_trace
  trace_complete subject c =
      let differ : (earlier.claim.id == later.claim.id) ≡ false = ground (arith, c.distinct) in
      rw (
        c.filled,
        differ,
        (claim_iff earlier.claim).1 c.earlier_fact,
        (claim_iff later.claim).1 c.later_fact,
        c.earlier_subject,
        c.later_subject,
        (!=_iff subject subject).1 refl,
        evidence_complete earlier.claim earlier.evidence c.earlier_backed,
        evidence_complete later.claim later.evidence c.later_backed,
      )

  trace_sound :
      (t : ChangeTrace)
      → built ≡ ok t
      → (subject : String × Uuid) × Comparable method_version dimension earlier later subject
        × (t ≡ trace_of subject)
  unfolding build_source_neutral_change_trace
  trace_sound t h =
      elim (Result-cases (subject_ref earlier.claim.person_id earlier.claim.organization_id)) [
        | inr (e, bad) ↦ absurd (ground (arith, h, bad))
        | inl (subject, one) ↦
            elim (Result-cases (subject_ref later.claim.person_id later.claim.organization_id)) [
              | inr (e, bad) ↦ absurd (ground (arith, h, one, bad))
              | inl (other, two) ↦
                  let same : subject ≡ other =
                    (!=_iff subject other).0 (ground (arith, h, one, two)) in
                  (
                    subject,
                    record {
                      filled = ground (arith, h);
                      distinct = λ q. ground (arith, h, q);
                      earlier_fact = (claim_iff earlier.claim).0 (ground (arith, h));
                      later_fact = (claim_iff later.claim).0 (ground (arith, h));
                      earlier_subject = one;
                      later_subject = two ∙ ap ok (sym same);
                      earlier_backed =
                          evidence_sound earlier.claim earlier.evidence
                            (ground (arith, h, one, two));
                      later_backed =
                          evidence_sound later.claim later.evidence (ground (arith, h, one, two));
                    },
                    ground (arith, h, one, two),
                  )
            ]
      ]

  -- A change is traced exactly when no text of it is empty, the two claims are different, both are
  -- current published facts about the same subject, and each has evidence of its own that supports
  -- and never refutes it. The trace is then the one of the two sides as they are given.
  pub build_source_neutral_change_trace-Comparable :
      (t : ChangeTrace)
      → (built ≡ ok t) ↔ (
          (subject : String × Uuid) × Comparable method_version dimension earlier later subject
          × (t ≡ trace_of subject))
  build_source_neutral_change_trace-Comparable t =
      (trace_sound t, λ (subject, c, same). trace_complete subject c ∙ ap ok (sym same))

  -- A trace cites each piece of evidence and each source once, and the evidence and the sources that
  -- it cites are exactly those of its two sides.
  pub trace_cites :
      (t : ChangeTrace) (id : Uuid)
      → built ≡ ok t
      → (has_duplicates t.payload.evidence_ids ≡ false)
        × (has_duplicates t.payload.source_ids ≡ false)
        × (contains t.payload.evidence_ids id
            ≡ (contains (evidence_ids_of earlier) id || contains (evidence_ids_of later) id))
        × (contains t.payload.source_ids id
            ≡ (contains (source_ids_of earlier) id || contains (source_ids_of later) id))
  unfolding trace_payload
  trace_cites t id h =
      let (subject, c, same) = trace_sound t h in
      let all_ids = map (λ (e : ClaimEvidence). e.id) (earlier.evidence ++ later.evidence) in
      let all_sources =
        map (λ (e : ClaimEvidence). e.source_id) (earlier.evidence ++ later.evidence) in
      subst
        (λ (z : ChangeTrace).
          (has_duplicates z.payload.evidence_ids ≡ false)
          × (has_duplicates z.payload.source_ids ≡ false)
          × (contains z.payload.evidence_ids id
              ≡ (contains (evidence_ids_of earlier) id || contains (evidence_ids_of later) id))
          × (contains z.payload.source_ids id
              ≡ (contains (source_ids_of earlier) id || contains (source_ids_of later) id)))
        (sym same)
        (
          has_duplicates-ordered_unique all_ids,
          has_duplicates-ordered_unique all_sources,
          contains-ordered_unique all_ids id ∙ ids_split id earlier.evidence later.evidence,
          contains-ordered_unique all_sources id ∙ sources_split id earlier.evidence later.evidence,
        )
