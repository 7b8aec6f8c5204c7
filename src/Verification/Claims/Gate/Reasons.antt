-- ===== src/Verification/Claims/Gate/Reasons.antt =====
-- packages/verification/claims.py: the reason behind each failure that the gate reports.
use civic_intel.Prelude.{
  ◌≡◌, refl, sym, ap, subst, ◌∙◌, ◌≢◌, ◌⊎◌, inl, inr, Bool, true, false, not, ◌&&◌, Option, none,
  some, List, [], ◌∷◌, ◌++◌, arith, Bool-cases, ◌==◌, ◌!=◌, string_eq, bool_eq, nat_eq, eq_of_==,
  option_eq, pair_eq, list_eq, is_empty, keep, Exists, In, !=_iff,
}
use civic_intel.Prelude.Texts.{Unicode, truthy}
use civic_intel.Prelude.Dict.{Dict, lookup}
use civic_intel.Domain.Enums.{
  EpistemicStatus, PublicationStatus, IdentityStatus, epistemic_status_eq, evidence_stance_eq,
  publication_status_eq, identity_status_eq,
}
use civic_intel.Domain.Contracts.Base.{Uuid}
use civic_intel.Domain.Contracts.Evidence.{
  Person, Organization, Source, SourcePolicy, Claim, ClaimEvidence, is_none,
}
use civic_intel.Verification.Claims.Atomic.{is_atomic}
use civic_intel.Verification.Claims.Failures.{
  Failure, failure_eq, claim_not_marked_for_publication, claim_person_subject_mismatch,
  identity_not_resolved, claim_organization_subject_mismatch, organization_not_current,
  claim_subject_missing, claim_not_atomic, unknown_cannot_be_asserted_as_true,
  unknown_requires_resolution_note, fact_requires_support, fact_requires_explicit_assertion,
  evidence_source_missing, source_policy_prohibits_publication,
}
use civic_intel.Verification.Claims.Gate.{
  Subject, person, organization, fail_if, subject_failures, unknown_failures, evidence_of, supports,
  fact_failures, denied, evidence_item_failures, evidence_failures, all_failures,
}
use civic_intel.Verification.Claims.Gate.Spec.{
  Supports, CitableFrom, supported_complete, citable_complete,
}

-- Why the gate reports a failure.
pub data Reason (u : Unicode) (c : Claim) (subject : Subject) (evidence : List ClaimEvidence)
    (sources : Dict Uuid Source) (policies : Dict Uuid SourcePolicy) : Failure → Type 0 where
  unmarked :
      c.publication_status ≢ PublicationStatus.published
      → Reason u c subject evidence sources policies claim_not_marked_for_publication
  not_a_person :
      (id : Uuid) (o : Organization)
      → c.person_id ≡ some id
      → subject ≡ organization o
      → Reason u c subject evidence sources policies claim_person_subject_mismatch
  other_person :
      (id : Uuid) (p : Person)
      → c.person_id ≡ some id
      → subject ≡ person p
      → p.id ≢ id
      → Reason u c subject evidence sources policies claim_person_subject_mismatch
  unresolved :
      (p : Person)
      → c.person_id ≡ some p.id
      → subject ≡ person p
      → p.identity_status ≢ IdentityStatus.resolved
      → Reason u c subject evidence sources policies identity_not_resolved
  not_an_organization :
      (id : Uuid) (p : Person)
      → c.person_id ≡ none
      → c.organization_id ≡ some id
      → subject ≡ person p
      → Reason u c subject evidence sources policies claim_organization_subject_mismatch
  other_organization :
      (id : Uuid) (o : Organization)
      → c.person_id ≡ none
      → c.organization_id ≡ some id
      → subject ≡ organization o
      → o.id ≢ id
      → Reason u c subject evidence sources policies claim_organization_subject_mismatch
  superseded :
      (o : Organization)
      → c.person_id ≡ none
      → c.organization_id ≡ some o.id
      → subject ≡ organization o
      → o.superseded_at ≢ none
      → Reason u c subject evidence sources policies organization_not_current
  of_nobody :
      c.person_id ≡ none
      → c.organization_id ≡ none
      → Reason u c subject evidence sources policies claim_subject_missing
  compound :
      is_atomic u c.proposition ≡ false
      → Reason u c subject evidence sources policies claim_not_atomic
  asserted_unknown :
      c.epistemic_status ≡ EpistemicStatus.unknown
      → c.asserted_as_true ≡ true
      → Reason u c subject evidence sources policies unknown_cannot_be_asserted_as_true
  unnoted :
      c.epistemic_status ≡ EpistemicStatus.unknown
      → truthy c.resolution_note ≡ false
      → Reason u c subject evidence sources policies unknown_requires_resolution_note
  unsupported :
      c.epistemic_status ≡ EpistemicStatus.fact
      → ¬ Exists (Supports c) evidence
      → Reason u c subject evidence sources policies fact_requires_support
  unasserted :
      c.epistemic_status ≡ EpistemicStatus.fact
      → c.asserted_as_true ≡ false
      → Reason u c subject evidence sources policies fact_requires_explicit_assertion
  unsourced :
      (e : ClaimEvidence)
      → In e evidence
      → e.claim_id ≡ c.id
      → lookup e.source_id sources ≡ none
      → Reason u c subject evidence sources policies evidence_source_missing
  prohibited :
      (e : ClaimEvidence) (source : Source)
      → In e evidence
      → e.claim_id ≡ c.id
      → lookup e.source_id sources ≡ some source
      → ¬ CitableFrom policies e (some source)
      → Reason u c subject evidence sources policies source_policy_prohibits_publication

pub In-left : {A : Type 0} (a : A) (xs ys : List A) → In a xs → In a (xs ++ ys)
In-left a [] ys i = elim i [ ]
In-left a (x ∷ xs) ys (inl e) = inl e
In-left a (x ∷ xs) ys (inr i) = inr (In-left a xs ys i)

pub In-right : {A : Type 0} (a : A) (xs ys : List A) → In a ys → In a (xs ++ ys)
In-right a [] ys i = i
In-right a (x ∷ xs) ys i = inr (In-right a xs ys i)

In-split : {A : Type 0} (a : A) (xs ys : List A) → In a (xs ++ ys) → In a xs ⊎ In a ys
In-split a [] ys i = inr i
In-split a (x ∷ xs) ys (inl e) = inl (inl e)
In-split a (x ∷ xs) ys (inr i) = elim (In-split a xs ys i) [ inl j ↦ inl (inr j) | inr j ↦ inr j ]

-- A failure of a test is there exactly when the test is true.
failed : (t : Bool) (g f : Failure) → In f (fail_if t g) → (t ≡ true) × (g ≡ f)
failed true g f (inl e) = (refl, e)
failed true g f (inr i) = elim i [ ]
failed false g f i = elim i [ ]

pub fails : (t : Bool) (g : Failure) → t ≡ true → In g (fail_if t g)
fails true g h = inl refl
fails false g h = cc

not_empty : {A : Type 0} (a : A) (xs : List A) → In a xs → ¬ (is_empty xs ≡ true)
not_empty a [] i h = i
not_empty a (x ∷ xs) i h = cc

module _ (u : Unicode) (c : Claim) (subject : Subject) (evidence : List ClaimEvidence)
    (sources : Dict Uuid Source) (policies : Dict Uuid SourcePolicy) where
  abbrev Because : Failure → Type 0
  Because = Reason u c subject evidence sources policies

  because : (g f : Failure) → g ≡ f → Because g → Because f
  because g f e r = subst Because e r

  unknown-Because : (f : Failure) → In f (unknown_failures c) → Because f
  unfolding unknown_failures
  unknown-Because f i = elim (Bool-cases (c.epistemic_status == EpistemicStatus.unknown)) [
    | inr t ↦ elim (rw t at i) [ ]
    | inl t ↦
        elim (In-split f (fail_if c.asserted_as_true unknown_cannot_be_asserted_as_true) _
          (rw t at i)) [
            | inl j ↦
                let (asserted, same) = failed c.asserted_as_true _ f j in
                because _ f same (asserted_unknown (eq_of_== _ _ t) asserted)
            | inr j ↦
                let (blank_note, same) = failed (not (truthy c.resolution_note)) _ f j in
                because _ f same (unnoted (eq_of_== _ _ t) (ground (arith, blank_note)))
          ]
  ]

  fact-Because : (f : Failure) → In f (fact_failures c (evidence_of c evidence)) → Because f
  unfolding fact_failures
  fact-Because f i =
      let own = evidence_of c evidence in
      let is_fact = c.epistemic_status == EpistemicStatus.fact in
      elim (In-split f (fail_if (is_fact && is_empty (keep supports own)) fact_requires_support) _
        i) [
          | inl j ↦
              let (bare, same) = failed (is_fact && is_empty (keep supports own)) _ f j in
              because _ f same (
                unsupported (eq_of_== _ _ (ground (arith, bare)))
                  (λ s. ground (arith, bare, supported_complete c evidence s)))
          | inr j ↦
              let (bare, same) = failed (is_fact && not c.asserted_as_true) _ f j in
              because _ f same
                (unasserted (eq_of_== _ _ (ground (arith, bare))) (ground (arith, bare)))
        ]

  subject-Because :
      (a b : Option Uuid) (s : Subject) (f : Failure)
      → c.person_id ≡ a
      → c.organization_id ≡ b
      → subject ≡ s
      → In f (subject_failures a b s)
      → Because f
  unfolding subject_failures
  subject-Because none none s f p q r (inl e) = because _ f e (of_nobody p q)
  subject-Because none none s f p q r (inr i) = elim i [ ]
  subject-Because (some id) b (organization o) f p q r (inl e) =
      because _ f e (not_a_person id o p r)
  subject-Because (some id) b (organization o) f p q r (inr i) = elim i [ ]
  subject-Because none (some id) (person x) f p q r (inl e) =
      because _ f e (not_an_organization id x p q r)
  subject-Because none (some id) (person x) f p q r (inr i) = elim i [ ]
  subject-Because (some id) b (person x) f p q r i = elim (Bool-cases (x.id != id)) [
    | inl t ↦ elim (rw t at i) [
      | inl e ↦ because _ f e (other_person id x p r (λ same. ground (arith, t, same)))
      | inr j ↦ elim j [ ]
    ]
    | inr t ↦
        let (open_identity, e) =
          failed (x.identity_status != IdentityStatus.resolved) _ f (rw t at i) in
        because _ f e (
          unresolved x (p ∙ ap some (sym ((!=_iff x.id id).0 t))) r
            (λ same. ground (arith, open_identity, same)))
  ]
  subject-Because none (some id) (organization o) f p q r i = elim (Bool-cases (o.id != id)) [
    | inl t ↦ elim (rw t at i) [
      | inl e ↦ because _ f e (other_organization id o p q r (λ same. ground (arith, t, same)))
      | inr j ↦ elim j [ ]
    ]
    | inr t ↦
        let (gone, e) = failed (not (is_none o.superseded_at)) _ f (rw t at i) in
        because _ f e (
          superseded o p (q ∙ ap some (sym ((!=_iff o.id id).0 t))) r
            (λ same. ground (arith, gone, same)))
  ]

  pub item_missing :
      (e : ClaimEvidence)
      → lookup e.source_id sources ≡ none
      → evidence_item_failures sources policies e ≡ evidence_source_missing ∷ []
  unfolding evidence_item_failures
  item_missing e q = rw (q, evidence_item_failures) refl

  pub item_known :
      (e : ClaimEvidence) (source : Source)
      → lookup e.source_id sources ≡ some source
      → evidence_item_failures sources policies e
        ≡ fail_if (denied sources policies source e) source_policy_prohibits_publication
  unfolding evidence_item_failures
  item_known e source q = rw (q, evidence_item_failures) refl

  item-Because :
      (e : ClaimEvidence) (source : Option Source) (f : Failure)
      → In e evidence
      → e.claim_id ≡ c.id
      → lookup e.source_id sources ≡ source
      → In f (evidence_item_failures sources policies e)
      → Because f
  item-Because e none f within own q i = elim (subst (In f) (item_missing e q) i) [
    | inl same ↦ because _ f same (unsourced e within own q)
    | inr j ↦ elim j [ ]
  ]
  item-Because e (some source) f within own q i =
      because _ f (failed _ _ f (subst (In f) (item_known e source q) i)).1 (
        prohibited e source within own q
          (λ k. not_empty f _ i (citable_complete sources policies c e (some source) q k)))

  evidence-Because :
      (es : List ClaimEvidence) (f : Failure)
      → ((e : ClaimEvidence) → In e es → In e evidence)
      → In f (evidence_failures sources policies (evidence_of c es))
      → Because f
  unfolding evidence_failures evidence_of
  evidence-Because [] f within i = elim i [ ]
  evidence-Because (e ∷ es) f within i = elim (Bool-cases (e.claim_id == c.id)) [
    | inr t ↦ evidence-Because es f (λ x j. within x (inr j)) (rw t at i)
    | inl t ↦ elim (In-split f (evidence_item_failures sources policies e) _ (rw t at i)) [
      | inl j ↦ item-Because e _ f (within e (inl refl)) (eq_of_== _ _ t) refl j
      | inr j ↦ evidence-Because es f (λ x k. within x (inr k)) j
    ]
  ]

  pub raised-Because :
      (f : Failure) → In f (all_failures u c subject evidence sources policies) → Because f
  unfolding all_failures
  raised-Because f i =
      elim (In-split f
        (fail_if (c.publication_status != PublicationStatus.published)
          claim_not_marked_for_publication)
        _ i) [
          | inl j ↦
              let (bare, e) = failed (c.publication_status != PublicationStatus.published) _ f j in
              because _ f e (unmarked (λ same. ground (arith, bare, same)))
          | inr i1 ↦
              elim (In-split f (subject_failures c.person_id c.organization_id subject) _ i1) [
                | inl j ↦ subject-Because c.person_id c.organization_id subject f refl refl refl j
                | inr i2 ↦
                    elim (In-split f (fail_if (not (is_atomic u c.proposition)) claim_not_atomic) _
                      i2) [
                        | inl j ↦
                            let (bare, e) = failed (not (is_atomic u c.proposition)) _ f j in
                            because _ f e (compound (ground (arith, bare)))
                        | inr i3 ↦ elim (In-split f (unknown_failures c) _ i3) [
                          | inl j ↦ unknown-Because f j
                          | inr i4 ↦
                              elim (In-split f (fact_failures c (evidence_of c evidence)) _ i4) [
                                | inl j ↦ fact-Because f j
                                | inr j ↦ evidence-Because evidence f (λ x k. k) j
                              ]
                        ]
                      ]
              ]
        ]
