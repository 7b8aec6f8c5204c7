-- ===== src/Verification/Claims/Gate/Reported.antt =====
-- packages/verification/claims.py: the gate reports the failures that have a reason, and no other.
use civic_intel.Prelude.{
  ◌≡◌, refl, sym, ap, subst, ◌∙◌, ◌≢◌, ◌↔◌, inl, inr, Bool, true, false, not, ◌&&◌, Option, none,
  some, List, [], ◌∷◌, arith, Bool-cases, Eq, ◌==◌, ◌!=◌, string_eq, bool_eq, nat_eq, option_eq,
  pair_eq, list_eq, is_empty, keep, has_duplicates, ordered_unique, Exists, In, In-of_contains,
  contains_of_In, !=_iff, contains-ordered_unique, has_duplicates-ordered_unique,
}
use civic_intel.Prelude.Texts.{Unicode}
use civic_intel.Prelude.Dict.{Dict, lookup}
use civic_intel.Domain.Enums.{
  EpistemicStatus, PublicationStatus, IdentityStatus, epistemic_status_eq, evidence_stance_eq,
  publication_status_eq, identity_status_eq,
}
use civic_intel.Domain.Contracts.Base.{Uuid, Time}
use civic_intel.Domain.Contracts.Evidence.{Source, SourcePolicy, Claim, ClaimEvidence, is_none}
use civic_intel.Verification.Claims.Atomic.{is_atomic}
use civic_intel.Verification.Claims.Failures.{
  Failure, failure_eq, claim_not_marked_for_publication, claim_not_atomic,
  unknown_cannot_be_asserted_as_true, fact_requires_support, source_policy_prohibits_publication,
}
use civic_intel.Verification.Claims.Gate.{
  Subject, fail_if, subject_failures, unknown_failures, evidence_of, supports, fact_failures,
  denied, evidence_item_failures, evidence_failures, all_failures, validate_claim_publication,
}
use civic_intel.Verification.Claims.Gate.Spec.{
  CitableFrom, Supports, supported_sound, citable_sound,
}
use civic_intel.Verification.Claims.Gate.Reasons.{
  Reason, unmarked, not_a_person, other_person, unresolved, not_an_organization, other_organization,
  superseded, of_nobody, compound, asserted_unknown, unnoted, unsupported, unasserted, unsourced,
  prohibited, In-left, In-right, fails, item_missing, item_known, raised-Because,
}

differ : {A : Type 0} ⦃e : Eq A⦄ (a b : A) → a ≢ b → (a != b) ≡ true
differ a b k = elim (Bool-cases (a != b)) [ inl t ↦ t | inr t ↦ absurd (k ((!=_iff a b).0 t)) ]

not_none : (t : Option Time) → t ≢ none → is_none t ≡ false
not_none none k = absurd (k refl)
not_none (some t) k = refl

module _ (u : Unicode) (c : Claim) (subject : Subject) (evidence : List ClaimEvidence)
    (sources : Dict Uuid Source) (policies : Dict Uuid SourcePolicy) where
  abbrev raised : List Failure
  raised = all_failures u c subject evidence sources policies

  abbrev own : List ClaimEvidence
  own = evidence_of c evidence

  abbrev mark_failures : List Failure
  mark_failures =
      fail_if (c.publication_status != PublicationStatus.published) claim_not_marked_for_publication

  abbrev atomic_failures : List Failure
  atomic_failures = fail_if (not (is_atomic u c.proposition)) claim_not_atomic

  -- Where a failure of each part of the gate stands among all of them.
  by_subject :
      (f : Failure) → In f (subject_failures c.person_id c.organization_id subject) → In f raised
  unfolding all_failures
  by_subject f i = In-right f mark_failures _ (In-left f _ _ i)

  by_unknown : (f : Failure) → In f (unknown_failures c) → In f raised
  unfolding all_failures
  by_unknown f i = In-right f mark_failures _ (
      In-right f (subject_failures c.person_id c.organization_id subject) _
        (In-right f atomic_failures _ (In-left f _ _ i)))

  by_fact : (f : Failure) → In f (fact_failures c own) → In f raised
  unfolding all_failures
  by_fact f i = In-right f mark_failures _ (
      In-right f (subject_failures c.person_id c.organization_id subject) _
        (In-right f atomic_failures _ (In-right f (unknown_failures c) _ (In-left f _ _ i))))

  by_evidence : (f : Failure) → In f (evidence_failures sources policies own) → In f raised
  unfolding all_failures
  by_evidence f i = In-right f mark_failures _ (
      In-right f (subject_failures c.person_id c.organization_id subject) _ (
        In-right f atomic_failures _
          (In-right f (unknown_failures c) _ (In-right f (fact_failures c own) _ i))))

  item_raised :
      (es : List ClaimEvidence) (e : ClaimEvidence) (f : Failure)
      → In e es
      → e.claim_id ≡ c.id
      → In f (evidence_item_failures sources policies e)
      → In f (evidence_failures sources policies (evidence_of c es))
  unfolding evidence_failures evidence_of
  item_raised [] e f i same j = elim i [ ]
  item_raised (x ∷ es) e f i same j = elim (Bool-cases (x.claim_id == c.id)) [
    | inl t ↦ elim i [
      | inl q ↦ rw t (
          In-left f (evidence_item_failures sources policies x) _
            (subst (λ y. In f (evidence_item_failures sources policies y)) (sym q) j))
      | inr k ↦
          rw t
            (In-right f (evidence_item_failures sources policies x) _ (item_raised es e f k same j))
    ]
    | inr t ↦ elim i [
      | inl q ↦
          let other : x.claim_id ≡ c.id = ap (λ (y : ClaimEvidence). y.claim_id) q ∙ same in
          absurd (ground (arith, t, other))
      | inr k ↦ rw t (item_raised es e f k same j)
    ]
  ]

  prohibits :
      (e : ClaimEvidence) (source : Source)
      → lookup e.source_id sources ≡ some source
      → ¬ CitableFrom policies e (some source)
      → In source_policy_prohibits_publication (evidence_item_failures sources policies e)
  prohibits e source q k = elim (Bool-cases (denied sources policies source e)) [
    | inl t ↦
        subst (In source_policy_prohibits_publication)
          (sym (item_known u c subject evidence sources policies e source q)) (fails _ _ t)
    | inr t ↦ absurd (
        k (
          citable_sound sources policies c e (some source) q (
            ap is_empty (
              item_known u c subject evidence sources policies e source q
              ∙ ap (λ b. fail_if b source_policy_prohibits_publication) t))))
  ]

  bare :
      {b : Bool}
      → c.epistemic_status ≡ EpistemicStatus.fact
      → b ≡ true
      → (c.epistemic_status == EpistemicStatus.fact && b) ≡ true
  bare p q = rw (p, q) refl

  no_support : ¬ Exists (Supports c) evidence → is_empty (keep supports own) ≡ true
  no_support k = elim (Bool-cases (is_empty (keep supports own))) [
    | inl t ↦ t
    | inr t ↦ absurd (k (supported_sound c evidence t))
  ]

  raised_of : (f : Failure) → Reason u c subject evidence sources policies f → In f raised
  unfolding all_failures subject_failures unknown_failures fact_failures
  raised_of f (unmarked k) = In-left f mark_failures _ (fails _ _ (differ _ _ k))
  raised_of f (not_a_person id o p s) = by_subject f (rw (p, s, subject_failures) (inl refl))
  raised_of f (other_person id x p s k) =
      by_subject f (rw (p, s, subject_failures, differ x.id id k) (inl refl))
  raised_of f (unresolved x p s k) = by_subject f (
      rw
        (
          p,
          s,
          subject_failures,
          (!=_iff x.id x.id).1 refl,
          differ x.identity_status IdentityStatus.resolved k,
        )
        (inl refl))
  raised_of f (not_an_organization id x p q s) =
      by_subject f (rw (p, q, s, subject_failures) (inl refl))
  raised_of f (other_organization id o p q s k) =
      by_subject f (rw (p, q, s, subject_failures, differ o.id id k) (inl refl))
  raised_of f (superseded o p q s k) = by_subject f (
      rw (p, q, s, subject_failures, (!=_iff o.id o.id).1 refl, not_none o.superseded_at k)
        (inl refl))
  raised_of f (of_nobody p q) = by_subject f (rw (p, q, subject_failures) (inl refl))
  raised_of f (compound k) = In-right f mark_failures _ (
      In-right f (subject_failures c.person_id c.organization_id subject) _
        (In-left f atomic_failures _ (fails _ _ (ap not k))))
  raised_of f (asserted_unknown p q) = by_unknown f (rw (p, unknown_failures, q) (inl refl))
  raised_of f (unnoted p q) = by_unknown f (
      rw (p, unknown_failures)
        (In-right f (fail_if c.asserted_as_true unknown_cannot_be_asserted_as_true) _
          (fails _ _ (ap not q))))
  raised_of f (unsupported p k) = by_fact f (In-left f _ _ (fails _ _ (bare p (no_support k))))
  raised_of f (unasserted p q) = by_fact f (
      In-right f
        (fail_if (c.epistemic_status == EpistemicStatus.fact && is_empty (keep supports own))
          fact_requires_support)
        _ (fails _ _ (bare p (ap not q))))
  raised_of f (unsourced e i same q) = by_evidence f (
      item_raised evidence e f i same
        (subst (In f) (sym (item_missing u c subject evidence sources policies e q)) (inl refl)))
  raised_of f (prohibited e source i same q k) =
      by_evidence f (item_raised evidence e f i same (prohibits e source q k))

  -- The gate reports a failure exactly when there is a reason for it, and each failure once. The
  -- reasons: the claim is not marked for publication; its subject is not the person or organization
  -- that it names, the person is not resolved, the organization is superseded, or it names neither;
  -- its proposition is not atomic; it is UNKNOWN and asserted, or without a note; it is a FACT and
  -- unasserted, or without supporting evidence of its own; the source of a piece of its evidence is
  -- unknown, or may not be cited for it.
  pub failures_reported :
      (f : Failure)
      → (In f (validate_claim_publication u c subject evidence sources policies).failures
          ↔ Reason u c subject evidence sources policies f)
        × (has_duplicates
              (validate_claim_publication u c subject evidence sources policies).failures
            ≡ false)
  unfolding validate_claim_publication
  failures_reported f = (
    (
      λ i. raised-Because u c subject evidence sources policies f (
          In-of_contains f raised
            (sym (contains-ordered_unique raised f) ∙ contains_of_In f (ordered_unique raised) i)),
      λ r.
          In-of_contains f (ordered_unique raised)
            (contains-ordered_unique raised f ∙ contains_of_In f raised (raised_of f r)),
    ),
    has_duplicates-ordered_unique raised,
  )
