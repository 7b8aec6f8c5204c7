-- ===== src/Verification/Claims/Other.antt =====
-- packages/verification/claims.py: the gates of relationships, patterns and hypotheses.
use mathlib.Core.List.{flatten}
use civic_intel.Prelude.{
  ◌≤◌, String, ◌≡◌, refl, ap, ◌≢◌, ◌↔◌, inl, inr, Bool, true, false, ◌&&◌, ◌||◌, List, [], ◌∷◌,
  arith, ltb, if◌then◌else◌, Bool-cases, ◌==◌, ◌!=◌, nat_eq, string_eq, bool_eq, eq_of_==,
  option_eq, pair_eq, length, is_empty, keep, ordered_unique, Exists, TwoShared, two_values_iff,
}
use civic_intel.Prelude.Texts.{blank, strip}
use civic_intel.Domain.Enums.{
  RelationshipStrength, RelationshipEvidenceType, PublicationStatus, relationship_strength_eq,
  relationship_evidence_type_eq, publication_status_eq,
}
use civic_intel.Domain.Contracts.Profile.{Relationship, RelationshipEvidenceRef, Hypothesis}
use civic_intel.Verification.Claims.Failures.{
  Failure, GateResult, strong_relationship_requires_typed_evidence,
  pattern_requires_two_independent_episodes, hypothesis_requires_h0_and_falsifier,
}

abbrev pub passed : GateResult
passed = record { publishable = true; failures = [] }

abbrev pub refused : Failure → GateResult
refused f = record { publishable = false; failures = f ∷ [] }

-- Evidence of a type other than `CO_MENTION`.
abbrev pub is_typed : RelationshipEvidenceRef → Bool
is_typed e = e.evidence_type != RelationshipEvidenceType.co_mention

unfoldable pub validate_relationship : Relationship → GateResult
validate_relationship r =
    if r.strength == RelationshipStrength.strong && is_empty (keep is_typed r.evidence)
    then refused strong_relationship_requires_typed_evidence
    else passed

-- A set of origin identifiers is a list of them; the union counts each once.
unfoldable pub validate_pattern : List (List String) → GateResult
validate_pattern episodes =
    if ltb (length episodes) 2 || ltb (length (ordered_unique (flatten episodes))) 2
    then refused pattern_requires_two_independent_episodes
    else passed

unfoldable pub validate_hypothesis : Hypothesis → GateResult
validate_hypothesis h =
    if h.publication_status == PublicationStatus.published
      && (blank (strip h.ordinary_explanation) || blank (strip h.falsifier))
    then refused hypothesis_requires_h0_and_falsifier
    else passed

filled_ne : (s : String) → blank s ≡ false → s ≢ ""
filled_ne s h e = cc (ap blank e)

ne_filled : (s : String) → s ≢ "" → blank s ≡ false
ne_filled String.[] h = absurd (h refl)
ne_filled (String.◌∷◌ c s) h = refl

abbrev pub Typed : RelationshipEvidenceRef → Type 0
Typed e = e.evidence_type ≢ RelationshipEvidenceType.co_mention

Typed-sound :
    (es : List RelationshipEvidenceRef) → is_empty (keep is_typed es) ≡ false → Exists Typed es
Typed-sound [] h = cc
Typed-sound (e ∷ es) h = elim (Bool-cases (is_typed e)) [
  | inl t ↦ inl (λ q. ground (arith, t, q))
  | inr t ↦ inr (Typed-sound es (rw t at h))
]

Typed-complete :
    (es : List RelationshipEvidenceRef) → Exists Typed es → is_empty (keep is_typed es) ≡ false
Typed-complete [] h = elim h [ ]
Typed-complete (e ∷ es) h = elim (Bool-cases (is_typed e)) [
  | inl t ↦ rw t
  | inr t ↦ elim h [
    | inl q ↦ absurd (q (eq_of_== _ _ (ground (arith, t))))
    | inr q ↦ rw t (Typed-complete es q)
  ]
]

-- A relationship passes its gate exactly when, if it is strong, some evidence is of a type other
-- than a co-mention.
pub validate_relationship_lem :
    (r : Relationship)
    → ((validate_relationship r).publishable ≡ true)
      ↔ (r.strength ≡ RelationshipStrength.strong → Exists Typed r.evidence)
unfolding validate_relationship
validate_relationship_lem r = (
  λ h s. Typed-sound r.evidence (ground (arith, h, s)),
  λ k. elim (Bool-cases (r.strength == RelationshipStrength.strong)) [
    | inl t ↦ ground (arith, t, Typed-complete r.evidence (k (eq_of_== _ _ t)))
    | inr t ↦ ground (arith, t)
  ],
)

-- A pattern passes its gate exactly when it has two episodes at least and two different origins
-- among the origins of all its episodes, of whichever episodes these are.
pub validate_pattern_lem :
    (episodes : List (List String))
    → ((validate_pattern episodes).publishable ≡ true)
      ↔ ((2 ≤ length episodes) × TwoShared (flatten episodes) (flatten episodes))
unfolding validate_pattern
validate_pattern_lem episodes = (
  λ h. (ground (arith, h), (two_values_iff (flatten episodes)).0 (ground (arith, h))),
  λ k. let two = (two_values_iff (flatten episodes)).1 k.1 in ground (arith, two, k.0),
)

-- A hypothesis that is not marked for publication passes its gate, and a marked one passes exactly
-- when its ordinary explanation and its falsifier hold more than white space.
pub validate_hypothesis_lem :
    (h : Hypothesis)
    → ((validate_hypothesis h).publishable ≡ true) ↔ (
        h.publication_status ≡ PublicationStatus.published
        → (strip h.ordinary_explanation ≢ "") × (strip h.falsifier ≢ ""))
unfolding validate_hypothesis
validate_hypothesis_lem h = (
  λ g q. (λ e. filled_ne _ (ground (arith, g, q)) e, λ e. filled_ne _ (ground (arith, g, q)) e),
  λ k. elim (Bool-cases (h.publication_status == PublicationStatus.published)) [
    | inl t ↦
        let filled = k (eq_of_== _ _ t) in
        ground (arith, t, ne_filled _ filled.0, ne_filled _ filled.1)
    | inr t ↦ ground (arith, t)
  ],
)
