-- ===== src/Verification/CrossLane/Evidence.antt =====
-- packages/verification/cross_lane_identity.py: what evidence and birth dates say of two candidates.
use civic_intel.Prelude.{
  String, ◌≡◌, refl, sym, ap, ◌↔◌, false, Option, none, some, List, [], ◌∷◌, arith, string_eq,
  bool_eq, nat_eq, option_eq, pair_eq, list_eq, All, !=_iff, ok,
}
use civic_intel.Prelude.Texts.{Unicode}
use civic_intel.Domain.Enums.{CrossLaneIdentityEvidenceType, cross_lane_identity_evidence_type_eq}
use civic_intel.Domain.Contracts.Base.{Date}
use civic_intel.Prelude.Texts.{strip}
use civic_intel.Verification.Identity.{IdentityCandidate}
use civic_intel.Verification.CrossLane.{
  CrossLaneIdentityEvidence, validate_evidence, validate_external_id, validate_birth_dates,
  conflict_of_birth,
}

module _ (u : Unicode) where
  abbrev pub Valid : IdentityCandidate → IdentityCandidate → CrossLaneIdentityEvidence → Type 0
  Valid a b e = validate_evidence u a b e ≡ ok tt

  -- Both birth dates are known, and the same.
  abbrev pub SameBirth : Option Date → Option Date → Type 0
  SameBirth x y = (d : Date) × (x ≡ some d) × (y ≡ some d)

  -- Both identifiers are there, and the same up to letter case and the white space around them.
  abbrev pub SameExternal : Option String → Option String → Type 0
  SameExternal x y =
      (l : String) × (r : String) × (x ≡ some l)
      × (y ≡ some r)
      × (u.casefold (strip l) ≡ u.casefold (strip r))

  -- The evidence holds of the two candidates: what it says of birth dates and external identifiers.
  pub record Fits (a b : IdentityCandidate) (e : CrossLaneIdentityEvidence) : Type 0 where
    pub same_birth :
        e.evidence_type ≡ CrossLaneIdentityEvidenceType.exact_birth_date
        → SameBirth a.birth_date b.birth_date
    pub same_external :
        e.evidence_type ≡ CrossLaneIdentityEvidenceType.external_id
        → SameExternal e.left_value e.right_value

  SameBirth-sound : (x y : Option Date) → validate_birth_dates u x y ≡ ok tt → SameBirth x y
  unfolding validate_birth_dates
  SameBirth-sound none y h = cc
  SameBirth-sound (some d) none h = cc
  SameBirth-sound (some d) (some d') h =
      (d, refl, ap some (sym ((!=_iff d d').0 (ground (arith, h)))))

  SameBirth-complete : (x y : Option Date) → SameBirth x y → validate_birth_dates u x y ≡ ok tt
  unfolding validate_birth_dates
  SameBirth-complete x y (d, one, two) =
      rw (one, two, validate_birth_dates, (!=_iff d d).1 refl) refl

  SameExternal-sound : (x y : Option String) → validate_external_id u x y ≡ ok tt → SameExternal x y
  unfolding validate_external_id
  SameExternal-sound none y h = cc
  SameExternal-sound (some l) none h = cc
  SameExternal-sound (some l) (some r) h = (
    l,
    r,
    refl,
    refl,
    (!=_iff (u.casefold (strip l)) (u.casefold (strip r))).0 (ground (arith, h)),
  )

  SameExternal-complete :
      (x y : Option String) → SameExternal x y → validate_external_id u x y ≡ ok tt
  unfolding validate_external_id
  SameExternal-complete x y (l, r, one, two, same) =
      rw (one, two, validate_external_id, (!=_iff _ _).1 same) refl

  Fits-sound : (a b : IdentityCandidate) (e : CrossLaneIdentityEvidence) → Valid a b e → Fits a b e
  unfolding validate_evidence
  Fits-sound a b e h = record {
    same_birth = λ t. SameBirth-sound a.birth_date b.birth_date (rw t at h);
    same_external = λ t. SameExternal-sound e.left_value e.right_value (rw t at h);
  }

  Fits-complete :
      (a b : IdentityCandidate) (e : CrossLaneIdentityEvidence) → Fits a b e → Valid a b e
  unfolding validate_evidence
  Fits-complete a b e f = of_type e.evidence_type refl
    where
      of_type : (t : CrossLaneIdentityEvidenceType) → e.evidence_type ≡ t → Valid a b e
      of_type CrossLaneIdentityEvidenceType.exact_birth_date q =
          rw q (SameBirth-complete a.birth_date b.birth_date (f.same_birth q))
      of_type CrossLaneIdentityEvidenceType.external_id q =
          rw q (SameExternal-complete e.left_value e.right_value (f.same_external q))
      of_type CrossLaneIdentityEvidenceType.official_career_continuity q = rw q refl
      of_type CrossLaneIdentityEvidenceType.official_biography_continuity q = rw q refl

  pub all_Fits :
      (a b : IdentityCandidate) (es : List CrossLaneIdentityEvidence)
      → All (Valid a b) es
      → All (Fits a b) es
  all_Fits a b [] v = tt
  all_Fits a b (e ∷ es) v = (Fits-sound a b e v.0, all_Fits a b es v.1)

  pub all_Valid :
      (a b : IdentityCandidate) (es : List CrossLaneIdentityEvidence)
      → All (Fits a b) es
      → All (Valid a b) es
  all_Valid a b [] v = tt
  all_Valid a b (e ∷ es) v = (Fits-complete a b e v.0, all_Valid a b es v.1)

  -- Birth dates that are both known are the same.
  abbrev pub BirthsAgree : Option Date → Option Date → Type 0
  BirthsAgree (some d) (some d') = d ≡ d'
  BirthsAgree (some d) none = Unit
  BirthsAgree none y = Unit

  pub births_iff : (x y : Option Date) → (conflict_of_birth u x y ≡ false) ↔ BirthsAgree x y
  births_iff (some d) (some d') = !=_iff d d'
  births_iff (some d) none = (λ h. tt, λ h. refl)
  births_iff none y = (λ h. tt, λ h. refl)
