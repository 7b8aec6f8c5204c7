-- ===== src/Verification/Identity/Symmetry.antt =====
-- packages/verification/identity.py: which of the two is observed does not matter.
use civic_intel.Prelude.{
  String, ◌≡◌, refl, inl, inr, Option, none, some, List, arith, Bool-cases, nat_eq, string_eq,
  bool_eq, ==-comm, option_eq, pair_eq, length, overlaps, overlaps_comm, length-intersection_comm,
}
use civic_intel.Prelude.Texts.{Unicode}
use civic_intel.Domain.Contracts.Base.{Date}
use civic_intel.Verification.Identity.{
  IdentityCandidate, IdentityDecision, Context, names, compare_context, anchor_overlap,
  resolve_by_context, resolve_by_birth, resolve_identity,
}

-- The verdict of two decisions, whatever their reasons.
pub record SameVerdict (d d' : IdentityDecision) : Type 0 where
  pub status : d.status ≡ d'.status
  pub decision_class : d.decision_class ≡ d'.decision_class

module _ (u : Unicode) where
  compare_context_comm : (l r : Option String) → compare_context u l r ≡ compare_context u r l
  unfolding compare_context
  compare_context_comm none none = refl
  compare_context_comm none (some r) = refl
  compare_context_comm (some l) none = refl
  compare_context_comm (some l) (some r) = ground (arith, ==-comm (u.casefold l) (u.casefold r))

  length-anchor_overlap_comm :
      (a b : IdentityCandidate) → length (anchor_overlap u a b) ≡ length (anchor_overlap u b a)
  unfolding anchor_overlap
  length-anchor_overlap_comm a b = length-intersection_comm _ _

  verdict_by_length :
      (office organization : Context) (xs ys : List String)
      → length xs ≡ length ys
      → SameVerdict
          (resolve_by_context u office organization xs)
          (resolve_by_context u office organization ys)
  unfolding resolve_by_context
  verdict_by_length office organization xs ys h = ground arith

  by_context_comm :
      (a b : IdentityCandidate)
      → SameVerdict
          (resolve_by_context u
            (compare_context u a.office b.office)
            (compare_context u a.organization b.organization)
            (anchor_overlap u a b))
          (resolve_by_context u
            (compare_context u b.office a.office)
            (compare_context u b.organization a.organization)
            (anchor_overlap u b a))
  by_context_comm a b =
      rw
        (compare_context_comm a.office b.office, compare_context_comm a.organization b.organization)
        (verdict_by_length _ _ _ _ (length-anchor_overlap_comm a b))

  by_birth_comm :
      (a b : IdentityCandidate) (x y : Option Date)
      → SameVerdict (resolve_by_birth u a b x y) (resolve_by_birth u b a y x)
  unfolding resolve_by_birth
  by_birth_comm a b (some x) (some y) = ground (arith, ==-comm x y)
  by_birth_comm a b (some x) none = by_context_comm a b
  by_birth_comm a b none (some y) = by_context_comm a b
  by_birth_comm a b none none = by_context_comm a b

  -- Observed and candidate can be exchanged: the status and the class of the decision stay.
  pub resolve_identity_comm :
      (a b : IdentityCandidate) → SameVerdict (resolve_identity u a b) (resolve_identity u b a)
  unfolding resolve_identity
  resolve_identity_comm a b =
      let same = overlaps_comm (names u a) (names u b) in
      elim (Bool-cases (overlaps (names u b) (names u a))) [
        | inl t ↦ rw (same, t) (by_birth_comm a b a.birth_date b.birth_date)
        | inr t ↦ rw (same, t) (record { status = refl; decision_class = refl })
      ]
