-- ===== src/Domain/Contracts/Laws.antt =====
-- packages/domain/contracts.py: what the validators of a claim let through.
use civic_intel.Prelude.{
  ◌≤◌, ◌≡◌, refl, ◌≢◌, ◌↔◌, true, false, Option, none, some, arith, nat_eq, string_eq, bool_eq,
  option_eq, pair_eq, ◌>>◌, raise_if, ok,
}
use civic_intel.Prelude.Texts.{blank, truthy}
use civic_intel.Domain.Enums.{EpistemicStatus, epistemic_status_eq}
use civic_intel.Domain.Contracts.Base.{Time, field_error, precedes, ordered_intervals}
use civic_intel.Domain.Contracts.Evidence.{
  Claim, is_none, exactly_one_subject, publication_semantics, validate_claim,
}

-- No interval ends before it starts.
abbrev pub EndsAfter : Option Time → Time → Type 0
EndsAfter none start = Unit
EndsAfter (some t) start = start ≤ t

pub record IsWellFormed (c : Claim) : Type 0 where
  pub proposition : blank c.proposition ≡ false
  pub subject : blank c.subject ≡ false
  pub predicate : blank c.predicate ≡ false
  pub object_text : blank c.object_text ≡ false
  pub valid_interval : EndsAfter c.valid_to c.valid_from
  pub recorded_interval : EndsAfter c.superseded_at c.recorded_at
  pub one_subject : is_none c.person_id ≢ is_none c.organization_id
  pub fact_asserted : c.epistemic_status ≡ EpistemicStatus.fact → c.asserted_as_true ≡ true
  pub unknown_unasserted : c.epistemic_status ≡ EpistemicStatus.unknown → c.asserted_as_true ≡ false
  pub unknown_noted : c.epistemic_status ≡ EpistemicStatus.unknown → truthy c.resolution_note ≡ true

ends_after : (o : Option Time) (start : Time) → precedes o start ≡ false → EndsAfter o start
ends_after none start h = tt
ends_after (some t) start h = ground arith

not_precedes : (o : Option Time) (start : Time) → EndsAfter o start → precedes o start ≡ false
not_precedes none start h = refl
not_precedes (some t) start h = ground arith

module _ (c : Claim) where
  IsWellFormed-of_valid : validate_claim c ≡ ok tt → IsWellFormed c
  unfolding validate_claim
  IsWellFormed-of_valid h = record {
    proposition = ground arith;
    subject = ground arith;
    predicate = ground arith;
    object_text = ground arith;
    valid_interval = ends_after c.valid_to c.valid_from (ground arith);
    recorded_interval = ends_after c.superseded_at c.recorded_at (ground arith);
    one_subject = λ e. ground (arith, e);
    fact_asserted = λ e. ground (arith, e);
    unknown_unasserted = λ e. ground (arith, e);
    unknown_noted = λ e. ground (arith, e);
  }

  validate_claim_lem : validate_claim c ≡ (do
    raise_if (blank c.proposition) (field_error "proposition")
    raise_if (blank c.subject) (field_error "subject")
    raise_if (blank c.predicate) (field_error "predicate")
    raise_if (blank c.object_text) (field_error "object_text")
    ordered_intervals c.temporal
    exactly_one_subject c
    publication_semantics c)
  unfolding validate_claim
  validate_claim_lem = refl

  intervals_in_order : IsWellFormed c → ordered_intervals c.temporal ≡ ok tt
  unfolding ordered_intervals
  intervals_in_order w =
      simp (not_precedes _ _ w.valid_interval, not_precedes _ _ w.recorded_interval)

  has_one_subject : IsWellFormed c → exactly_one_subject c ≡ ok tt
  unfolding exactly_one_subject
  has_one_subject w = ground (arith, w.one_subject)

  has_semantics : IsWellFormed c → publication_semantics c ≡ ok tt
  unfolding publication_semantics
  has_semantics w = grind (arith, w.fact_asserted, w.unknown_unasserted, w.unknown_noted)

  valid_of_well_formed : IsWellFormed c → validate_claim c ≡ ok tt
  valid_of_well_formed w =
      let kept = intervals_in_order w in
      let one = has_one_subject w in
      let said = has_semantics w in rw validate_claim_lem (ground (arith, kept, one, said))

  -- A claim can be constructed exactly when its texts are not empty, its intervals are in order, it
  -- has one subject, a FACT is asserted as true, and an UNKNOWN is not asserted and has a note.
  pub validate_claim-IsWellFormed : (validate_claim c ≡ ok tt) ↔ IsWellFormed c
  validate_claim-IsWellFormed = (IsWellFormed-of_valid, valid_of_well_formed)
