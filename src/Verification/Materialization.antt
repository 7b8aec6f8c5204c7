-- ===== src/Verification/Materialization.antt =====
-- packages/verification/materialization.py: what becomes of an observed roster record.
pub mod Laws
use civic_intel.Prelude.{
  String, Bool, false, not, ◌&&◌, Option, none, some, List, [], ◌∷◌, ltb, if◌then◌else◌, ◌==◌, ◌!=◌,
  string_eq, bool_eq, nat_eq, coded_eq, option_eq, pair_eq, length, any, Result, ◌>>=◌, ◌>>◌, ok,
  err,
}
use civic_intel.Prelude.Texts.{Unicode}
use civic_intel.Prelude.Dict.{Dict, lookup, insert}
use civic_intel.Domain.Enums.{MaterializationAction, MaterializationDecisionClass}
use civic_intel.Domain.Contracts.Base.{
  Uuid, Date, Json, null, boolean, number, negative, text, array, object,
}
use civic_intel.Domain.Contracts.Evidence.{Person}
use civic_intel.Domain.Contracts.Collection.{FeederObservation, MaterializationDecision}

-- The exceptions of reading the observed birth date.
pub data BirthDateError : Type 0 where
  not_a_date_string invalid_date : BirthDateError

birth_date_of_value : Unicode → Option Json → Result BirthDateError (Option Date)
birth_date_of_value u none = ok none
birth_date_of_value u (some null) = ok none
birth_date_of_value u (some (text s)) = elim (u.date_from_iso s) [
  | none ↦ err invalid_date
  | some d ↦ ok (some d)
]
birth_date_of_value u (some other) = err not_a_date_string

-- `_observation_birth_date`
unfoldable pub observation_birth_date :
    Unicode → FeederObservation → Result BirthDateError (Option Date)
unfolding birth_date_of_value
observation_birth_date u o = birth_date_of_value u (lookup "birth_date" o.normalized)

-- `{item.id: item for item in people}`: the place of the first, the value of the last.
collect : Dict Uuid Person → List Person → Dict Uuid Person
collect d [] = d
collect d (p ∷ ps) = collect (insert p.id p d) ps

unfoldable pub by_id : List Person → Dict Uuid Person
unfolding collect
by_id = collect []

-- Both birth dates are known, and differ.
abbrev pub births_differ : Option Date → Option Date → Bool
births_differ (some d) (some d') = d != d'
births_differ (some d) none = false
births_differ none d = false

abbrev pub decide_to :
    MaterializationAction
    → MaterializationDecisionClass
    → Option Uuid
    → String
    → MaterializationDecision
decide_to action decision_class candidate reason = record {
  action = action;
  decision_class = decision_class;
  candidate_person_id = candidate;
  reasons = reason ∷ [];
}

-- `if unique_linked:` with the one person that the provider identity is linked to.
unfoldable pub decide_linked : Option Date → Person → MaterializationDecision
decide_linked observed p =
    if births_differ observed p.birth_date
    then decide_to MaterializationAction.hard_conflict
        MaterializationDecisionClass.exact_birth_date_conflict (some p.id)
        "provider_link_birth_date_conflict"
    else decide_to MaterializationAction.auto_link
        MaterializationDecisionClass.exact_provider_identity (some p.id)
        "exact_accepted_provider_identity"

-- The candidate of a same-name conflict is named only where it is the only one.
abbrev pub sole_id : List Person → Option Uuid
sole_id (p ∷ []) = some p.id
sole_id people = none

-- `if same_name_people: … ` and the creation behind it. `conflicts[0]` is the sole person where
-- there is one person of the name.
unfoldable pub decide_unlinked : Option Date → List Person → MaterializationDecision
decide_unlinked observed [] =
    decide_to MaterializationAction.auto_create
      MaterializationDecisionClass.authoritative_new_identity none
      "authoritative_roster_unique_provider_identity_and_name"
decide_unlinked observed (p ∷ ps) =
    let people = p ∷ ps in
    if any (λ (q : Person). births_differ observed q.birth_date) people
    then decide_to MaterializationAction.hard_conflict
        MaterializationDecisionClass.exact_birth_date_conflict (sole_id people)
        "same_name_exact_birth_date_conflict"
    else decide_to MaterializationAction.review_required
        MaterializationDecisionClass.same_name_ambiguity (sole_id people)
        "same_name_without_exact_provider_identity"

decide_by_links : Option Date → Dict Uuid Person → List Person → MaterializationDecision
decide_by_links observed [] same_name = decide_unlinked observed same_name
decide_by_links observed ((k, p) ∷ rest) same_name = decide_linked observed p

abbrev pub is_member_roster : FeederObservation → Bool
is_member_roster o =
    o.feeder == "national_assembly_members" && o.semantic_scope == "legislative_member_roster"

module _ (u : Unicode) where
  unfoldable pub decide_materialization :
      FeederObservation → List Person → List Person → Result BirthDateError MaterializationDecision
  unfolding decide_by_links
  decide_materialization o linked_people same_name_people =
      if not (is_member_roster o)
      then ok (
          decide_to MaterializationAction.review_required
            MaterializationDecisionClass.unsupported_feeder none
            "feeder_has_no_reviewed_automatic_materialization_rule")
      else if ltb 1 (length (by_id linked_people))
      then ok (
          decide_to MaterializationAction.hard_conflict
            MaterializationDecisionClass.provider_identity_conflict none
            "provider_identity_is_linked_to_multiple_people")
      else do
        observed ← observation_birth_date u o
        ok (decide_by_links observed (by_id linked_people) same_name_people)
