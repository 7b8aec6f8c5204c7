-- ===== src/Persistence/Materialize.antt =====
-- packages/persistence/repository.py: materialize_feeder_observation, which links an observation to
-- a person, creates one with a published claim, or asks for a review. A row whose key is taken is
-- refused by the database, as the integrity error. The order of unordered queries is that of the
-- tables, and a person that several links name is taken once, as the decision takes it.
pub mod Create
pub mod Linked
pub mod Laws
use civic_intel.Prelude.{
  ℕ, zero, suc, ◌+◌, ◌-◌, ◌*◌, ◌/◌, ◌%◌, ◌≤◌, ◌<◌, String, ◌≡◌, refl, sym, ap, subst, ◌∙◌, ◌≢◌, ◌↔◌,
  ◌⊎◌, inl, inr, Bool, true, false, not, ◌&&◌, ◌||◌, Option, none, some, List, [], ◌∷◌, ◌++◌, map,
  arith, ltb, leb, nat_beq, if◌then◌else◌, ltb→lt, lt→ltb, leb→le, nat_beq_iff, Bool-cases,
  Option-cases, Eq, ◌==◌, ◌!=◌, string_eq, bool_beq, bool_beq_iff, bool_eq, nat_eq, coded_eq,
  ==-refl, eq_of_==, ==-comm, option_beq, option_beq_iff, option_eq, pair_beq, pair_beq_iff,
  pair_eq, list_beq, list_beq_iff, list_eq, length, is_empty, any, all, keep, find_first, or_else,
  find_last, update_where, length-append, is_empty-append, is_empty-append_split, any-append,
  length-keep-le, contains, has_duplicates, overlaps, unseen, ordered_unique, contains-append,
  Result, ◌>>=◌, ◌>>◌, raise_if, raising, succeeds, >>=-eq-ok, ok-injective, past, Every,
  Every-bind, Result-cases, All, Exists, In, all_sound, all_complete, any_sound, any_complete,
  All-In, In-of_contains, contains_of_In, not_any_sound, not_any_complete, !=_iff, not-contains_iff,
  contains-unseen, has_duplicates-unseen, contains-ordered_unique, has_duplicates-ordered_unique,
  is_empty-ordered_unique, overlaps_comm, length-le_of_subset, contains-keep, has_duplicates-keep,
  intersection, length-intersection_comm, TwoShared, TwoShared-iff, two_values_iff, ok, err,
}
use civic_intel.Prelude.Texts.{Unicode, strip, blank}
use civic_intel.Prelude.Dict.{lookup}
use civic_intel.Domain.Enums.{
  EpistemicStatus, EvidenceStance, PublicationStatus, IdentityStatus, IdentityReviewStatus,
  identity_review_status_eq, MaterializationAction, MaterializationDecisionClass,
  materialization_action_value, materialization_decision_class_value,
}
use civic_intel.Domain.Contracts.Base.{
  Uuid, Time, Date, Json, text, array, Items, nil, cons, Metadata, Temporal,
}
use civic_intel.Domain.Contracts.Evidence.{
  Person, SourcePolicy, Source, SourceSnapshot, Claim, ClaimEvidence, is_none,
}
use civic_intel.Domain.Contracts.Collection.{
  FeederObservation, PersonObservationLink, IdentityReviewItem, MaterializationDecision,
}
use civic_intel.Verification.Materialization.{
  BirthDateError, decide_materialization, observation_birth_date,
}
use civic_intel.Verification.Claims.Gate.{Subject, person, validate_claim_publication}
use civic_intel.Persistence.Store.{Store}

pub data MaterializeError : Type 0 where
  database_not_ready observation_missing name_missing : MaterializeError
  birth_date_invalid : MaterializeError
  undecided : BirthDateError → MaterializeError
  link_without_person snapshot_missing source_missing policy_missing : MaterializeError
  gate_failed unsupported_action integrity : MaterializeError

-- The identifiers and times that the code draws.
pub record Fresh : Type 0 where
  pub person_id : Uuid
  pub claim_id : Uuid
  pub evidence_id : Uuid
  pub link_id : Uuid
  pub review_id : Uuid
  pub person_times : Time × Time
  pub claim_times : Time × Time
  pub linked_at : Time
  pub created_at : Time

pub record MaterializationResult : Type 0 where
  pub decision : MaterializationDecision
  pub person_id : Option Uuid
  pub claim_id : Option Uuid
  pub review_item_id : Option Uuid
  pub created : Bool

-- The value, or the error where there is none.
unfoldable pub required {ℓ} : {A : Type ℓ} → MaterializeError → Option A → Result MaterializeError A
required e none = err e
required e (some a) = ok a

-- `canonical_name`, where it is a text that holds more than white space.
unfoldable pub name_of : Option Json → Result MaterializeError String
unfolding strip
name_of (some (text s)) = if blank (strip s) then err name_missing else ok s
name_of other = err name_missing

abbrev pub known_birth_date {ℓ} : {A : Type ℓ} → Result BirthDateError A → Result MaterializeError A
known_birth_date (ok d) = ok d
known_birth_date (err e) = err birth_date_invalid

abbrev pub same_record : FeederObservation → FeederObservation → Bool
same_record o row =
    row.feeder == o.feeder
    && (row.scope_key == o.scope_key && row.provider_record_key == o.provider_record_key)

-- The people whom a link that is not superseded ties to the provider's record.
unfoldable pub linked_people : Store → FeederObservation → List Person
linked_people s o =
    keep
      (λ (p : Person).
        any
          (λ (l : PersonObservationLink).
            l.person_id == p.id
            && (is_none l.superseded_at
                && any
                    (λ (row : FeederObservation). row.id == l.observation_id && same_record o row)
                    s.observations))
          s.links)
      s.people

unfoldable pub same_name_people : Store → String → List Person
same_name_people s name =
    keep (λ (p : Person). p.canonical_name == name && is_none p.superseded_at) s.people

abbrev pub from_now : Time × Time → Temporal
from_now times = record {
  valid_from = times.0;
  valid_to = none;
  recorded_at = times.1;
  superseded_at = none;
}

json_texts : List String → Items
json_texts [] = nil
json_texts (s ∷ ss) = cons (text s) (json_texts ss)

unfoldable pub new_review : Fresh → FeederObservation → MaterializationDecision → IdentityReviewItem
unfolding json_texts
new_review fresh o d = record {
  id = fresh.review_id;
  observation_id = o.id;
  candidate_person_id = d.candidate_person_id;
  reason_code = materialization_decision_class_value d.decision_class;
  details =
      ("action", text (materialization_action_value d.action))
      ∷ ("feeder", text o.feeder)
      ∷ ("provider_record_key", text o.provider_record_key)
      ∷ ("reasons", array (json_texts d.reasons))
      ∷ [];
  status = IdentityReviewStatus.opened;
  created_at = fresh.created_at;
  resolved_at = none;
  resolution_note = none;
}

abbrev pub open_review : FeederObservation → MaterializationDecision → IdentityReviewItem → Bool
open_review o d r =
    r.observation_id == o.id
    && (r.reason_code == materialization_decision_class_value d.decision_class
        && r.status == IdentityReviewStatus.opened)

abbrev pub not_created : MaterializationDecision → Option Uuid → Option Uuid → MaterializationResult
not_created d person_id review_id = record {
  decision = d;
  person_id = person_id;
  claim_id = none;
  review_item_id = review_id;
  created = false;
}

-- The branch of a review or of a conflict.
unfoldable pub ask_review :
    Fresh
    → FeederObservation
    → MaterializationDecision
    → Store
    → Result MaterializeError (MaterializationResult × Store)
ask_review fresh o d s = elim (find_first (open_review o d) s.reviews) [
  | some r ↦ ok (not_created d none (some r.id), s)
  | none ↦ do
    raise_if (any (λ (r : IdentityReviewItem). r.id == fresh.review_id) s.reviews) integrity
    ok (
      not_created d none (some fresh.review_id),
      record s { reviews = s.reviews ++ new_review fresh o d ∷ [] },
    )
]

abbrev pub new_link :
    Fresh → FeederObservation → MaterializationDecision → Uuid → PersonObservationLink
new_link fresh o d person_id = record {
  id = fresh.link_id;
  person_id = person_id;
  observation_id = o.id;
  action = d.action;
  decision_class = d.decision_class;
  linked_at = fresh.linked_at;
  superseded_at = none;
  review_item_id = none;
}

abbrev pub links_pair : Uuid → FeederObservation → PersonObservationLink → Bool
links_pair person_id o l = l.person_id == person_id && l.observation_id == o.id

-- A link has a primary key, and no other link, superseded or not, has its person and observation.
abbrev pub link_refused : PersonObservationLink → FeederObservation → Store → Bool
link_refused new o s =
    any (λ (l : PersonObservationLink). l.id == new.id || links_pair new.person_id o l) s.links

-- The branch of an automatic link.
unfoldable pub link_person :
    Fresh
    → FeederObservation
    → MaterializationDecision
    → Store
    → Result MaterializeError (MaterializationResult × Store)
link_person fresh o d s = elim d.candidate_person_id [
  | none ↦ err link_without_person
  | some p ↦
      if any (λ (l : PersonObservationLink). links_pair p o l && is_none l.superseded_at) s.links
      then ok (not_created d (some p) none, s)
      else do
        raise_if (link_refused (new_link fresh o d p) o s) integrity
        ok (not_created d (some p) none, record s { links = s.links ++ new_link fresh o d p ∷ [] })
]
