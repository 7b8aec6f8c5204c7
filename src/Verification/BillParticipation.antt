-- ===== src/Verification/BillParticipation.antt =====
-- packages/verification/assembly_legislative_activity.py: the claim that a member took part in a
-- bill, from an observation of the bill (build_assembly_legislative_activity_bundle). `uuid5` and
-- `str` of a UUID are parameters.
pub mod Attested
use Prim.Native.String.{◌++◌ as ◌then◌}
use civic_intel.Prelude.{
  ℕ, zero, suc, ◌+◌, ◌-◌, ◌*◌, ◌/◌, ◌%◌, ◌≤◌, ◌<◌, String, ◌≡◌, refl, sym, ap, subst, ◌∙◌, ◌≢◌, ◌↔◌,
  ◌⊎◌, inl, inr, Bool, true, false, not, ◌&&◌, ◌||◌, Option, none, some, List, [], ◌∷◌, ◌++◌, map,
  arith, ltb, leb, nat_beq, if◌then◌else◌, ltb→lt, lt→ltb, leb→le, nat_beq_iff, Bool-cases,
  Option-cases, Eq, ◌==◌, ◌!=◌, string_eq, bool_beq, bool_beq_iff, bool_eq, nat_eq, coded_eq,
  ==-refl, eq_of_==, ==-comm, option_beq, option_beq_iff, option_eq, pair_beq, pair_beq_iff,
  pair_eq, list_beq, list_beq_iff, list_eq, length, is_empty, any, all, keep, find_first, or_else,
  find_last, update_where, length-append, is_empty-append, is_empty-append_split, any-append,
  length-keep-le, contains, has_duplicates, overlaps, unseen, ordered_unique, contains-append,
  Result, ◌>>=◌, ◌>>◌, raise_if, raising, succeeds, >>=-eq-ok, ok-injective, past, Every,
  Every-bind, Result-cases, All, Exists, In, all_sound, all_complete, any_sound, any_complete,
  All-In, In-of_contains, contains_of_In, not_any_sound, not_any_complete, !=_iff, not-contains_iff,
  contains-unseen, has_duplicates-unseen, contains-ordered_unique, has_duplicates-ordered_unique,
  is_empty-ordered_unique, overlaps_comm, length-le_of_subset, contains-keep, has_duplicates-keep,
  intersection, length-intersection_comm, TwoShared, TwoShared-iff, two_values_iff, ok, err,
}
use civic_intel.Prelude.Texts.{strip, blank, begins}
use civic_intel.Prelude.Dict.{Dict, lookup, insert}
use civic_intel.Prelude.Sorting.{sorted, string_leb}
use civic_intel.Domain.Enums.{
  EpistemicStatus, EvidenceStance, PublicationStatus, IdentityStatus, identity_status_eq,
}
use civic_intel.Domain.Contracts.Base.{
  Uuid, Time, Json, Items, Metadata, ContractError, Temporal, null, text, array, nil, cons,
}
use civic_intel.Domain.Contracts.Evidence.{
  Person, SourcePolicy, Source, Claim, ClaimEvidence, validate_claim,
}
use civic_intel.Domain.Contracts.Collection.{FeederObservation}
use civic_intel.Verification.Policy.{PolicyAction, PolicyDenied, require_policy}
use civic_intel.Verification.Claims.Gate.{validate_claim_publication, person}
use civic_intel.Connectors.Base.{Outside, str_json}

-- `AssemblyLegislativeActivityError` with its messages, and what the calls raise.
pub data ActivityError : Type 0 where
  field_missing field_invalid field_duplicates : String → ActivityError
  unresolved_person outside_scope other_policy other_bill other_semantics : ActivityError
  unsupported_role no_member_code both_roles not_in_role gate_failed : ActivityError
  denied : PolicyDenied → ActivityError
  contract : ContractError → ActivityError

pub record Uuids : Type 0 where
  pub uuid5 : Uuid → String → Uuid
  pub uuid_text : Uuid → String

abbrev pub needed_text : String → Option Json → Result ActivityError String
needed_text key (some (text s)) = if blank (strip s) then err (field_missing key) else ok (strip s)
needed_text key other = err (field_missing key)

unfoldable pub required_text : Metadata → String → Result ActivityError String
unfolding strip
required_text normalized key = needed_text key (lookup key normalized)

abbrev pub optional_of : String → Option Json → Result ActivityError (Option String)
optional_of key none = ok none
optional_of key (some null) = ok none
optional_of key (some (text s)) = ok (if blank (strip s) then none else some (strip s))
optional_of key (some other) = err (field_invalid key)

unfoldable pub optional_text : Metadata → String → Result ActivityError (Option String)
unfolding strip
optional_text normalized key = optional_of key (lookup key normalized)

abbrev pub onto_texts : String → Option (List String) → Option (List String)
onto_texts s none = none
onto_texts s (some ss) = some (s ∷ ss)

-- The stripped texts of a list, if every item is a text that is not blank.
unfoldable pub item_texts : Items → Option (List String)
unfolding strip
item_texts nil = some []
item_texts (cons (text s) items) =
    let rest = item_texts items in if blank (strip s) then none else onto_texts (strip s) rest
item_texts (cons other items) = none

abbrev pub as_texts : String → Option Json → Result ActivityError (List String)
as_texts key (some (array items)) = elim (item_texts items) [
  | none ↦ err (field_invalid key)
  | some ss ↦ ok ss
]
as_texts key other = err (field_invalid key)

unfoldable pub code_list : Metadata → String → Result ActivityError (List String)
unfolding item_texts sorted
code_list normalized key = do
  items ← as_texts key (lookup key normalized)
  let codes = sorted string_leb (ordered_unique items)
  raise_if (length codes != length items) (field_duplicates key)
  ok codes

abbrev pub lead_role : String
lead_role = "REPRESENTATIVE_PROPOSER"

abbrev pub co_role : String
co_role = "CO_PROPOSER"

unfoldable pub add_optionals :
    Metadata → List String → Dict String String → Result ActivityError (Dict String String)
unfolding optional_text
add_optionals normalized [] values = ok values
add_optionals normalized (key ∷ keys) values = do
  value ← optional_text normalized key
  add_optionals normalized keys (elim value [ none ↦ values | some v ↦ insert key v values ])

abbrev pub age_text : Outside → Option Json → String
age_text o none = ""
age_text o (some value) = str_json o value

-- The optional fields, and the values that are always there.
abbrev pub optional_keys : List String
optional_keys =
    "bill_no" ∷ "proposed_date" ∷ "committee" ∷ "committee_id" ∷ "process_result" ∷ "detail_url"
    ∷ []

abbrev pub fixed_values :
    Outside → FeederObservation → String → String → String → Dict String String
fixed_values o b participation_role mona_cd bill_id =
    ("source_contract", "assembly_term_bill_participation")
    ∷ ("source_scope", b.scope_key)
    ∷ ("semantic_scope", b.semantic_scope)
    ∷ ("provider_record_key", b.provider_record_key)
    ∷ ("immutable_observation_hash", b.content_hash)
    ∷ ("bill_id", bill_id)
    ∷ ("assembly_age", age_text o (lookup "assembly_age" b.normalized))
    ∷ ("provider_identity_namespace", "assembly_mona_cd")
    ∷ ("provider_person_key", mona_cd)
    ∷ ("participation_role", participation_role)
    ∷ []

unfoldable pub qualifier_values :
    Outside → FeederObservation → String → String → Result ActivityError (Dict String String)
unfolding required_text add_optionals
qualifier_values o b participation_role mona_cd = do
  bill_id ← required_text b.normalized "bill_id"
  add_optionals b.normalized optional_keys (fixed_values o b participation_role mona_cd bill_id)

-- `"|".join(…)`
abbrev pub piped : List String → String
piped [] = ""
piped (s ∷ []) = s
piped (s ∷ t ∷ ss) = s then ("|" then piped (t ∷ ss))

module _ (u : Uuids) where
  abbrev pub activity_claim_id : Person → FeederObservation → String → String → Uuid
  activity_claim_id p b participation_role mona_cd = u.uuid5 0xf269f4db65044a38a0f5bb36e7b4c1a6 (
      piped (
        u.uuid_text p.id
        ∷ b.provider_record_key
        ∷ b.content_hash
        ∷ participation_role
        ∷ mona_cd
        ∷ []))

  abbrev pub observed_at : FeederObservation → Time
  observed_at b = elim b.provider_observed_at [ none ↦ b.recorded_at | some t ↦ t ]

  unfoldable pub activity_claim :
      Person → FeederObservation → String → String → String → Dict String String → Claim
  activity_claim p b participation_role mona_cd bill_name qualifiers = record {
    id = activity_claim_id p b participation_role mona_cd;
    person_id = some p.id;
    organization_id = none;
    proposition =
        p.canonical_name
        then ("는 국회 의안정보에서 「"
            then (bill_name
                then ("」의 "
                    then ((if participation_role == lead_role then "대표 발의자" else "공동 발의자")
                        then "로 기록되어 있다."))));
    subject = p.canonical_name;
    predicate = "ASSEMBLY_BILL_PARTICIPATION";
    object_text = bill_name;
    qualifiers = qualifiers;
    epistemic_status = EpistemicStatus.fact;
    publication_status = PublicationStatus.published;
    asserted_as_true = true;
    resolution_note = none;
    temporal = record {
      valid_from = observed_at b;
      valid_to = none;
      recorded_at = b.recorded_at;
      superseded_at = none;
    };
  }

  abbrev pub activity_evidence : Claim → FeederObservation → Source → ClaimEvidence
  activity_evidence c b source = record {
    id = u.uuid5 c.id (
        piped
          (u.uuid_text source.id ∷ u.uuid_text b.snapshot_id ∷ u.uuid_text b.id ∷ "SUPPORT" ∷ []));
    claim_id = c.id;
    source_id = source.id;
    snapshot_id = some b.snapshot_id;
    feeder_observation_id = some b.id;
    stance = EvidenceStance.support;
    excerpt = none;
  }

abbrev pub in_scope : FeederObservation → Bool
in_scope b =
    b.feeder == "national_assembly_bill_participation"
    && (b.semantic_scope == "legislative_bill_participation" && begins "assembly_age:" b.scope_key)

abbrev pub is_semantics : Option Json → Bool
is_semantics (some (text s)) = s == "official_code_linked_bill_participation"
is_semantics other = false

abbrev pub role_codes : String → List String → List String → List String
role_codes participation_role lead co = if participation_role == lead_role then lead else co

module _ (o : Outside) (u : Uuids) (p : Person) (b : FeederObservation) (source : Source)
    (policy : SourcePolicy) (participation_role mona_cd : String) where
  -- The checks before the claim is made.
  unfoldable pub check_participation : Result ActivityError (Unit {0})
  unfolding require_policy required_text code_list begins strip
  check_participation = do
    raise_if (p.identity_status != IdentityStatus.resolved) unresolved_person
    raise_if (not (in_scope b)) outside_scope
    raise_if (source.policy_id != policy.id) other_policy
    raising denied (require_policy (some policy) PolicyAction.store_metadata)
    bill_id ← required_text b.normalized "bill_id"
    raise_if (bill_id != b.provider_record_key) other_bill
    raise_if (not (is_semantics (lookup "participation_semantics" b.normalized))) other_semantics
    raise_if (not (contains (lead_role ∷ co_role ∷ []) participation_role)) unsupported_role
    raise_if (blank (strip mona_cd)) no_member_code
    lead ← code_list b.normalized "representative_proposer_codes"
    co ← code_list b.normalized "co_proposer_codes"
    raise_if (overlaps lead co) both_roles
    raise_if (not (contains (role_codes participation_role lead co) mona_cd)) not_in_role

  abbrev pub passes_gate : Claim → ClaimEvidence → Bool
  passes_gate c e =
      (validate_claim_publication o.unicode c (person p) (e ∷ []) ((source.id, source) ∷ [])
        ((policy.id, policy) ∷ [])).publishable

  unfoldable pub build_assembly_legislative_activity_bundle :
      Result ActivityError (Claim × ClaimEvidence)
  unfolding check_participation required_text qualifier_values activity_claim validate_claim
  build_assembly_legislative_activity_bundle = do
    check_participation
    bill_name ← required_text b.normalized "bill_name"
    qualifiers ← qualifier_values o b participation_role mona_cd
    let claim = activity_claim u p b participation_role mona_cd bill_name qualifiers
    raising contract (validate_claim claim)
    let evidence = activity_evidence u claim b source
    raise_if (not (passes_gate claim evidence)) gate_failed
    ok (claim, evidence)
