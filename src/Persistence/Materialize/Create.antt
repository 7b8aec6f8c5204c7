-- ===== src/Persistence/Materialize/Create.antt =====
-- packages/persistence/repository.py: materialize_feeder_observation, the branch that creates a
-- person, and the whole.
use Prim.Native.String.{◌++◌ as ◌appended◌}
use civic_intel.Prelude.{
  String, Bool, true, not, ◌||◌, Option, none, some, [], ◌∷◌, ◌++◌, ◌==◌, string_eq, bool_eq,
  nat_eq, option_eq, pair_eq, any, find_first, Result, ◌>>=◌, ◌>>◌, raise_if, raising, ok, err,
}
use civic_intel.Prelude.Texts.{Unicode}
use civic_intel.Prelude.Dict.{lookup}
use civic_intel.Domain.Enums.{
  EpistemicStatus, EvidenceStance, PublicationStatus, IdentityStatus, MaterializationAction,
}
use civic_intel.Domain.Contracts.Base.{Uuid, Date}
use civic_intel.Domain.Contracts.Evidence.{
  Person, SourcePolicy, Source, SourceSnapshot, Claim, ClaimEvidence,
}
use civic_intel.Domain.Contracts.Collection.{FeederObservation, MaterializationDecision}
use civic_intel.Verification.Materialization.{decide_materialization, observation_birth_date}
use civic_intel.Verification.Claims.Gate.{person, validate_claim_publication}
use civic_intel.Persistence.Store.{Store}
use civic_intel.Persistence.Materialize.{
  MaterializeError, undecided, Fresh, MaterializationResult, database_not_ready,
  observation_missing, snapshot_missing, source_missing, policy_missing, gate_failed,
  unsupported_action, integrity, required, name_of, known_birth_date, linked_people,
  same_name_people, from_now, ask_review, new_link, link_refused, link_person,
}

abbrev pub new_person : Fresh → String → Option Date → Person
new_person fresh name birth_date = record {
  id = fresh.person_id;
  canonical_name = name;
  birth_date = birth_date;
  identity_status = IdentityStatus.resolved;
  temporal = from_now fresh.person_times;
}

-- The claim as it is published.
unfoldable pub new_claim : Fresh → FeederObservation → String → Claim
new_claim fresh o name = record {
  id = fresh.claim_id;
  person_id = some fresh.person_id;
  organization_id = none;
  proposition = name appended "는 국회의원 명부에 등재되어 있다.";
  subject = name;
  predicate = "HELD_ROLE";
  object_text = "국회의원";
  qualifiers = ("provider_record_key", o.provider_record_key) ∷ ("source_scope", o.scope_key) ∷ [];
  epistemic_status = EpistemicStatus.fact;
  publication_status = PublicationStatus.published;
  asserted_as_true = true;
  resolution_note = none;
  temporal = from_now fresh.claim_times;
}

abbrev pub new_evidence : Fresh → FeederObservation → Source → ClaimEvidence
new_evidence fresh o source = record {
  id = fresh.evidence_id;
  claim_id = fresh.claim_id;
  source_id = source.id;
  snapshot_id = some o.snapshot_id;
  feeder_observation_id = some o.id;
  stance = EvidenceStance.support;
  excerpt = none;
}

-- A primary key of the four rows to add is taken already.
unfoldable pub keys_taken : Fresh → FeederObservation → MaterializationDecision → Store → Bool
keys_taken fresh o d s =
    any (λ (p : Person). p.id == fresh.person_id) s.people
    || (any (λ (c : Claim). c.id == fresh.claim_id) s.claims
        || (any (λ (e : ClaimEvidence). e.id == fresh.evidence_id) s.evidence
            || link_refused (new_link fresh o d fresh.person_id) o s))

module _ (u : Unicode) where
  abbrev pub gate_of :
      Fresh → FeederObservation → String → Option Date → Source → SourcePolicy → Bool
  gate_of fresh o name birth_date source policy =
      (validate_claim_publication u (new_claim fresh o name)
        (person (new_person fresh name birth_date)) (new_evidence fresh o source ∷ [])
        ((source.id, source) ∷ []) ((policy.id, policy) ∷ [])).publishable

  abbrev pub with_person :
      Fresh
      → FeederObservation
      → String
      → MaterializationDecision
      → Option Date
      → Source
      → Store
      → Store
  with_person fresh o name d birth_date source s = record s {
    people = s.people ++ new_person fresh name birth_date ∷ [];
    claims = s.claims ++ new_claim fresh o name ∷ [];
    evidence = s.evidence ++ new_evidence fresh o source ∷ [];
    links = s.links ++ new_link fresh o d fresh.person_id ∷ [];
  }

  unfoldable pub create_person :
      Fresh
      → FeederObservation
      → String
      → MaterializationDecision
      → Store
      → Result MaterializeError (MaterializationResult × Store)
  create_person fresh o name d s = do
    birth_date ← known_birth_date (observation_birth_date u o)
    snapshot ←
        required snapshot_missing
          (find_first (λ (q : SourceSnapshot). q.id == o.snapshot_id) s.snapshots)
    source ←
        required source_missing (find_first (λ (q : Source). q.id == snapshot.source_id) s.sources)
    policy ←
        required policy_missing
          (find_first (λ (q : SourcePolicy). q.id == source.policy_id) s.policies)
    raise_if (not (gate_of fresh o name birth_date source policy)) gate_failed
    raise_if (keys_taken fresh o d s) integrity
    ok (
      record {
        decision = d;
        person_id = some fresh.person_id;
        claim_id = some fresh.claim_id;
        review_item_id = none;
        created = true;
      },
      with_person fresh o name d birth_date source s,
    )

  unfoldable pub act_on :
      MaterializationAction
      → Fresh
      → FeederObservation
      → String
      → MaterializationDecision
      → Store
      → Result MaterializeError (MaterializationResult × Store)
  act_on MaterializationAction.review_required fresh o name d s = ask_review fresh o d s
  act_on MaterializationAction.hard_conflict fresh o name d s = ask_review fresh o d s
  act_on MaterializationAction.auto_link fresh o name d s = link_person fresh o d s
  act_on MaterializationAction.auto_create fresh o name d s = create_person fresh o name d s
  act_on MaterializationAction.reviewed_create fresh o name d s = err unsupported_action
  act_on MaterializationAction.reviewed_link fresh o name d s = err unsupported_action

  unfoldable pub materialize_feeder_observation :
      Fresh → Uuid → Store → Result MaterializeError (MaterializationResult × Store)
  materialize_feeder_observation fresh id s = do
    raise_if (not s.schema_ready) database_not_ready
    o ←
        required observation_missing
          (find_first (λ (q : FeederObservation). q.id == id) s.observations)
    name ← name_of (lookup "canonical_name" o.normalized)
    d ← raising undecided (decide_materialization u o (linked_people s o) (same_name_people s name))
    act_on d.action fresh o name d s
