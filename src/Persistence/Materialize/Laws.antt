-- ===== src/Persistence/Materialize/Laws.antt =====
-- packages/persistence/repository.py: what a materialized observation can leave in the store.
use civic_intel.Prelude.{
  raising, raising-ok, String, ◌≡◌, refl, sym, ap, ◌⊎◌, inl, inr, Option, some, [], ◌∷◌, ◌++◌,
  arith, Bool-cases, ◌==◌, string_eq, bool_eq, nat_eq, option_eq, pair_eq, list_eq, find_first,
  Result-cases, Exists, ok,
}
use civic_intel.Prelude.Texts.{Unicode}
use civic_intel.Prelude.Dict.{lookup}
use civic_intel.Domain.Enums.{MaterializationAction}
use civic_intel.Domain.Contracts.Base.{Uuid, Date, text}
use civic_intel.Domain.Contracts.Evidence.{SourcePolicy, Source, SourceSnapshot}
use civic_intel.Domain.Contracts.Collection.{FeederObservation, MaterializationDecision}
use civic_intel.Verification.Materialization.{decide_materialization, observation_birth_date}
use civic_intel.Verification.Materialization.Laws.{auto_create_iff}
use civic_intel.Verification.Claims.Gate.{person}
use civic_intel.Verification.Claims.Gate.Spec.{Publishable, validate_claim_publication-Publishable}
use civic_intel.Persistence.Store.{Store}
use civic_intel.Persistence.Materialize.{
  undecided, Fresh, MaterializationResult, observation_missing, snapshot_missing, source_missing,
  policy_missing, required, name_of, known_birth_date, linked_people, same_name_people, ask_review,
  link_person,
}
use civic_intel.Persistence.Materialize.Linked.{
  required-some, known_ok, named_text, LinkedPerson, Namesake, nobody_linked_of, nobody_named_of,
}
use civic_intel.Persistence.Materialize.Create.{
  new_person, new_claim, new_evidence, with_person, create_person, act_on,
  materialize_feeder_observation,
}

-- Nobody is created, and no claim is made.
pub record Untouched (s after : Store) : Type 0 where
  pub people : after.people ≡ s.people
  pub claims : after.claims ≡ s.claims
  pub evidence : after.evidence ≡ s.evidence

-- A person is created with a claim that passes the gate.
pub record CreatedWith (u : Unicode) (fresh : Fresh) (o : FeederObservation) (name : String)
    (s after : Store) : Type 0 where
  pub birth_date : Option Date
  pub born : observation_birth_date u o ≡ ok birth_date
  pub snapshot : SourceSnapshot
  pub kept_snapshot :
      find_first (λ (q : SourceSnapshot). q.id == o.snapshot_id) s.snapshots ≡ some snapshot
  pub source : Source
  pub kept_source : find_first (λ (q : Source). q.id == snapshot.source_id) s.sources ≡ some source
  pub policy : SourcePolicy
  pub kept_policy :
      find_first (λ (q : SourcePolicy). q.id == source.policy_id) s.policies ≡ some policy
  pub publishable :
      Publishable u
        (new_claim fresh o name)
        (person (new_person fresh name birth_date))
        (new_evidence fresh o source ∷ [])
        ((source.id, source) ∷ [])
        ((policy.id, policy) ∷ [])
  pub people : after.people ≡ s.people ++ new_person fresh name birth_date ∷ []
  pub claims : after.claims ≡ s.claims ++ new_claim fresh o name ∷ []
  pub evidence : after.evidence ≡ s.evidence ++ new_evidence fresh o source ∷ []

module _ (u : Unicode) (fresh : Fresh) (o : FeederObservation) (name : String)
    (d : MaterializationDecision) (s : Store) (r : MaterializationResult) (after : Store) where
  review-Untouched : ask_review fresh o d s ≡ ok (r, after) → Untouched s after
  unfolding ask_review
  review-Untouched h = record {
    people = ground (arith, h);
    claims = ground (arith, h);
    evidence = ground (arith, h);
  }

  link-Untouched : link_person fresh o d s ≡ ok (r, after) → Untouched s after
  unfolding link_person
  link-Untouched h = record {
    people = ground (arith, h);
    claims = ground (arith, h);
    evidence = ground (arith, h);
  }

  creation : create_person u fresh o name d s ≡ ok (r, after) → CreatedWith u fresh o name s after
  unfolding create_person
  creation h = elim (Result-cases (known_birth_date (observation_birth_date u o))) [
    | inr (e, bad) ↦ absurd (ground (arith, h, bad))
    | inl (birth_date, e1) ↦
        elim (Result-cases (
          required snapshot_missing
            (find_first (λ (q : SourceSnapshot). q.id == o.snapshot_id) s.snapshots))) [
              | inr (e, bad) ↦ absurd (ground (arith, h, e1, bad))
              | inl (snapshot, e2) ↦
                  elim (Result-cases (
                    required source_missing
                      (find_first (λ (q : Source). q.id == snapshot.source_id) s.sources))) [
                        | inr (e, bad) ↦ absurd (ground (arith, h, e1, e2, bad))
                        | inl (source, e3) ↦
                            elim (Result-cases (
                              required policy_missing (
                                find_first (λ (q : SourcePolicy). q.id == source.policy_id)
                                  s.policies))) [
                                    | inr (e, bad) ↦ absurd (ground (arith, h, e1, e2, e3, bad))
                                    | inl (policy, e4) ↦
                                        let next =
                                          with_person u fresh o name d birth_date source s in
                                        let made : next ≡ after =
                                          ground (arith, h, e1, e2, e3, e4) in
                                        record {
                                          birth_date = birth_date;
                                          born = known_ok _ e1;
                                          snapshot = snapshot;
                                          kept_snapshot = required-some _ _ e2;
                                          source = source;
                                          kept_source = required-some _ _ e3;
                                          policy = policy;
                                          kept_policy = required-some _ _ e4;
                                          publishable =
                                              (validate_claim_publication-Publishable u
                                                  (new_claim fresh o name)
                                                  (person (new_person fresh name birth_date))
                                                  (new_evidence fresh o source ∷ [])
                                                  ((source.id, source) ∷ [])
                                                  ((policy.id, policy) ∷ [])).0
                                                (ground (arith, h, e1, e2, e3, e4));
                                          people = ap (λ (z : Store). z.people) (sym made);
                                          claims = ap (λ (z : Store). z.claims) (sym made);
                                          evidence = ap (λ (z : Store). z.evidence) (sym made);
                                        }
                                  ]
                      ]
            ]
  ]

  acted :
      (a : MaterializationAction)
      → act_on u a fresh o name d s ≡ ok (r, after)
      → Untouched s after
        ⊎ ((a ≡ MaterializationAction.auto_create) × CreatedWith u fresh o name s after)
  unfolding act_on
  acted MaterializationAction.auto_create h = inr (refl, creation h)
  acted MaterializationAction.auto_link h = inl (link-Untouched h)
  acted MaterializationAction.review_required h = inl (review-Untouched h)
  acted MaterializationAction.hard_conflict h = inl (review-Untouched h)
  acted MaterializationAction.reviewed_create h = cc
  acted MaterializationAction.reviewed_link h = cc

-- The person is created from the observation, is linked to nobody before, and nobody has the name.
pub record NewPerson (u : Unicode) (fresh : Fresh) (id : Uuid) (s after : Store) : Type 0 where
  pub observation : FeederObservation
  pub name : String
  pub found : find_first (λ (q : FeederObservation). q.id == id) s.observations ≡ some observation
  pub named : lookup "canonical_name" observation.normalized ≡ some (text name)
  pub nobody_linked : ¬ Exists (LinkedPerson s observation) s.people
  pub nobody_named : ¬ Exists (Namesake name) s.people
  pub created : CreatedWith u fresh observation name s after

-- A call of `materialize_feeder_observation` that returns either leaves people, claims and evidence
-- as they are, or adds one person, one claim and one piece of evidence: then the observation exists
-- and gives the person's name and birth date; before the call no link that is not superseded tied
-- anybody to an observation of its provider record, and nobody current had its name; and the new
-- claim is publishable with the new evidence about the new person, by the stored source of the
-- observation's stored snapshot and by that source's stored policy.
pub materialize_feeder_observation_lem :
    (u : Unicode) (fresh : Fresh) (id : Uuid) (s : Store) (r : MaterializationResult)
    (after : Store)
    → materialize_feeder_observation u fresh id s ≡ ok (r, after)
    → Untouched s after ⊎ NewPerson u fresh id s after
unfolding materialize_feeder_observation
materialize_feeder_observation_lem u fresh id s r after h = elim (Bool-cases s.schema_ready) [
  | inr f ↦ absurd (ground (arith, h, f))
  | inl ready ↦
      elim (Result-cases (
        required observation_missing
          (find_first (λ (q : FeederObservation). q.id == id) s.observations))) [
            | inr (e, bad) ↦ absurd (ground (arith, h, ready, bad))
            | inl (o, e1) ↦ elim (Result-cases (name_of (lookup "canonical_name" o.normalized))) [
              | inr (e, bad) ↦ absurd (ground (arith, h, ready, e1, bad))
              | inl (name, e2) ↦
                  elim (Result-cases (
                    raising undecided
                      (decide_materialization u o (linked_people s o) (same_name_people s name)))) [
                        | inr (e, bad) ↦ absurd (ground (arith, h, ready, e1, e2, bad))
                        | inl (d, e3) ↦
                            elim (acted u fresh o name d s r after d.action
                              (ground (arith, h, ready, e1, e2, e3))) [
                                | inl kept ↦ inl kept
                                | inr (creates, made) ↦
                                    let decided = raising-ok undecided _ e3 in
                                    let alone =
                                      (auto_create_iff u o (linked_people s o)
                                          (same_name_people s name) d decided).0
                                        creates in
                                    inr (record {
                                      observation = o;
                                      name = name;
                                      found = required-some _ _ e1;
                                      named = named_text _ e2;
                                      nobody_linked = nobody_linked_of s o alone.1;
                                      nobody_named = nobody_named_of s name alone.2;
                                      created = made;
                                    })
                              ]
                      ]
            ]
          ]
]
