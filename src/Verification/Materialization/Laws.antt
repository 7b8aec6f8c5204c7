-- ===== src/Verification/Materialization/Laws.antt =====
-- packages/verification/materialization.py: when the roster may create or link a person.
use civic_intel.Prelude.{
  ◌≤◌, ◌≡◌, refl, sym, subst, ◌↔◌, ◌⊎◌, inl, inr, true, false, Option, some, List, [], ◌∷◌, arith,
  ltb, Bool-cases, ◌==◌, nat_eq, string_eq, bool_eq, eq_of_==, option_eq, pair_eq, length,
  >>=-eq-ok, All, In, ok,
}
use civic_intel.Prelude.Texts.{Unicode}
use civic_intel.Prelude.Dict.{Dict, insert}
use civic_intel.Domain.Enums.{MaterializationAction, materialization_action_eq}
use civic_intel.Domain.Contracts.Base.{Uuid, Date}
use civic_intel.Domain.Contracts.Evidence.{Person}
use civic_intel.Domain.Contracts.Collection.{FeederObservation, MaterializationDecision}
use civic_intel.Verification.Materialization.{
  observation_birth_date, collect, by_id, births_differ, decide_linked, decide_unlinked,
  decide_by_links, is_member_roster, decide_materialization,
}

length-insert-le : (k : Uuid) (p : Person) (d : Dict Uuid Person) → length d ≤ length (insert k p d)
length-insert-le k p [] = omega arith
length-insert-le k p ((j, q) ∷ d) = ground (arith, length-insert-le k p d)

length-collect-le : (d : Dict Uuid Person) (ps : List Person) → length d ≤ length (collect d ps)
unfolding collect
length-collect-le d [] = omega arith
length-collect-le d (p ∷ ps) =
    omega (arith, length-insert-le p.id p d, length-collect-le (insert p.id p d) ps)

-- A dictionary with one entry was filled by people with one identifier.
record OnePerson (k : Uuid) (p : Person) (ps : List Person) : Type 0 where
  last : Person
  collected : collect ((k, p) ∷ []) ps ≡ (k, last) ∷ []
  last_id : last.id ≡ k
  last_in : In last (p ∷ ps)
  same_id : All (λ (q : Person). q.id ≡ k) ps

one_person :
    (k : Uuid) (p : Person) (ps : List Person)
    → p.id ≡ k
    → length (collect ((k, p) ∷ []) ps) ≤ 1
    → OnePerson k p ps
unfolding collect
one_person k p [] e h = record {
  last = p;
  collected = refl;
  last_id = e;
  last_in = inl refl;
  same_id = tt;
}
one_person k p (q ∷ ps) e h = elim (Bool-cases (k == q.id)) [
  | inl t ↦
      let same = sym (eq_of_== k q.id t) in
      let rest = one_person k q ps same (rw t at h) in
      record {
        last = rest.last;
        collected = rw t rest.collected;
        last_id = rest.last_id;
        last_in = inr rest.last_in;
        same_id = (same, rest.same_id);
      }
  | inr t ↦ absurd (
      let more : length (collect ((k, p) ∷ (q.id, q) ∷ []) ps) ≤ 1 = rw t at h in
      omega (arith, more, length-collect-le ((k, p) ∷ (q.id, q) ∷ []) ps))
]

-- A record from which the roster links: the person is linked already, nobody else is, and the
-- known birth dates do not differ.
pub record LinksTo (u : Unicode) (o : FeederObservation) (linked : List Person)
    (candidate : Option Uuid) : Type 0 where
  pub target : Person
  pub linked_already : In target linked
  pub named : candidate ≡ some target.id
  pub nobody_else : All (λ (q : Person). q.id ≡ target.id) linked
  pub observed : Option Date
  pub read : observation_birth_date u o ≡ ok observed
  pub no_conflict : births_differ observed target.birth_date ≡ false

module _ (u : Unicode) (o : FeederObservation) (same_name : List Person)
    (d : MaterializationDecision) where
  -- With somebody linked, the decision is for review, or one about the one person linked.
  record Linked (p : Person) (ps : List Person) : Type 0 where
    one : OnePerson p.id p ps
    observed : Option Date
    read : observation_birth_date u o ≡ ok observed
    decided : d ≡ decide_linked observed one.last

  Linked-decision :
      (p : Person) (ps : List Person)
      → decide_materialization u o (p ∷ ps) same_name ≡ ok d
      → ((d.action ≡ MaterializationAction.review_required)
          ⊎ (d.action ≡ MaterializationAction.hard_conflict))
        ⊎ Linked p ps
  unfolding decide_materialization by_id
  Linked-decision p ps h = elim (Bool-cases (is_member_roster o)) [
    | inr f ↦ inl (inl (ground (arith, h, f)))
    | inl t ↦ elim (Bool-cases (ltb 1 (length (collect ((p.id, p) ∷ []) ps)))) [
      | inl many ↦ inl (inr (ground (arith, h, t, many)))
      | inr few ↦
          let one = one_person p.id p ps refl (ground (arith, few)) in
          let (b, read, made) =
            >>=-eq-ok (observation_birth_date u o)
              (λ b. ok (decide_by_links b (collect ((p.id, p) ∷ []) ps) same_name))
              (rw (t, few) at h) in
          inr (record {
            one = one;
            observed = b;
            read = read;
            decided = ground (arith, made, one.collected);
          })
    ]
  ]

  create_sound :
      (linked : List Person)
      → decide_materialization u o linked same_name ≡ ok d
      → d.action ≡ MaterializationAction.auto_create
      → (is_member_roster o ≡ true) × (linked ≡ []) × (same_name ≡ [])
  unfolding decide_materialization by_id collect decide_unlinked decide_linked
  create_sound [] h a = ground arith
  create_sound (p ∷ ps) h a = elim (Linked-decision p ps h) [
    | inl other ↦ absurd (ground (arith, other, a))
    | inr l ↦ absurd (ground (arith, l.decided, a))
  ]

  create_complete :
      decide_materialization u o [] [] ≡ ok d
      → is_member_roster o ≡ true
      → d.action ≡ MaterializationAction.auto_create
  unfolding decide_materialization by_id collect decide_unlinked
  create_complete h r = ground arith

  -- The roster links only to a person whom the provider identity is linked to already, where it is
  -- linked to nobody else, whoever has the name, and where the known birth dates agree.
  pub auto_link_sound :
      (linked : List Person)
      → decide_materialization u o linked same_name ≡ ok d
      → d.action ≡ MaterializationAction.auto_link
      → LinksTo u o linked d.candidate_person_id
  unfolding decide_materialization by_id collect decide_unlinked decide_linked
  auto_link_sound [] h a = absurd (ground arith)
  auto_link_sound (p ∷ ps) h a = elim (Linked-decision p ps h) [
    | inl other ↦ absurd (ground (arith, other, a))
    | inr l ↦ record {
      target = l.one.last;
      linked_already = l.one.last_in;
      named = ground (arith, l.decided, a);
      nobody_else = (
        sym l.one.last_id,
        subst (λ k. All (λ (q : Person). q.id ≡ k) ps) (sym l.one.last_id) l.one.same_id,
      );
      observed = l.observed;
      read = l.read;
      no_conflict = ground (arith, l.decided, a);
    }
  ]

-- A person is created exactly where the record is of the member roster, nobody is linked to the
-- provider identity and nobody has the name.
pub auto_create_iff :
    (u : Unicode) (o : FeederObservation) (linked same_name : List Person)
    (d : MaterializationDecision)
    → decide_materialization u o linked same_name ≡ ok d
    → (d.action ≡ MaterializationAction.auto_create)
      ↔ ((is_member_roster o ≡ true) × (linked ≡ []) × (same_name ≡ []))
auto_create_iff u o linked same_name d h = (
  create_sound u o same_name d linked h,
  λ (r, l, s). create_complete u o same_name d (rw (l, s) at h) r,
)
