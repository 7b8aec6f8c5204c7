-- ===== src/Persistence/Materialize/Linked.antt =====
-- packages/persistence/repository.py: the people whom a link or a name ties to an observation.
use civic_intel.Prelude.{
  String, ◌≡◌, ap, inl, inr, Bool, true, ◌&&◌, Option, none, some, List, [], ◌∷◌, arith, Bool-cases,
  ◌==◌, string_eq, bool_eq, nat_eq, ==-refl, option_eq, pair_eq, list_eq, any, keep, Result,
  ok-injective, Exists, ok, err,
}
use civic_intel.Prelude.Texts.{strip, blank}
use civic_intel.Domain.Contracts.Base.{Json, null, boolean, number, negative, text, array, object}
use civic_intel.Domain.Contracts.Evidence.{Person, is_none}
use civic_intel.Domain.Contracts.Collection.{FeederObservation, PersonObservationLink}
use civic_intel.Verification.Materialization.{BirthDateError}
use civic_intel.Persistence.Store.{Store}
use civic_intel.Persistence.Materialize.{
  MaterializeError, same_record, required, name_of, known_birth_date, linked_people,
  same_name_people,
}

pub required-some :
    {A : Type 0} (e : MaterializeError) (found : Option A) {a : A}
    → required e found ≡ ok a
    → found ≡ some a
unfolding required
required-some e none h = cc
required-some e (some b) h = ap some (ok-injective h)

pub known_ok :
    {A : Type 0} (r : Result BirthDateError A) {a : A} → known_birth_date r ≡ ok a → r ≡ ok a
known_ok (ok b) h = ap ok (ok-injective h)
known_ok (err e) h = cc

pub named_text : (j : Option Json) {name : String} → name_of j ≡ ok name → j ≡ some (text name)
unfolding name_of
named_text none h = cc
named_text (some (text s)) h = elim (Bool-cases (blank (strip s))) [
  | inl e ↦ absurd (ground (arith, h, e))
  | inr e ↦ ap (λ q. some (text q)) (ok-injective (rw e at h))
]
named_text (some null) h = cc
named_text (some (boolean b)) h = cc
named_text (some (number n)) h = cc
named_text (some (negative n)) h = cc
named_text (some (array items)) h = cc
named_text (some (object fields)) h = cc

-- A link that is not superseded ties the person to an observation of the same provider record.
abbrev pub LinkedBy :
    FeederObservation → Person → PersonObservationLink → FeederObservation → Type 0
LinkedBy o p l q =
    (l.person_id ≡ p.id)
    × (l.superseded_at ≡ none)
    × (q.id ≡ l.observation_id)
    × (q.feeder ≡ o.feeder)
    × (q.scope_key ≡ o.scope_key)
    × (q.provider_record_key ≡ o.provider_record_key)

abbrev pub LinkedPerson : Store → FeederObservation → Person → Type 0
LinkedPerson s o p =
    Exists
      (λ (l : PersonObservationLink).
        Exists (λ (q : FeederObservation). LinkedBy o p l q) s.observations)
      s.links

-- The person is current and has the name.
abbrev pub Namesake : String → Person → Type 0
Namesake name p = (p.canonical_name ≡ name) × (p.superseded_at ≡ none)

any_of :
    {A : Type 0} (p : A → Bool) (P : A → Type 0) (xs : List A)
    → ((a : A) → P a → p a ≡ true)
    → Exists P xs
    → any p xs ≡ true
any_of p P [] f h = elim h [ ]
any_of p P (x ∷ xs) f (inl h) = ground (arith, f x h)
any_of p P (x ∷ xs) f (inr h) = ground (arith, any_of p P xs f h)

kept_of :
    {A : Type 0} (p : A → Bool) (P : A → Type 0) (xs : List A)
    → ((a : A) → P a → p a ≡ true)
    → keep p xs ≡ []
    → ¬ Exists P xs
kept_of p P [] f e h = h
kept_of p P (x ∷ xs) f e h = elim (Bool-cases (p x)) [
  | inl t ↦ cc (rw t at e)
  | inr t ↦ elim h [ inl q ↦ cc (t, f x q) | inr q ↦ kept_of p P xs f (rw t at e) q ]
]

link_seen :
    (o : FeederObservation) (p : Person) (l : PersonObservationLink) (qs : List FeederObservation)
    → Exists (λ (q : FeederObservation). LinkedBy o p l q) qs
    → (l.person_id == p.id
        && (is_none l.superseded_at
            && any (λ (q : FeederObservation). q.id == l.observation_id && same_record o q) qs))
      ≡ true
link_seen o p l [] h = elim h [ ]
link_seen o p l (q ∷ qs) (inl (a, b, c, d, e, f)) = rw (
  a,
  b,
  c,
  d,
  e,
  f,
  ==-refl p.id,
  ==-refl l.observation_id,
  ==-refl o.feeder,
  ==-refl o.scope_key,
  ==-refl o.provider_record_key,
)
link_seen o p l (q ∷ qs) (inr h) = ground (arith, link_seen o p l qs h)

pub nobody_linked_of :
    (s : Store) (o : FeederObservation)
    → linked_people s o ≡ []
    → ¬ Exists (LinkedPerson s o) s.people
unfolding linked_people
nobody_linked_of s o h =
    kept_of _ (LinkedPerson s o) s.people
      (λ p.
        any_of _
          (λ (l : PersonObservationLink).
            Exists (λ (q : FeederObservation). LinkedBy o p l q) s.observations)
          s.links (λ l. link_seen o p l s.observations))
      h

Namesake-seen :
    (name : String) (p : Person)
    → Namesake name p
    → (p.canonical_name == name && is_none p.superseded_at) ≡ true
Namesake-seen name p (a, b) = rw (a, b, ==-refl name)

pub nobody_named_of :
    (s : Store) (name : String) → same_name_people s name ≡ [] → ¬ Exists (Namesake name) s.people
unfolding same_name_people
nobody_named_of s name h = kept_of _ (Namesake name) s.people (Namesake-seen name) h
