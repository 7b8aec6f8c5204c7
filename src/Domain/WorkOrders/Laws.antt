-- ===== src/Domain/WorkOrders/Laws.antt =====
-- packages/domain/work_orders.py: which selections a recipe takes.
use civic_intel.Prelude.{
  ◌≤◌, ◌≡◌, refl, sym, subst, ◌≢◌, ◌↔◌, ◌⊎◌, inl, inr, Bool, true, false, not, List, [], ◌∷◌, map,
  arith, Bool-cases, ◌==◌, string_eq, bool_eq, nat_eq, ==-refl, eq_of_==, option_eq, pair_eq,
  length, is_empty, any, keep, contains, has_duplicates, All, all_sound, all_complete,
  not_any_sound, not_any_complete, ok,
}
use civic_intel.Prelude.Texts.{strip, char_count}
use civic_intel.Domain.WorkOrders.{
  RecipeId, RecordKind, record_kind_eq, WorkReference, WorkOrderRequest, is_version, reference_key,
  of_kind, kinds_are, note_too_short, validate_recipe, validate_work_order,
}

-- Exactly one reference is of the kind.
pub record One (k : RecordKind) (refs : List WorkReference) : Type 0 where
  pub count : length (keep (of_kind k) refs) ≡ 1

abbrev pub OnlyRun : List WorkReference → Type 0
OnlyRun refs = (r : WorkReference) × (refs ≡ r ∷ []) × (r.kind ≡ RecordKind.runs)

abbrev pub Linkable : WorkReference → Type 0
Linkable r =
    (r.kind ≡ RecordKind.observations)
    ⊎ ((r.kind ≡ RecordKind.people) ⊎ (r.kind ≡ RecordKind.evidence))

pub record IdentitySelection (refs : List WorkReference) : Type 0 where
  pub one_observation : One RecordKind.observations refs
  pub one_person : One RecordKind.people refs
  pub some_evidence : any (of_kind RecordKind.evidence) refs ≡ true
  pub no_other : All Linkable refs

abbrev pub Described : WorkOrderRequest → Type 0
Described w = 10 ≤ char_count (strip w.operator_note)

-- What each recipe wants to be selected or described.
abbrev pub Selects : RecipeId → WorkOrderRequest → Type 0
Selects RecipeId.collection_check w = OnlyRun w.references
Selects RecipeId.collection_failure w = OnlyRun w.references
Selects RecipeId.person_review w =
    (w.references ≢ []) × All (λ (r : WorkReference). r.kind ≡ RecordKind.observations) w.references
Selects RecipeId.identity_link w = IdentitySelection w.references
Selects RecipeId.product_fix w = Described w
Selects RecipeId.result_check w = (w.references ≢ []) ⊎ Described w

OnlyRun-sound :
    (refs : List WorkReference)
    → (length refs == 1) ≡ true
    → kinds_are (RecordKind.runs ∷ []) refs ≡ true
    → OnlyRun refs
OnlyRun-sound [] n k = cc
OnlyRun-sound (r ∷ []) n k = (r, refl, eq_of_== _ _ (ground (arith, k)))
OnlyRun-sound (r ∷ q ∷ refs) n k = absurd (ground (arith, n))

OnlyRun-complete :
    (refs : List WorkReference)
    → OnlyRun refs
    → ((length refs == 1) ≡ true) × (kinds_are (RecordKind.runs ∷ []) refs ≡ true)
OnlyRun-complete refs (r, same, kind) =
    let fits = λ (rs : List WorkReference).
      ((length rs == 1) ≡ true) × (kinds_are (RecordKind.runs ∷ []) rs ≡ true) in
    subst fits (sym same) (refl, ground (arith, kind))

one_iff : (k : RecordKind) (r : WorkReference) → (contains (k ∷ []) r.kind ≡ true) ↔ (r.kind ≡ k)
one_iff k r = (λ h. sym (eq_of_== k r.kind (ground (arith, h))), λ q. ground (arith, q, ==-refl k))

abbrev linkable : List RecordKind
linkable = RecordKind.observations ∷ RecordKind.people ∷ RecordKind.evidence ∷ []

linkable_iff : (r : WorkReference) → (contains linkable r.kind ≡ true) ↔ Linkable r
linkable_iff r = (λ h. ground (arith, h), λ q. ground (arith, q))

any_of_count :
    (p : WorkReference → Bool) (refs : List WorkReference)
    → 1 ≤ length (keep p refs)
    → any p refs ≡ true
any_of_count p [] h = absurd (omega (arith, h))
any_of_count p (r ∷ refs) h = elim (Bool-cases (p r)) [
  | inl t ↦ ground (arith, t)
  | inr f ↦ ground (arith, f, any_of_count p refs (ground (arith, f, h)))
]

any_of_all :
    (k : RecordKind) (refs : List WorkReference)
    → refs ≢ []
    → All (λ (r : WorkReference). r.kind ≡ k) refs
    → any (of_kind k) refs ≡ true
any_of_all k [] some_there h = absurd (some_there refl)
any_of_all k (r ∷ refs) some_there h = ground (arith, h.0, ==-refl k)

is_empty_iff : (refs : List WorkReference) → (is_empty refs ≡ false) ↔ (refs ≢ [])
is_empty_iff [] = (λ h. cc, λ h. absurd (h refl))
is_empty_iff (r ∷ refs) = (λ h q. cc, λ h. refl)

Selects-sound :
    (recipe : RecipeId) (w : WorkOrderRequest) → validate_recipe recipe w ≡ ok tt → Selects recipe w
unfolding validate_recipe note_too_short
Selects-sound RecipeId.collection_check w h =
    OnlyRun-sound w.references (ground (arith, h)) (ground (arith, h))
Selects-sound RecipeId.collection_failure w h =
    OnlyRun-sound w.references (ground (arith, h)) (ground (arith, h))
Selects-sound RecipeId.person_review w h = (
  (is_empty_iff w.references).0 (ground (arith, h)),
  all_sound _ _ (one_iff RecordKind.observations) w.references (ground (arith, h)),
)
Selects-sound RecipeId.identity_link w h = record {
  one_observation = record { count = ground (arith, h) };
  one_person = record { count = ground (arith, h) };
  some_evidence = ground (arith, h);
  no_other = all_sound _ _ linkable_iff w.references (ground (arith, h));
}
Selects-sound RecipeId.product_fix w h = ground (arith, h)
Selects-sound RecipeId.result_check w h = elim (Bool-cases (is_empty w.references)) [
  | inl t ↦ inr (ground (arith, h, t))
  | inr f ↦ inl ((is_empty_iff w.references).0 f)
]

Selects-complete :
    (recipe : RecipeId) (w : WorkOrderRequest) → Selects recipe w → validate_recipe recipe w ≡ ok tt
unfolding validate_recipe note_too_short
Selects-complete RecipeId.collection_check w s =
    let fits = OnlyRun-complete w.references s in ground (arith, fits.0, fits.1)
Selects-complete RecipeId.collection_failure w s =
    let fits = OnlyRun-complete w.references s in ground (arith, fits.0, fits.1)
Selects-complete RecipeId.person_review w s = ground (
  arith,
  (is_empty_iff w.references).1 s.0,
  all_complete _ _ (one_iff RecordKind.observations) w.references s.1,
  any_of_all RecordKind.observations w.references s.0 s.1,
)
Selects-complete RecipeId.identity_link w s =
    let first =
      any_of_count (of_kind RecordKind.observations) w.references
        (omega (arith, s.one_observation.count)) in
    let second =
      any_of_count (of_kind RecordKind.people) w.references (omega (arith, s.one_person.count)) in
    ground (
      arith,
      all_complete _ _ linkable_iff w.references s.no_other,
      first,
      second,
      s.some_evidence,
      s.one_observation.count,
      s.one_person.count,
    )
Selects-complete RecipeId.product_fix w s = ground (arith, s)
Selects-complete RecipeId.result_check w (inl there) =
    ground (arith, (is_empty_iff w.references).1 there)
Selects-complete RecipeId.result_check w (inr told) = ground (arith, told)

-- A request as its fields and its recipe want it.
pub record Orderly (w : WorkOrderRequest) : Type 0 where
  pub few_references : length w.references ≤ 25
  pub versions : All (λ (r : WorkReference). is_version r.version ≡ true) w.references
  pub short_note : char_count w.operator_note ≤ 1500
  pub distinct : has_duplicates (map reference_key w.references) ≡ false
  pub selects : Selects w.recipe_id w

version_iff :
    (r : WorkReference) → (not (is_version r.version) ≡ false) ↔ (is_version r.version ≡ true)
version_iff r = (λ h. ground (arith, h), λ h. ground (arith, h))

work_order_sound : (w : WorkOrderRequest) → validate_work_order w ≡ ok tt → Orderly w
unfolding validate_work_order
work_order_sound w h = record {
  few_references = ground (arith, h);
  versions = not_any_sound _ _ version_iff w.references (ground (arith, h));
  short_note = ground (arith, h);
  distinct = ground (arith, h);
  selects = Selects-sound w.recipe_id w (ground (arith, h));
}

work_order_complete : (w : WorkOrderRequest) → Orderly w → validate_work_order w ≡ ok tt
unfolding validate_work_order
work_order_complete w o = ground (
  arith,
  o.few_references,
  not_any_complete _ _ version_iff w.references o.versions,
  o.short_note,
  o.distinct,
  Selects-complete w.recipe_id w o.selects,
)

-- A request can be constructed exactly when it has at most 25 references, all different and each
-- with a well-formed version, a note of at most 1500 characters, and what its recipe wants: for a
-- collection one source run, for a person review observations alone, for an identity link one
-- observation and one person with evidence and nothing else, for a fix a note of ten characters
-- between its outer spaces, for a result check a reference or such a note.
pub validate_work_order-Orderly :
    (w : WorkOrderRequest) → (validate_work_order w ≡ ok tt) ↔ Orderly w
validate_work_order-Orderly w = (work_order_sound w, work_order_complete w)
