-- ===== src/Prelude/Predicates.antt =====
-- Statements about the items of a list, and the Boolean searches that decide them.
use mathlib.Core.Path.{◌≡◌, refl, subst}
use mathlib.Core.Logic.{◌↔◌, ◌⊎◌, inl, inr}
use mathlib.Core.Bool.{Bool, true, false, not}
use mathlib.Core.List.{List, [], ◌∷◌}
use native.Mathlib.Omega.{arith}
use civic_intel.Prelude.Equality.{Eq, ◌==◌, ◌!=◌}
use civic_intel.Prelude.Lists.{any, all, contains}
use civic_intel.Prelude.Tests.{Bool-cases}

abbrev pub All : {A : Type 0} → (A → Type 0) → List A → Type 0
All P [] = Unit
All P (x ∷ xs) = P x × All P xs

abbrev pub Exists : {A : Type 0} → (A → Type 0) → List A → Type 0
Exists P [] = ⊥
Exists P (x ∷ xs) = P x ⊎ Exists P xs

-- `a` stands in the list.
abbrev pub In : {A : Type 0} → A → List A → Type 0
In a [] = ⊥
In a (x ∷ xs) = (x ≡ a) ⊎ In a xs

module _ {A : Type 0} (p : A → Bool) (P : A → Type 0) (p_iff : (a : A) → (p a ≡ true) ↔ P a) where
  pub all_sound : (xs : List A) → all p xs ≡ true → All P xs
  all_sound [] h = tt
  all_sound (x ∷ xs) h = ((p_iff x).0 (ground arith), all_sound xs (ground arith))

  pub all_complete : (xs : List A) → All P xs → all p xs ≡ true
  all_complete [] h = refl
  all_complete (x ∷ xs) h = ground (arith, (p_iff x).1 h.0, all_complete xs h.1)

  pub any_sound : (xs : List A) → any p xs ≡ true → Exists P xs
  any_sound [] h = cc
  any_sound (x ∷ xs) h = elim (Bool-cases (p x)) [
    | inl e ↦ inl ((p_iff x).0 e)
    | inr e ↦ inr (any_sound xs (ground arith))
  ]

  pub any_complete : (xs : List A) → Exists P xs → any p xs ≡ true
  any_complete [] h = elim h [ ]
  any_complete (x ∷ xs) (inl h) = ground (arith, (p_iff x).1 h)
  any_complete (x ∷ xs) (inr h) = ground (arith, any_complete xs h)

-- What holds of all the items holds of each.
pub All-In : {A : Type 0} (P : A → Type 0) (a : A) (xs : List A) → All P xs → In a xs → P a
All-In P a [] h i = elim i [ ]
All-In P a (x ∷ xs) h (inl e) = subst P e h.0
All-In P a (x ∷ xs) h (inr i) = All-In P a xs h.1 i

module _ {A : Type 0} ⦃e : Eq A⦄ where
  pub In-of_contains : (a : A) (xs : List A) → contains xs a ≡ true → In a xs
  In-of_contains a [] h = cc
  In-of_contains a (x ∷ xs) h = elim (Bool-cases (x == a)) [
    | inl q ↦ inl ((e.agrees_iff x a).0 q)
    | inr q ↦ inr (In-of_contains a xs (ground arith))
  ]

  pub contains_of_In : (a : A) (xs : List A) → In a xs → contains xs a ≡ true
  contains_of_In a [] i = elim i [ ]
  contains_of_In a (x ∷ xs) (inl q) = ground (arith, (e.agrees_iff x a).1 q)
  contains_of_In a (x ∷ xs) (inr i) = ground (arith, contains_of_In a xs i)

-- `not any(p(x) for x in xs)`
module _ {A : Type 0} (p : A → Bool) (P : A → Type 0) (p_iff : (a : A) → (p a ≡ false) ↔ P a) where
  pub not_any_sound : (xs : List A) → any p xs ≡ false → All P xs
  not_any_sound [] h = tt
  not_any_sound (x ∷ xs) h = ((p_iff x).0 (ground arith), not_any_sound xs (ground arith))

  pub not_any_complete : (xs : List A) → All P xs → any p xs ≡ false
  not_any_complete [] h = refl
  not_any_complete (x ∷ xs) h = ground (arith, (p_iff x).1 h.0, not_any_complete xs h.1)

pub !=_iff : {A : Type 0} ⦃e : Eq A⦄ (a b : A) → ((a != b) ≡ false) ↔ (a ≡ b)
!=_iff ⦃e⦄ a b =
    (λ h. (e.agrees_iff a b).0 (ground (arith, h)), λ h. ground (arith, (e.agrees_iff a b).1 h))

pub not-contains_iff :
    {A : Type 0} ⦃e : Eq A⦄ (xs : List A) (a : A) → (not (contains xs a) ≡ false) ↔ In a xs
not-contains_iff xs a =
    (λ h. In-of_contains a xs (ground (arith, h)), λ i. ground (arith, contains_of_In a xs i))
