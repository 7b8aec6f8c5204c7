-- ===== src/Prelude/Sets.antt =====
-- Python's sets as lists: intersections, their symmetry and their size.
use Prim.Native.Nat.{suc, ◌≤◌}
use mathlib.Core.Path.{◌≡◌, refl, sym, subst}
use mathlib.Core.Logic.{inl, inr}
use mathlib.Core.Bool.{Bool, true, false, ◌&&◌, ◌||◌}
use mathlib.Core.List.{List, [], ◌∷◌}
use native.Mathlib.Omega.{arith}
use civic_intel.Prelude.Equality.{Eq, ◌==◌, ==-comm, eq_of_==}
use civic_intel.Prelude.Lists.{contains, has_duplicates, ordered_unique, overlaps, keep, length}
use civic_intel.Prelude.Tests.{Bool-cases, if◌then◌else◌}
use civic_intel.Prelude.Unique.{has_duplicates-ordered_unique, contains-ordered_unique}

module _ {ℓ} {A : Type ℓ} ⦃e : Eq A⦄ where
  overlaps-cons :
      (xs ys : List A) (y : A) → overlaps xs (y ∷ ys) ≡ (contains xs y || overlaps xs ys)
  overlaps-cons [] ys y = refl
  overlaps-cons (x ∷ xs) ys y = ground (arith, overlaps-cons xs ys y, ==-comm x y)

  overlaps-nil : (xs : List A) → overlaps xs [] ≡ false
  overlaps-nil [] = refl
  overlaps-nil (x ∷ xs) = overlaps-nil xs

  pub overlaps_comm : (xs ys : List A) → overlaps xs ys ≡ overlaps ys xs
  overlaps_comm [] ys = ground (arith, overlaps-nil ys)
  overlaps_comm (x ∷ xs) ys = ground (arith, overlaps-cons ys xs x, overlaps_comm xs ys)

  erase_first : A → List A → List A
  erase_first a [] = []
  erase_first a (x ∷ xs) = let rest = erase_first a xs in if x == a then xs else x ∷ rest

  length-erase_first :
      (a : A) (xs : List A) → contains xs a ≡ true → suc (length (erase_first a xs)) ≡ length xs
  unfolding erase_first
  length-erase_first a [] h = cc
  length-erase_first a (x ∷ xs) h = ground (arith, length-erase_first a xs)

  contains-erase_first :
      (a b : A) (xs : List A)
      → (a == b) ≡ false
      → contains xs b ≡ true
      → contains (erase_first a xs) b ≡ true
  unfolding erase_first
  contains-erase_first a b [] d h = h
  contains-erase_first a b (x ∷ xs) d h =
      ground
        (arith, contains-erase_first a b xs d, e.agrees_iff x a, e.agrees_iff x b, e.agrees_iff a b)

  -- A list without duplicates is no longer than a list that holds all its values.
  pub length-le_of_subset :
      (xs ys : List A)
      → has_duplicates xs ≡ false
      → ((a : A) → contains xs a ≡ true → contains ys a ≡ true)
      → length xs ≤ length ys
  length-le_of_subset [] ys d h = omega arith
  length-le_of_subset (x ∷ xs) ys d h =
      let here = h x (ground (arith, e.agrees_iff x x)) in
      let rest = length-le_of_subset xs (erase_first x ys) (ground arith) (λ a q.
        contains-erase_first x a ys
          (elim (Bool-cases (x == a)) [
            | inl same ↦
                ground (arith, subst (λ z. contains xs z ≡ true) (sym (eq_of_== x a same)) q)
            | inr other ↦ other
          ])
          (h a (ground arith))) in
      omega (arith, length-erase_first x ys here, rest)

  pub contains-keep :
      (p : A → Bool) (xs : List A) (a : A) → contains (keep p xs) a ≡ (contains xs a && p a)
  contains-keep p [] a = refl
  contains-keep p (x ∷ xs) a = elim (Bool-cases (x == a)) [
    | inl same ↦ rw (← eq_of_== x a same) (ground (arith, contains-keep p xs x, e.agrees_iff x x))
    | inr other ↦ ground (arith, contains-keep p xs a)
  ]

  pub has_duplicates-keep :
      (p : A → Bool) (xs : List A) → has_duplicates xs ≡ false → has_duplicates (keep p xs) ≡ false
  has_duplicates-keep p [] h = refl
  has_duplicates-keep p (x ∷ xs) h = ground (arith, has_duplicates-keep p xs, contains-keep p xs x)

  -- `set(xs) & set(ys)`
  abbrev pub intersection : List A → List A → List A
  intersection xs ys = keep (contains ys) (ordered_unique xs)

  length-intersection-le :
      (xs ys : List A) → length (intersection xs ys) ≤ length (intersection ys xs)
  length-intersection-le xs ys =
      length-le_of_subset (intersection xs ys) (intersection ys xs)
        (has_duplicates-keep (contains ys) (ordered_unique xs) (has_duplicates-ordered_unique xs))
        (λ a h. ground (
          arith,
          contains-keep (contains ys) (ordered_unique xs) a,
          contains-keep (contains xs) (ordered_unique ys) a,
          contains-ordered_unique xs a,
          contains-ordered_unique ys a,
          h,
        ))

  pub length-intersection_comm :
      (xs ys : List A) → length (intersection xs ys) ≡ length (intersection ys xs)
  length-intersection_comm xs ys =
      omega (arith, length-intersection-le xs ys, length-intersection-le ys xs)
