-- ===== src/Prelude/Pairs.antt =====
-- Two different values in a list, and the size of the set of its values.
use Prim.Native.Nat.{◌≤◌}
use mathlib.Core.Path.{◌≡◌, sym, subst}
use mathlib.Core.Logic.{◌≢◌, ◌↔◌, inl, inr}
use mathlib.Core.Bool.{true, false, ◌&&◌}
use mathlib.Core.List.{List, [], ◌∷◌}
use native.Mathlib.Omega.{arith}
use civic_intel.Prelude.Equality.{Eq, ◌==◌, eq_of_==}
use civic_intel.Prelude.Lists.{contains, has_duplicates, ordered_unique, length}
use civic_intel.Prelude.Predicates.{In, In-of_contains, contains_of_In}
use civic_intel.Prelude.Sets.{length-le_of_subset, intersection, contains-keep, has_duplicates-keep}
use civic_intel.Prelude.Tests.{Bool-cases}
use civic_intel.Prelude.Unique.{has_duplicates-ordered_unique, contains-ordered_unique}

-- Two different values that stand in both lists.
pub record TwoShared {A : Type 0} (xs ys : List A) : Type 0 where
  pub one : A
  pub other : A
  pub distinct : one ≢ other
  pub one_left : In one xs
  pub one_right : In one ys
  pub other_left : In other xs
  pub other_right : In other ys

module _ {A : Type 0} ⦃e : Eq A⦄ where
  two_of_length :
      (xs : List A)
      → has_duplicates xs ≡ false
      → 2 ≤ length xs
      → (x : A) × (y : A) × (x ≢ y) × (contains xs x ≡ true) × (contains xs y ≡ true)
  two_of_length [] d h = absurd (omega arith)
  two_of_length (x ∷ []) d h = absurd (omega arith)
  two_of_length (x ∷ y ∷ xs) d h = (
    x,
    y,
    λ q. ground (arith, (e.agrees_iff y x).1 (sym q)),
    ground (arith, e.agrees_iff x x),
    ground (arith, e.agrees_iff y y),
  )

  contains-intersection :
      (xs ys : List A) (a : A) → contains (intersection xs ys) a ≡ (contains xs a && contains ys a)
  contains-intersection xs ys a =
      ground
        (arith, contains-keep (contains ys) (ordered_unique xs) a, contains-ordered_unique xs a)

  has_duplicates-intersection : (xs ys : List A) → has_duplicates (intersection xs ys) ≡ false
  has_duplicates-intersection xs ys =
      has_duplicates-keep (contains ys) (ordered_unique xs) (has_duplicates-ordered_unique xs)

  TwoShared-of_length : (xs ys : List A) → 2 ≤ length (intersection xs ys) → TwoShared xs ys
  TwoShared-of_length xs ys h =
      let (x, y, d, hx, hy) =
        two_of_length (intersection xs ys) (has_duplicates-intersection xs ys) h in
      record {
        one = x;
        other = y;
        distinct = d;
        one_left = In-of_contains x xs (ground (arith, contains-intersection xs ys x));
        one_right = In-of_contains x ys (ground (arith, contains-intersection xs ys x));
        other_left = In-of_contains y xs (ground (arith, contains-intersection xs ys y));
        other_right = In-of_contains y ys (ground (arith, contains-intersection xs ys y));
      }

  length_of_TwoShared : (xs ys : List A) → TwoShared xs ys → 2 ≤ length (intersection xs ys)
  length_of_TwoShared xs ys t =
      length-le_of_subset (t.one ∷ t.other ∷ []) (intersection xs ys)
        (elim (Bool-cases (t.other == t.one)) [
          | inl q ↦ absurd (t.distinct (sym (eq_of_== _ _ q)))
          | inr q ↦ ground (arith, q)
        ])
        (λ a h. elim (In-of_contains a (t.one ∷ t.other ∷ []) h) [
          | inl q ↦
              subst (λ z. contains (intersection xs ys) z ≡ true) q
                (both t.one t.one_left t.one_right)
          | inr (inl q) ↦
              subst (λ z. contains (intersection xs ys) z ≡ true) q
                (both t.other t.other_left t.other_right)
          | inr (inr q) ↦ elim q [ ]
        ])
    where
      both : (a : A) → In a xs → In a ys → contains (intersection xs ys) a ≡ true
      both a l r =
          ground
            (arith, contains-intersection xs ys a, contains_of_In a xs l, contains_of_In a ys r)

  pub TwoShared-iff : (xs ys : List A) → (2 ≤ length (intersection xs ys)) ↔ TwoShared xs ys
  TwoShared-iff xs ys = (TwoShared-of_length xs ys, length_of_TwoShared xs ys)

  -- A set has two values or more exactly when its list has two different ones.
  pub two_values_iff : (xs : List A) → (2 ≤ length (ordered_unique xs)) ↔ TwoShared xs xs
  two_values_iff xs =
      let inward =
        length-le_of_subset (ordered_unique xs) (intersection xs xs)
          (has_duplicates-ordered_unique xs)
          (λ a h. ground (arith, contains-intersection xs xs a, contains-ordered_unique xs a, h)) in
      let outward =
        length-le_of_subset (intersection xs xs) (ordered_unique xs)
          (has_duplicates-intersection xs xs)
          (λ a h. ground (arith, contains-intersection xs xs a, contains-ordered_unique xs a, h)) in
      (
        λ h. TwoShared-of_length xs xs (omega (arith, inward, h)),
        λ t. omega (arith, outward, length_of_TwoShared xs xs t),
      )
