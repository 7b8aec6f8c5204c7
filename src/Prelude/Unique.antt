-- ===== src/Prelude/Unique.antt =====
-- The laws of `dict.fromkeys`: first occurrences, each value once, nothing lost.
use mathlib.Core.Path.{◌≡◌, refl}
use mathlib.Core.Bool.{false, not, ◌&&◌}
use mathlib.Core.List.{List, [], ◌∷◌}
use native.Mathlib.Omega.{arith}
use civic_intel.Prelude.Equality.{Eq}
use civic_intel.Prelude.Lists.{contains, has_duplicates, unseen, ordered_unique, is_empty}

module _ {ℓ} {A : Type ℓ} ⦃e : Eq A⦄ where
  -- What is left of a list holds exactly the values that were not seen.
  pub contains-unseen :
      (seen xs : List A) (a : A)
      → contains (unseen seen xs) a ≡ (contains xs a && not (contains seen a))
  unfolding unseen
  contains-unseen seen [] a = refl
  contains-unseen seen (x ∷ xs) a =
      ground (arith, contains-unseen (x ∷ seen) xs a, e.agrees_iff x a)

  pub has_duplicates-unseen : (seen xs : List A) → has_duplicates (unseen seen xs) ≡ false
  unfolding unseen
  has_duplicates-unseen seen [] = refl
  has_duplicates-unseen seen (x ∷ xs) = ground (
    arith,
    has_duplicates-unseen (x ∷ seen) xs,
    contains-unseen (x ∷ seen) xs x,
    e.agrees_iff x x,
  )

  pub contains-ordered_unique :
      (xs : List A) (a : A) → contains (ordered_unique xs) a ≡ contains xs a
  contains-ordered_unique xs a = ground (arith, contains-unseen [] xs a)

  pub has_duplicates-ordered_unique : (xs : List A) → has_duplicates (ordered_unique xs) ≡ false
  has_duplicates-ordered_unique xs = has_duplicates-unseen [] xs

  pub is_empty-ordered_unique : (xs : List A) → is_empty (ordered_unique xs) ≡ is_empty xs
  unfolding unseen
  is_empty-ordered_unique [] = refl
  is_empty-ordered_unique (x ∷ xs) = refl
