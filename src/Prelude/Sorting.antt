-- ===== src/Prelude/Sorting.antt =====
-- Python's `sorted`, as an insertion sort: a stable sort of the same items.
use Prim.Native.Nat.{Ordering}
use Prim.Native.String.{String, compare}
use mathlib.Core.Bool.{Bool, true, false}
use mathlib.Core.List.{List, [], ◌∷◌}
use civic_intel.Prelude.Tests.{if◌then◌else◌}
use civic_intel.Prelude.Equality.{◌==◌, string_eq}

-- `a <= b` of two texts, by code points
abbrev pub string_leb : String → String → Bool
string_leb a b = elim (compare a b) [ Ordering.gt ↦ false | _ ↦ true ]

-- `a <= b` of two pairs of texts
abbrev pub pair_leb : String × String → String × String → Bool
pair_leb (a, v) (b, w) = if a == b then string_leb v w else string_leb a b

module _ {ℓ} {A : Type ℓ} (at_most : A → A → Bool) where
  unfoldable pub insert_sorted : A → List A → List A
  insert_sorted a [] = a ∷ []
  insert_sorted a (x ∷ xs) =
      let rest = insert_sorted a xs in if at_most a x then a ∷ x ∷ xs else x ∷ rest

  unfoldable pub sorted : List A → List A
  unfolding insert_sorted
  sorted [] = []
  sorted (x ∷ xs) = insert_sorted x (sorted xs)
