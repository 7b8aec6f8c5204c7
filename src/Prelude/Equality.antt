-- ===== src/Prelude/Equality.antt =====
-- Python's `==` on the values that the program compares: one operator for each type with an
-- instance.
use Prim.Native.Nat.{ℕ}
use Prim.Native.String.{String}
use mathlib.Core.Path.{◌≡◌, refl, ap}
use mathlib.Core.Logic.{◌↔◌}
use mathlib.Core.Bool.{Bool, true, false, not, ◌&&◌}
use mathlib.Core.Option.{Option, none, some}
use mathlib.Core.List.{List, [], ◌∷◌}
use native.Mathlib.Omega.{arith}
use text.Mathlib.Text.{◌==◌ as str_eq}
use text.Mathlib.TextEquality.{eq_iff}
use civic_intel.Prelude.Tests.{nat_beq, nat_beq_iff}

pub record Eq {ℓ} (A : Type ℓ) : Type ℓ where
  pub agrees : A → A → Bool
  pub agrees_iff : (x y : A) → (agrees x y ≡ true) ↔ (x ≡ y)

infix 50 ◌==◌ ◌!=◌
abbrev pub ◌==◌ {ℓ} : {A : Type ℓ} ⦃e : Eq A⦄ → A → A → Bool
◌==◌ ⦃e⦄ = e.agrees

abbrev pub ◌!=◌ {ℓ} : {A : Type ℓ} ⦃e : Eq A⦄ → A → A → Bool
a != b = not (a == b)

instance abbrev pub string_eq : Eq String
string_eq = record { agrees = str_eq; agrees_iff = eq_iff }

abbrev pub bool_beq : Bool → Bool → Bool
bool_beq true b = b
bool_beq false b = not b

pub bool_beq_iff : (a b : Bool) → (bool_beq a b ≡ true) ↔ (a ≡ b)
bool_beq_iff a b = (λ h. ground (arith, h), λ h. ground (arith, h))

instance abbrev pub bool_eq : Eq Bool
bool_eq = record { agrees = bool_beq; agrees_iff = bool_beq_iff }

instance abbrev pub nat_eq : Eq ℕ
nat_eq = record { agrees = nat_beq; agrees_iff = nat_beq_iff }

-- Values that an injective code into the numbers tells apart.
abbrev pub coded_eq {ℓ} : {A : Type ℓ} (tag : A → ℕ) → ((a b : A) → tag a ≡ tag b → a ≡ b) → Eq A
coded_eq tag injective = record {
  agrees = λ a b. nat_beq (tag a) (tag b);
  agrees_iff =
      λ a b. (λ h. injective a b ((nat_beq_iff _ _).0 h), λ h. (nat_beq_iff _ _).1 (ap tag h));
}

module _ {ℓ} {A : Type ℓ} ⦃e : Eq A⦄ where
  pub ==-refl : (a : A) → (a == a) ≡ true
  ==-refl a = (e.agrees_iff a a).1 refl

  pub eq_of_== : (a b : A) → (a == b) ≡ true → a ≡ b
  eq_of_== a b h = (e.agrees_iff a b).0 h

  pub ==-comm : (a b : A) → (a == b) ≡ (b == a)
  ==-comm a b = ground (arith, e.agrees_iff a b, e.agrees_iff b a)

module _ {ℓ} {A : Type ℓ} ⦃e : Eq A⦄ where
  abbrev pub option_beq : Option A → Option A → Bool
  option_beq none none = true
  option_beq (some a) (some b) = a == b
  option_beq none (some b) = false
  option_beq (some a) none = false

  pub option_beq_iff : (a b : Option A) → (option_beq a b ≡ true) ↔ (a ≡ b)
  option_beq_iff none none = (λ h. refl, λ h. refl)
  option_beq_iff none (some b) = (λ h. cc, λ h. cc)
  option_beq_iff (some a) none = (λ h. cc, λ h. cc)
  option_beq_iff (some a) (some b) =
      (λ h. ap some ((e.agrees_iff a b).0 h), λ h. (e.agrees_iff a b).1 (ground (arith, h)))

  instance abbrev pub option_eq : Eq (Option A)
  option_eq = record { agrees = option_beq; agrees_iff = option_beq_iff }

module _ {ℓ κ} {A : Type ℓ} {B : Type κ} ⦃e : Eq A⦄ ⦃f : Eq B⦄ where
  abbrev pub pair_beq : A × B → A × B → Bool
  pair_beq (a, b) (c, d) = a == c && b == d

  pub pair_beq_iff : (p q : A × B) → (pair_beq p q ≡ true) ↔ (p ≡ q)
  pair_beq_iff (a, b) (c, d) = (
    λ h. ground (arith, e.agrees_iff a c, f.agrees_iff b d),
    λ h. ground (arith, e.agrees_iff a c, f.agrees_iff b d),
  )

  instance abbrev pub pair_eq : Eq (A × B)
  pair_eq = record { agrees = pair_beq; agrees_iff = pair_beq_iff }

module _ {ℓ} {A : Type ℓ} ⦃e : Eq A⦄ where
  abbrev pub list_beq : List A → List A → Bool
  list_beq [] [] = true
  list_beq [] (y ∷ ys) = false
  list_beq (x ∷ xs) [] = false
  list_beq (x ∷ xs) (y ∷ ys) = x == y && list_beq xs ys

  pub list_beq_iff : (xs ys : List A) → (list_beq xs ys ≡ true) ↔ (xs ≡ ys)
  list_beq_iff [] [] = (λ h. refl, λ h. refl)
  list_beq_iff [] (y ∷ ys) = (λ h. cc, λ h. cc)
  list_beq_iff (x ∷ xs) [] = (λ h. cc, λ h. cc)
  list_beq_iff (x ∷ xs) (y ∷ ys) = (
    λ h. ground (arith, h, e.agrees_iff x y, list_beq_iff xs ys),
    λ h. ground (arith, h, e.agrees_iff x y, list_beq_iff xs ys),
  )

  instance abbrev pub list_eq : Eq (List A)
  list_eq = record { agrees = list_beq; agrees_iff = list_beq_iff }
