-- ===== src/Prelude/Integers.antt =====
-- Python's integers: the type, `str` of one and `int` of a text.
pub mod Read
use Prim.Native.Nat.{ℕ, zero, suc, ◌+◌, ◌-◌, ◌*◌, ◌/◌, ◌%◌}
use Prim.Native.Char.{Char, code}
use Prim.Native.String.{String}
use mathlib.Core.Path.{◌≡◌, refl, ap}
use mathlib.Core.Logic.{◌↔◌}
use mathlib.Core.Bool.{Bool, true, false, ◌&&◌}
use mathlib.Core.Option.{Option, none, some}
use native.Mathlib.Omega.{arith}
use civic_intel.Prelude.Tests.{leb, ltb, nat_beq, nat_beq_iff, if◌then◌else◌}
use civic_intel.Prelude.Equality.{Eq}
use civic_intel.Prelude.Texts.{Unicode, strip}

-- `negsuc n` is -(n + 1).
pub data ℤ : Type 0 where
  pos : ℕ → ℤ
  negsuc : ℕ → ℤ

abbrev pub int_beq : ℤ → ℤ → Bool
int_beq (pos a) (pos b) = nat_beq a b
int_beq (pos a) (negsuc b) = false
int_beq (negsuc a) (pos b) = false
int_beq (negsuc a) (negsuc b) = nat_beq a b

pub int_beq_iff : (a b : ℤ) → (int_beq a b ≡ true) ↔ (a ≡ b)
int_beq_iff (pos a) (pos b) =
    (λ h. ap pos ((nat_beq_iff a b).0 h), λ h. (nat_beq_iff a b).1 (ground (arith, h)))
int_beq_iff (pos a) (negsuc b) = (λ h. cc, λ h. cc)
int_beq_iff (negsuc a) (pos b) = (λ h. cc, λ h. cc)
int_beq_iff (negsuc a) (negsuc b) =
    (λ h. ap negsuc ((nat_beq_iff a b).0 h), λ h. (nat_beq_iff a b).1 (ground (arith, h)))

instance abbrev pub int_eq : Eq ℤ
int_eq = record { agrees = int_beq; agrees_iff = int_beq_iff }

-- `a < b`
abbrev pub int_ltb : ℤ → ℤ → Bool
int_ltb (pos a) (pos b) = ltb a b
int_ltb (pos a) (negsuc b) = false
int_ltb (negsuc a) (pos b) = true
int_ltb (negsuc a) (negsuc b) = ltb b a

-- `a + 1`
abbrev pub successor : ℤ → ℤ
successor (pos a) = pos (a + 1)
successor (negsuc zero) = pos 0
successor (negsuc (suc a)) = negsuc a

infixl 65 ◌+ℤ◌
-- `a + b`
unfoldable pub ◌+ℤ◌ : ℤ → ℤ → ℤ
pos a +ℤ pos b = pos (a + b)
pos a +ℤ negsuc b = if ltb b a then pos (a - (b + 1)) else negsuc (b - a)
negsuc a +ℤ pos b = if ltb a b then pos (b - (a + 1)) else negsuc (a - b)
negsuc a +ℤ negsuc b = negsuc (a + b + 1)

-- `a // b` for a divisor that is not zero: the quotient, rounded down
unfoldable pub floor_div : ℤ → ℤ → ℤ
floor_div (pos a) (pos b) = pos (a / b)
floor_div (negsuc a) (pos b) = negsuc (a / b)
floor_div (pos zero) (negsuc b) = pos 0
floor_div (pos (suc a)) (negsuc b) = negsuc (a / suc b)
floor_div (negsuc a) (negsuc b) = pos (suc a / suc b)

unfoldable pub digit_char : ℕ → Char
digit_char zero = "0"
digit_char (suc zero) = "1"
digit_char (suc (suc zero)) = "2"
digit_char (suc (suc (suc zero))) = "3"
digit_char (suc (suc (suc (suc zero)))) = "4"
digit_char (suc (suc (suc (suc (suc zero))))) = "5"
digit_char (suc (suc (suc (suc (suc (suc zero)))))) = "6"
digit_char (suc (suc (suc (suc (suc (suc (suc zero))))))) = "7"
digit_char (suc (suc (suc (suc (suc (suc (suc (suc zero)))))))) = "8"
digit_char n = "9"

-- The digits of `n` before `out`. The fuel `n` is enough, since each round divides by ten.
unfoldable pub emit : ℕ → ℕ → String → String
emit zero n out = out
emit (suc fuel) n out = elim (nat_beq n 0) [
  | true ↦ out
  | false ↦ emit fuel (n / 10) (String.◌∷◌ (digit_char (n % 10)) out)
]

-- `str(n)`
unfoldable pub str_nat : ℕ → String
unfolding emit digit_char
str_nat zero = "0"
str_nat (suc n) = emit (suc n) (suc n) ""

unfoldable pub str : ℤ → String
unfolding str_nat
str (pos n) = str_nat n
str (negsuc n) = String.◌∷◌ "-" (str_nat (suc n))

-- The value of one decimal digit.
abbrev pub digit_of : Unicode → Char → Option ℕ
digit_of u c =
    if leb b'0' (code c) && leb (code c) b'9' then some (code c - b'0') else u.decimal (code c)

-- The digits that are left, after those that spell `n`; single underscores may stand between two.
-- `ended` tells that a digit has just been read.
unfoldable pub scan : Unicode → Bool → String → ℕ → Option ℕ
scan u ended String.[] n = if ended then some n else none
scan u ended (String.◌∷◌ c s) n = elim (nat_beq (code c) b'_') [
  | true ↦ (elim ended [ true ↦ scan u false s n | false ↦ none ])
  | false ↦ (elim (digit_of u c) [ none ↦ none | some d ↦ scan u true s (n * 10 + d) ])
]

unfoldable pub negated : Option ℕ → Option ℤ
negated none = none
negated (some zero) = some (pos 0)
negated (some (suc n)) = some (negsuc n)

unfoldable pub positive : Option ℕ → Option ℤ
positive none = none
positive (some n) = some (pos n)

unfoldable pub signed : Unicode → String → Option ℤ
unfolding scan negated positive
signed u String.[] = none
signed u (String.◌∷◌ c s) =
    if nat_beq (code c) b'-'
    then negated (scan u false s 0)
    else if nat_beq (code c) b'+'
    then positive (scan u false s 0)
    else positive (scan u false (String.◌∷◌ c s) 0)

-- `int(text)`, where it does not raise `ValueError`. The limit of 4300 digits is left out.
unfoldable pub int_of : Unicode → String → Option ℤ
unfolding signed strip
int_of u s = signed u (strip s)

int_of_example : (u : Unicode) → int_of u " -1_07\n" ≡ some (negsuc 106)
unfolding int_of
int_of_example u = refl

divides_example : floor_div (negsuc 6 +ℤ pos 0) (pos 2) ≡ negsuc 3
unfolding floor_div ◌+ℤ◌
divides_example = refl

str_example : str (negsuc 119) ≡ "-120"
unfolding str
str_example = refl
