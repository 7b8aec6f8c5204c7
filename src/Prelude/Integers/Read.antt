-- ===== src/Prelude/Integers/Read.antt =====
-- Python's integers: `int` reads what `str` wrote.
use Prim.Native.Nat.{ℕ, zero, suc, ◌+◌, ◌-◌, ◌*◌, ◌/◌, ◌%◌, ◌≤◌, ◌<◌}
use Prim.Native.Char.{Char, code}
use Prim.Native.String.{String}
use mathlib.Core.Path.{◌≡◌, refl, ap, ◌∙◌}
use mathlib.Core.Logic.{inl, inr}
use mathlib.Core.Bool.{Bool, true, false}
use mathlib.Core.Option.{some}
use native.Mathlib.Omega.{arith}
use civic_intel.Prelude.Tests.{nat_beq, Bool-cases}
use civic_intel.Prelude.Texts.{Unicode, strip, lstrip, rstrip, is_space, blank}
use civic_intel.Prelude.Integers.{pos, digit_char, emit, str_nat, scan, positive, signed, int_of}

-- The characters are ASCII digits.
abbrev IsDigits : String → Type 0
IsDigits String.[] = Unit
IsDigits (String.◌∷◌ c s) = (b'0' ≤ code c) × (code c ≤ b'9') × IsDigits s

code-digit_char : (d : ℕ) → d < 10 → code (digit_char d) ≡ b'0' + d
unfolding digit_char
code-digit_char zero h = refl
code-digit_char (suc zero) h = refl
code-digit_char (suc (suc zero)) h = refl
code-digit_char (suc (suc (suc zero))) h = refl
code-digit_char (suc (suc (suc (suc zero)))) h = refl
code-digit_char (suc (suc (suc (suc (suc zero))))) h = refl
code-digit_char (suc (suc (suc (suc (suc (suc zero)))))) h = refl
code-digit_char (suc (suc (suc (suc (suc (suc (suc zero))))))) h = refl
code-digit_char (suc (suc (suc (suc (suc (suc (suc (suc zero)))))))) h = refl
code-digit_char (suc (suc (suc (suc (suc (suc (suc (suc (suc zero))))))))) h = refl
code-digit_char (suc (suc (suc (suc (suc (suc (suc (suc (suc (suc n)))))))))) h =
    absurd (omega (arith, h))

emit-IsDigits : (fuel n : ℕ) (out : String) → IsDigits out → IsDigits (emit fuel n out)
unfolding emit
emit-IsDigits zero n out h = h
emit-IsDigits (suc fuel) n out h =
    let exact = code-digit_char (n % 10) (omega arith) in
    let more : IsDigits (String.◌∷◌ (digit_char (n % 10)) out) =
      (omega (arith, exact), omega (arith, exact), h) in
    ground (arith, h, emit-IsDigits fuel (n / 10) (String.◌∷◌ (digit_char (n % 10)) out) more)

scan-cons :
    (u : Unicode) (ended : Bool) (c : Char) (s : String) (n : ℕ)
    → b'0' ≤ code c
    → code c ≤ b'9'
    → scan u ended (String.◌∷◌ c s) n ≡ scan u true s (n * 10 + (code c - b'0'))
unfolding scan
scan-cons u ended c s n low high = ground arith

digit_no_space : (c : ℕ) → b'0' ≤ c → c ≤ b'9' → is_space c ≡ false
unfolding is_space
digit_no_space c low high = ground arith

rstrip-digits : (s : String) → IsDigits s → rstrip s ≡ s
unfolding rstrip
rstrip-digits String.[] h = refl
rstrip-digits (String.◌∷◌ c s) h =
    let same = rstrip-digits s h.2 in ground (arith, digit_no_space (code c) h.0 h.1, same)

strip-digits : (s : String) → IsDigits s → strip s ≡ s
unfolding strip lstrip
strip-digits String.[] h = rstrip-digits String.[] h
strip-digits (String.◌∷◌ c s) h =
    ground (arith, digit_no_space (code c) h.0 h.1, rstrip-digits (String.◌∷◌ c s) h)

scan-emit :
    (u : Unicode) (fuel n : ℕ) (out : String)
    → n ≤ fuel
    → scan u true (emit fuel n out) 0 ≡ scan u true out n
unfolding emit
scan-emit u zero n out h = ap (scan u true out) (omega (arith, h))
scan-emit u (suc fuel) n out h =
    let exact = code-digit_char (n % 10) (omega arith) in
    let last : n / 10 * 10 + (code (digit_char (n % 10)) - b'0') ≡ n = omega (arith, exact) in
    let read =
      scan-cons u true (digit_char (n % 10)) out (n / 10) (omega (arith, exact))
        (omega (arith, exact)) in
    let step = read ∙ ap (scan u true out) last in
    elim (Bool-cases (nat_beq n 0)) [
      | inl e ↦ ground (arith, e)
      | inr e ↦ ground (
        arith,
        e,
        scan-emit u fuel (n / 10) (String.◌∷◌ (digit_char (n % 10)) out) (ground (arith, e, h)),
        step,
      )
    ]

-- A text of digits is read as its value.
signed-digits :
    (u : Unicode) (s : String) (n : ℕ)
    → IsDigits s
    → blank s ≡ false
    → scan u true s 0 ≡ some n
    → signed u s ≡ some (pos n)
unfolding signed positive
signed-digits u String.[] n h full e = cc
signed-digits u (String.◌∷◌ c s) n h full e =
    let first = scan-cons u false c s 0 h.0 h.1 in
    let again = scan-cons u true c s 0 h.0 h.1 in ground (arith, first, again, e, h.0, h.1)

blank-emit : (fuel n : ℕ) (out : String) → blank out ≡ false → blank (emit fuel n out) ≡ false
unfolding emit
blank-emit zero n out h = h
blank-emit (suc fuel) n out h =
    ground (arith, h, blank-emit fuel (n / 10) (String.◌∷◌ (digit_char (n % 10)) out) refl)

blank-str_nat : (n : ℕ) → blank (str_nat n) ≡ false
unfolding str_nat emit
blank-str_nat zero = refl
blank-str_nat (suc n) =
    ground (arith, blank-emit n (suc n / 10) (String.◌∷◌ (digit_char (suc n % 10)) "") refl)

str_nat-IsDigits : (n : ℕ) → IsDigits (str_nat n)
unfolding str_nat
str_nat-IsDigits zero = (omega arith, omega arith, tt)
str_nat-IsDigits (suc n) = emit-IsDigits (suc n) (suc n) "" tt

scan-str_nat : (u : Unicode) (n : ℕ) → scan u true (str_nat n) 0 ≡ some n
unfolding str_nat scan
scan-str_nat u zero = refl
scan-str_nat u (suc n) = scan-emit u (suc n) (suc n) "" (omega arith)

-- `int(str(n)) == n`
pub int_of-str_nat : (u : Unicode) (n : ℕ) → int_of u (str_nat n) ≡ some (pos n)
unfolding int_of
int_of-str_nat u n =
    ap (signed u) (strip-digits (str_nat n) (str_nat-IsDigits n))
    ∙ signed-digits u (str_nat n) n (str_nat-IsDigits n) (blank-str_nat n) (scan-str_nat u n)
