-- ===== src/Prelude/Texts.antt =====
-- What the program uses of Python's `str`: whitespace, `strip`, truth and comparison of optional
-- texts.
use Prim.Native.Nat.{ℕ, suc}
use Prim.Native.Char.{code}
use Prim.Native.String.{String}
use mathlib.Core.Path.{◌≡◌, refl}
use mathlib.Core.Bool.{Bool, true, false, not, ◌&&◌, ◌||◌}
use mathlib.Core.Option.{Option, none, some}
use civic_intel.Prelude.Tests.{leb, nat_beq, if◌then◌else◌}

-- `str.isspace` of one character: the code points that Unicode calls white space or a separator of
-- bidirectional class B, S or WS. `str.strip`, `str.split` and `\s` use the same set.
unfoldable pub is_space : ℕ → Bool
is_space c =
    leb 9 c && leb c 13
    || leb 28 c && leb c 32
    || nat_beq c 0x85
    || nat_beq c 0xA0
    || nat_beq c 0x1680
    || leb 0x2000 c && leb c 0x200A
    || nat_beq c 0x2028
    || nat_beq c 0x2029
    || nat_beq c 0x202F
    || nat_beq c 0x205F
    || nat_beq c 0x3000

abbrev pub blank : String → Bool
blank String.[] = true
blank (String.◌∷◌ c s) = false

unfoldable pub lstrip : String → String
unfolding is_space
lstrip String.[] = String.[]
lstrip (String.◌∷◌ c s) = if is_space (code c) then lstrip s else String.◌∷◌ c s

unfoldable pub rstrip : String → String
unfolding is_space
rstrip String.[] = String.[]
rstrip (String.◌∷◌ c s) =
    let rest = rstrip s in if is_space (code c) && blank rest then String.[] else String.◌∷◌ c rest

-- `text.strip()`
unfoldable pub strip : String → String
unfolding lstrip rstrip
strip s = rstrip (lstrip s)

-- The tables of the Unicode Character Database and the reader of ISO dates that Python carries
-- with it: `str.casefold`, `str.isalnum` of one character, `unicodedata.decimal` beyond ASCII, and
-- `date.fromisoformat`, which is `none` where it raises `ValueError`. Nothing is assumed of them.
pub record Unicode : Type 0 where
  pub casefold : String → String
  pub is_alnum : ℕ → Bool
  pub decimal : ℕ → Option ℕ
  pub date_from_iso : String → Option ℕ

-- The truth of an optional text: neither `None` nor the empty text.
abbrev pub truthy : Option String → Bool
truthy none = false
truthy (some s) = not (blank s)

-- `len(text)`
unfoldable pub char_count : String → ℕ
char_count String.[] = 0
char_count (String.◌∷◌ c s) = suc (char_count s)

-- `Field(min_length=1, max_length=limit)`
unfoldable pub fits : ℕ → String → Bool
unfolding char_count
fits limit s = not (blank s) && leb (char_count s) limit

-- `needle in text`
unfoldable pub begins : String → String → Bool
begins String.[] s = true
begins (String.◌∷◌ c n) String.[] = false
begins (String.◌∷◌ c n) (String.◌∷◌ d s) = nat_beq (code c) (code d) && begins n s

unfoldable pub within : String → String → Bool
unfolding begins
within needle String.[] = begins needle String.[]
within needle (String.◌∷◌ c s) = begins needle (String.◌∷◌ c s) || within needle s

strip_example : strip "  a b \n" ≡ "a b"
unfolding strip
strip_example = refl
