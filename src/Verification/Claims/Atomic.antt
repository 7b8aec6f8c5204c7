-- ===== src/Verification/Claims/Atomic.antt =====
-- packages/verification/claims.py: `is_atomic`, over the code points of the proposition.
use Prim.Native.Char.{code}
use civic_intel.Prelude.{
  ℕ, ◌+◌, ◌-◌, String, ◌≡◌, refl, Bool, true, false, not, ◌&&◌, ◌||◌, Option, none, some, List, [],
  ◌∷◌, leb, if◌then◌else◌, ◌==◌, ◌!=◌, nat_eq, string_eq, bool_eq, option_eq, pair_eq, any,
  contains,
}
use civic_intel.Prelude.Texts.{Unicode, is_space, strip}

pub codes : String → List ℕ
codes String.[] = []
codes (String.◌∷◌ c s) = code c ∷ codes s

-- `re.sub(r"「[^」]*」", "「」", text)`: what stands between 「 and the next 」 is dropped, and an
-- opening mark that nothing closes is kept with all that follows.
collapse : Bool → List ℕ → List ℕ
collapse inside [] = []
collapse inside (c ∷ cs) =
    let closing = c == 0x300D in
    let rest = collapse (if inside then not closing else c == 0x300C && contains cs 0x300D) cs in
    if inside && not closing then rest else c ∷ rest

-- `len(re.findall(r"[.!?](?:\s|$)", text))`
starts_clear : List ℕ → Bool
unfolding is_space
starts_clear [] = true
starts_clear (c ∷ cs) = is_space c

sentence_ends : List ℕ → ℕ
unfolding starts_clear
sentence_ends [] = 0
sentence_ends (c ∷ cs) =
    (if (c == b'.' || c == b'!' || c == b'?') && starts_clear cs then 1 else 0) + sentence_ends cs

-- One letter of a word, whatever the case of an ASCII letter.
same_letter : ℕ → ℕ → Bool
same_letter w c = w == c || leb b'a' w && leb w b'z' && c == w - 32

-- The text behind the word, if the text begins with it.
after_word : List ℕ → List ℕ → Option (List ℕ)
unfolding same_letter
after_word [] cs = some cs
after_word (w ∷ ws) [] = none
after_word (w ∷ ws) (c ∷ cs) = let rest = after_word ws cs in if same_letter w c then rest else none

-- `and`, `그리고`, `하며`, `했으며`
conjunctions : List (List ℕ)
conjunctions =
    (b'a' ∷ b'n' ∷ b'd' ∷ [])
    ∷ (0xADF8 ∷ 0xB9AC ∷ 0xACE0 ∷ [])
    ∷ (0xD558 ∷ 0xBA70 ∷ [])
    ∷ (0xD588 ∷ 0xC73C ∷ 0xBA70 ∷ [])
    ∷ []

module _ (u : Unicode) where
  -- `\w`
  is_word : ℕ → Bool
  is_word c = u.is_alnum c || c == b'_'

  first_is_word : List ℕ → Bool
  unfolding is_word
  first_is_word [] = false
  first_is_word (c ∷ cs) = is_word c

  last_is_word : List ℕ → Bool
  unfolding is_word
  last_is_word [] = false
  last_is_word (w ∷ []) = is_word w
  last_is_word (w ∷ v ∷ ws) = last_is_word (v ∷ ws)

  -- The word stands here, between two word boundaries `\b`.
  stands_here : Bool → List ℕ → List ℕ → Bool
  unfolding after_word first_is_word last_is_word
  stands_here before cs word = before != first_is_word cs && elim (after_word word cs) [
    | none ↦ false
    | some rest ↦ last_is_word word != first_is_word rest
  ]

  -- `re.search(r"\b(and|그리고|하며|했으며)\b", text, re.IGNORECASE)`
  has_conjunction : Bool → List ℕ → Bool
  unfolding stands_here conjunctions
  has_conjunction before [] = any (stands_here before []) conjunctions
  has_conjunction before (c ∷ cs) =
      any (stands_here before (c ∷ cs)) conjunctions || has_conjunction (is_word c) cs

  unfoldable pub is_atomic : String → Bool
  unfolding codes collapse sentence_ends has_conjunction strip
  is_atomic proposition =
      let text = collapse false (codes (strip proposition)) in
      leb (sentence_ends text) 1 && not (has_conjunction false text)

ascii : Unicode
ascii = record {
  casefold = λ s. s;
  is_alnum =
      λ c. leb b'a' c && leb c b'z' || leb b'A' c && leb c b'Z' || leb 0xAC00 c && leb c 0xD7A3;
  decimal = λ c. none;
  date_from_iso = λ s. none;
}

two_sentences : is_atomic ascii "He left. She came." ≡ false
unfolding is_atomic ascii
two_sentences = refl

quoted_title : is_atomic ascii "A: 「12.3. one. two. and so」 ok." ≡ true
unfolding is_atomic ascii
quoted_title = refl

conjoined : is_atomic ascii "one AND two" ≡ false
unfolding is_atomic ascii
conjoined = refl

not_conjoined : is_atomic ascii "sandy band" ≡ true
unfolding is_atomic ascii
not_conjoined = refl
