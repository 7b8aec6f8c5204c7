-- ===== src/Connectors/AssemblyBills/CodesRead.antt =====
-- packages/connectors/open_assembly_bills.py: codes that are joined by commas are read back.
use mathlib.Core.List.{append-nil, append_assoc}
use civic_intel.Prelude.{
  ℕ, String, ◌≡◌, refl, sym, ap, ◌∙◌, ◌≢◌, inl, inr, Bool, false, ◌||◌, some, List, [], ◌∷◌, ◌++◌,
  arith, nat_beq, Bool-cases, ◌==◌, string_eq, bool_eq, nat_eq, eq_of_==, ==-comm, option_eq,
  pair_eq, any, contains, has_duplicates, contains-append,
}
use civic_intel.Prelude.Texts.{strip, lstrip, rstrip, is_space, blank}
use civic_intel.Domain.Contracts.Base.{Fields, text}
use civic_intel.Connectors.Base.{Outside, get_field, str_json}
use civic_intel.Connectors.AssemblyBills.Texts.{
  any_char, split, malformed_code, collect_codes, codes_of_text, codes_of_value, codes,
}
use civic_intel.Connectors.AssemblyBills.Codes.{AreCodes}

-- `",".join(codes)`
abbrev pub before : String → String → String
before String.[] s = s
before (String.◌∷◌ c t) s = String.◌∷◌ c (before t s)

abbrev pub joined : List String → String
joined [] = ""
joined (c ∷ []) = c
joined (c ∷ d ∷ cs) = before c (String.◌∷◌ "," (joined (d ∷ cs)))

any_char-before :
    (p : ℕ → Bool) (t s : String) → any_char p (before t s) ≡ (any_char p t || any_char p s)
unfolding any_char
any_char-before p String.[] s = refl
any_char-before p (String.◌∷◌ c t) s = ground (arith, any_char-before p t s)

split-plain : (d : ℕ) (c : String) → any_char (nat_beq d) c ≡ false → split d c ≡ c ∷ []
unfolding split any_char
split-plain d String.[] h = refl
split-plain d (String.◌∷◌ c s) h = ground (arith, h, split-plain d s)

split-before :
    (c s : String)
    → any_char (nat_beq b',') c ≡ false
    → split b',' (before c (String.◌∷◌ "," s)) ≡ c ∷ split b',' s
unfolding split any_char
split-before String.[] s h = refl
split-before (String.◌∷◌ c t) s h = ground (arith, h, split-before t s)

rstrip-same : (s : String) → any_char is_space s ≡ false → rstrip s ≡ s
unfolding any_char rstrip
rstrip-same String.[] h = refl
rstrip-same (String.◌∷◌ c s) h = let same = rstrip-same s in ground (arith, h, same)

strip-same : (s : String) → any_char is_space s ≡ false → strip s ≡ s
unfolding any_char strip lstrip
strip-same String.[] h = rstrip-same "" h
strip-same (String.◌∷◌ c s) h = ground (arith, h, rstrip-same (String.◌∷◌ c s))

-- A code has neither spaces nor delimiters.
record IsPlain (c : String) : Type 0 where
  full : blank c ≡ false
  spaceless : any_char is_space c ≡ false
  commaless : any_char (nat_beq b',') c ≡ false
  unmixed : any_char (nat_beq b';') c ≡ false

IsPlain-of_formed : (c : String) → malformed_code c ≡ false → IsPlain c
unfolding malformed_code
IsPlain-of_formed c h = record {
  full = ground (arith, h);
  spaceless = ground (arith, h);
  commaless = ground (arith, h);
  unmixed = ground (arith, h);
}

-- What no code has, and a comma is not, the joined text does not have.
any_char-joined :
    (p : ℕ → Bool) (cs : List String)
    → any (any_char p) cs ≡ false
    → p b',' ≡ false
    → any_char p (joined cs) ≡ false
unfolding any_char
any_char-joined p [] h e = refl
any_char-joined p (c ∷ []) h e = ground (arith, h)
any_char-joined p (c ∷ d ∷ cs) h e = ground (
  arith,
  h,
  e,
  any_char-before p c (String.◌∷◌ "," (joined (d ∷ cs))),
  any_char-joined p (d ∷ cs),
)

any_formed :
    (p : String → Bool) (cs : List String)
    → ((c : String) → IsPlain c → p c ≡ false)
    → any malformed_code cs ≡ false
    → any p cs ≡ false
any_formed p [] h f = refl
any_formed p (c ∷ cs) h f =
    ground (
      arith,
      f,
      h c (IsPlain-of_formed c (ground (arith, f))),
      any_formed p cs h (ground (arith, f)),
    )

split-joined :
    (c : String) (cs : List String)
    → any malformed_code (c ∷ cs) ≡ false
    → split b',' (joined (c ∷ cs)) ≡ c ∷ cs
split-joined c [] f = split-plain b',' c (IsPlain-of_formed c (ground (arith, f))).commaless
split-joined c (d ∷ cs) f =
    split-before c (joined (d ∷ cs)) (IsPlain-of_formed c (ground (arith, f))).commaless
    ∙ ap (λ rest. c ∷ rest) (split-joined d cs (ground (arith, f)))

contains-one :
    (found : List String) (c : String) (cs : List String)
    → has_duplicates (found ++ c ∷ cs) ≡ false
    → contains found c ≡ false
contains-one [] c cs h = refl
contains-one (x ∷ found) c cs h =
    ground (arith, h, contains-append found (c ∷ cs) x, ==-comm x c, contains-one found c cs)

collect_codes-same :
    (cs found : List String)
    → any malformed_code cs ≡ false
    → has_duplicates (found ++ cs) ≡ false
    → collect_codes cs found ≡ some (found ++ cs)
unfolding collect_codes
collect_codes-same [] found f d = ap some (sym (append-nil found))
collect_codes-same (c ∷ cs) found f d =
    let plain = IsPlain-of_formed c (ground (arith, f)) in
    let same = strip-same c plain.spaceless in
    let new = contains-one found c cs d in
    let split_at = append_assoc found (c ∷ []) cs in
    let rest =
      collect_codes-same cs (found ++ c ∷ []) (ground (arith, f))
        (ap has_duplicates split_at ∙ d) in
    ground (arith, same, new, f, rest ∙ ap some split_at)

codes_of_text-collect :
    (s : String)
    → blank s ≡ false
    → s ≢ "-"
    → any_char (nat_beq b';') s ≡ false
    → codes_of_text b',' s ≡ collect_codes (split b',' s) []
unfolding codes_of_text
codes_of_text-collect s full dash unmixed = elim (Bool-cases (s == "")) [
  | inl e ↦ absurd (ground (arith, full, ap blank (eq_of_== s "" e)))
  | inr e ↦ elim (Bool-cases (s == "-")) [
    | inl q ↦ absurd (dash (eq_of_== s "-" q))
    | inr q ↦ ground (arith, e, q, unmixed)
  ]
]

blank-before : (c s : String) → blank c ≡ false → blank (before c s) ≡ false
blank-before String.[] s h = cc
blank-before (String.◌∷◌ c t) s h = refl

blank-joined : (c : String) (cs : List String) → blank c ≡ false → blank (joined (c ∷ cs)) ≡ false
blank-joined c [] h = h
blank-joined c (d ∷ cs) h = blank-before c _ h

-- A field that holds codes joined by commas is read as these codes: the ones that are well-formed,
-- different, and not the single hyphen that stands for none.
pub codes-joined :
    (o : Outside) (key : String) (row : Fields) (cs : List String)
    → AreCodes cs
    → joined cs ≢ "-"
    → get_field key row ≡ some (text (joined cs))
    → codes o b',' key row ≡ some cs
unfolding codes codes_of_value str_json codes_of_text
codes-joined o key row [] a dash there = ap (codes_of_value o b',') there
codes-joined o key row (c ∷ cs) a dash there =
    let f = a.formed in
    let spaceless =
      any_char-joined is_space (c ∷ cs)
        (any_formed (any_char is_space) (c ∷ cs) (λ d plain. plain.spaceless) f) refl in
    let unmixed =
      any_char-joined (nat_beq b';') (c ∷ cs)
        (any_formed (any_char (nat_beq b';')) (c ∷ cs) (λ d plain. plain.unmixed) f) refl in
    let stripped = strip-same (joined (c ∷ cs)) spaceless in
    let full = blank-joined c cs (IsPlain-of_formed c (ground (arith, f))).full in
    ap (codes_of_value o b',') there
    ∙ ap (codes_of_text b',') (strip-same (joined (c ∷ cs)) spaceless)
    ∙ codes_of_text-collect (joined (c ∷ cs)) full dash unmixed
    ∙ ap (λ parts. collect_codes parts []) (split-joined c cs f)
    ∙ collect_codes-same (c ∷ cs) [] f a.distinct
