-- ===== src/Connectors/AssemblyBills/Codes.antt =====
-- packages/connectors/open_assembly_bills.py: the codes that `_codes` reads.
use civic_intel.Prelude.{
  ℕ, String, ◌≡◌, refl, subst, inl, inr, Bool, false, ◌||◌, Option, none, some, List, [], ◌∷◌, ◌++◌,
  arith, nat_beq, if◌then◌else◌, Bool-cases, ◌==◌, string_eq, bool_eq, nat_eq, ==-comm, option_eq,
  pair_eq, any, any-append, contains, has_duplicates, contains-append,
}
use civic_intel.Prelude.Texts.{strip}
use civic_intel.Domain.Contracts.Base.{
  Json, Fields, null, boolean, number, negative, text, array, object,
}
use civic_intel.Connectors.Base.{Outside, get_field, str_json}
use civic_intel.Connectors.AssemblyBills.Texts.{
  any_char, split, malformed_code, collect_codes, codes_of_text, codes_of_value, codes,
}

-- A list of codes: each is well-formed, and none is there twice.
pub record AreCodes (cs : List String) : Type 0 where
  pub formed : any malformed_code cs ≡ false
  pub distinct : has_duplicates cs ≡ false

any_append_one :
    (p : String → Bool) (xs : List String) (a : String)
    → any p xs ≡ false
    → p a ≡ false
    → any p (xs ++ a ∷ []) ≡ false
any_append_one p xs a h e = ground (arith, any-append p xs (a ∷ []), h, e)

has_duplicates_append_one :
    (xs : List String) (a : String)
    → has_duplicates xs ≡ false
    → contains xs a ≡ false
    → has_duplicates (xs ++ a ∷ []) ≡ false
has_duplicates_append_one [] a h e = refl
has_duplicates_append_one (x ∷ xs) a h e =
    ground (arith, h, e, contains-append xs (a ∷ []) x, ==-comm x a, has_duplicates_append_one xs a)

collect_codes-AreCodes :
    (parts found : List String) {cs : List String}
    → AreCodes found
    → collect_codes parts found ≡ some cs
    → AreCodes cs
unfolding collect_codes
collect_codes-AreCodes [] found {cs} a h =
    let same : found ≡ cs = ground (arith, h) in subst AreCodes same a
collect_codes-AreCodes (part ∷ parts) found {cs} a h =
    elim (Bool-cases (malformed_code (strip part))) [
      | inl bad ↦ absurd (ground (arith, h, bad))
      | inr good ↦ elim (Bool-cases (contains found (strip part))) [
        | inl t ↦ collect_codes-AreCodes parts found a (ground (arith, h, good, t))
        | inr new ↦
            collect_codes-AreCodes parts (found ++ strip part ∷ [])
              (record {
                formed = any_append_one malformed_code found (strip part) a.formed good;
                distinct = has_duplicates_append_one found (strip part) a.distinct new;
              })
              (ground (arith, h, good, new))
      ]
    ]

none_found : AreCodes []
none_found = record { formed = refl; distinct = refl }

codes_of_text-AreCodes :
    (delimiter : ℕ) (found : String) {cs : List String}
    → codes_of_text delimiter found ≡ some cs
    → AreCodes cs
unfolding codes_of_text
codes_of_text-AreCodes delimiter found {cs} h = elim (Bool-cases (found == "" || found == "-")) [
  | inl t ↦ let same : [] ≡ cs = ground (arith, h, t) in subst AreCodes same none_found
  | inr t ↦
      elim (Bool-cases (any_char (nat_beq (if nat_beq delimiter b',' then b';' else b',')) found)) [
        | inl bad ↦ absurd (ground (arith, h, t, bad))
        | inr good ↦
            collect_codes-AreCodes (split delimiter found) [] none_found
              (ground (arith, h, t, good))
      ]
]

-- The codes that are read from a field of a row, of whatever type its value is: none of them is
-- empty, none has a space or a delimiter in it, and none is there twice.
pub codes-AreCodes :
    (o : Outside) (delimiter : ℕ) (key : String) (row : Fields) (cs : List String)
    → codes o delimiter key row ≡ some cs
    → AreCodes cs
unfolding codes codes_of_value
codes-AreCodes o delimiter key row cs = from (get_field key row)
  where
    from : (v : Option Json) → codes_of_value o delimiter v ≡ some cs → AreCodes cs
    from none h = cc
    from (some null) h = let same : [] ≡ cs = ground (arith, h) in subst AreCodes same none_found
    from (some (boolean b)) h = codes_of_text-AreCodes delimiter (strip (str_json o (boolean b))) h
    from (some (number n)) h = codes_of_text-AreCodes delimiter (strip (str_json o (number n))) h
    from (some (negative n)) h =
        codes_of_text-AreCodes delimiter (strip (str_json o (negative n))) h
    from (some (text s)) h = codes_of_text-AreCodes delimiter (strip (str_json o (text s))) h
    from (some (array items)) h =
        codes_of_text-AreCodes delimiter (strip (str_json o (array items))) h
    from (some (object fields)) h =
        codes_of_text-AreCodes delimiter (strip (str_json o (object fields))) h
