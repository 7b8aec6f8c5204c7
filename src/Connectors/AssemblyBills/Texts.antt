-- ===== src/Connectors/AssemblyBills/Texts.antt =====
-- packages/connectors/open_assembly_bills.py: the texts of a row, as names, codes and dates.
use Prim.Native.Char.{Char, code}
use civic_intel.Prelude.{
  ℕ, String, ◌≡◌, refl, Bool, false, ◌||◌, Option, none, some, List, [], ◌∷◌, ◌++◌, nat_beq,
  if◌then◌else◌, ◌==◌, string_eq, bool_eq, nat_eq, option_eq, pair_eq, any, contains,
}
use civic_intel.Prelude.Texts.{strip, is_space, blank}
use civic_intel.Domain.Contracts.Base.{Json, Fields, null, Date}
use civic_intel.Connectors.AssemblyBills.{AssemblyBillRecord}
use civic_intel.Connectors.Base.{Outside, get_field, str_json}

-- `any(test(c) for c in text)`
unfoldable pub any_char : (ℕ → Bool) → String → Bool
any_char test String.[] = false
any_char test (String.◌∷◌ c s) = test (code c) || any_char test s

abbrev pub onto_first : Char → List String → List String
onto_first c [] = String.◌∷◌ c "" ∷ []
onto_first c (part ∷ parts) = String.◌∷◌ c part ∷ parts

-- `text.split(delimiter)`, for a delimiter of one character
unfoldable pub split : ℕ → String → List String
split d String.[] = "" ∷ []
split d (String.◌∷◌ c s) =
    let rest = split d s in if nat_beq (code c) d then "" ∷ rest else onto_first c rest

-- `"".join(text.split())`
unfoldable pub squeeze : String → String
unfolding is_space
squeeze String.[] = ""
squeeze (String.◌∷◌ c s) =
    let rest = squeeze s in if is_space (code c) then rest else String.◌∷◌ c rest

unfoldable pub removesuffix : String → String → String
removesuffix suffix String.[] = ""
removesuffix suffix (String.◌∷◌ c s) =
    let rest = removesuffix suffix s in if String.◌∷◌ c s == suffix then "" else String.◌∷◌ c rest

unfoldable pub normalize_person_name : String → String
unfolding squeeze removesuffix
normalize_person_name value = removesuffix "의원" (squeeze value)

-- `person_name` among the names, as the display names are compared
abbrev pub named_in : String → List String → Bool
named_in target names = any (λ item. normalize_person_name item == target) names

unfoldable pub role_for : AssemblyBillRecord → String → Option String
unfolding normalize_person_name
role_for b person_name =
    let target = normalize_person_name person_name in
    if named_in target b.representative_proposers
    then some "LEAD"
    else if named_in target b.co_proposers
    then some "CO_SPONSOR"
    else none

unfoldable pub stripped_parts : List String → List String
unfolding strip
stripped_parts [] = []
stripped_parts (part ∷ parts) =
    let rest = stripped_parts parts in if blank (strip part) then rest else strip part ∷ rest

unfoldable pub read_names : Outside → Option Json → List String
unfolding split stripped_parts str_json
read_names o none = []
read_names o (some null) = []
read_names o (some value) = stripped_parts (split b',' (str_json o value))

-- Not a code: nothing, or a text with a space or a delimiter in it.
unfoldable pub malformed_code : String → Bool
unfolding any_char is_space
malformed_code c =
    blank c || any_char is_space c || any_char (nat_beq b',') c || any_char (nat_beq b';') c

unfoldable pub collect_codes : List String → List String → Option (List String)
unfolding strip malformed_code
collect_codes [] found = some found
collect_codes (part ∷ parts) found =
    let next = if contains found (strip part) then found else found ++ strip part ∷ [] in
    let rest = collect_codes parts next in if malformed_code (strip part) then none else rest

unfoldable pub codes_of_text : ℕ → String → Option (List String)
unfolding any_char split collect_codes
codes_of_text delimiter found =
    if found == "" || found == "-"
    then some []
    else if any_char (nat_beq (if nat_beq delimiter b',' then b';' else b',')) found
    then none
    else collect_codes (split delimiter found) []

-- The codes of one field: `none` where it is missing or malformed.
unfoldable pub codes_of_value : Outside → ℕ → Option Json → Option (List String)
unfolding codes_of_text str_json strip
codes_of_value o delimiter none = none
codes_of_value o delimiter (some null) = some []
codes_of_value o delimiter (some value) = codes_of_text delimiter (strip (str_json o value))

unfoldable pub codes : Outside → ℕ → String → Fields → Option (List String)
unfolding codes_of_value
codes o delimiter key row = codes_of_value o delimiter (get_field key row)

abbrev pub filled : String → Option String
filled s = if blank s then none else some s

unfoldable pub optional_value : Outside → Option Json → Option String
unfolding strip str_json
optional_value o none = none
optional_value o (some null) = none
optional_value o (some value) = filled (strip (str_json o value))

unfoldable pub optional : Outside → String → Fields → Option String
unfolding optional_value
optional o key row = optional_value o (get_field key row)

-- `value.replace(".", "-").replace("/", "-")`
unfoldable pub dashed : String → String
dashed String.[] = ""
dashed (String.◌∷◌ c s) =
    let rest = dashed s in
    if nat_beq (code c) b'.' || nat_beq (code c) b'/'
    then String.◌∷◌ "-" rest
    else String.◌∷◌ c rest

unfoldable pub proposal_date : Outside → Option String → Option Date
unfolding dashed
proposal_date o none = none
proposal_date o (some value) = o.unicode.date_from_iso (dashed value)

codes_example : codes_of_text b',' "A1, B2,A1" ≡ some ("A1" ∷ "B2" ∷ [])
unfolding codes_of_text
codes_example = refl
