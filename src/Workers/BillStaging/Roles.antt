-- ===== src/Workers/BillStaging/Roles.antt =====
-- workers/legislative_activity.py: the roles and the codes of staged bills.
use civic_intel.Prelude.{
  ℕ, ◌+◌, String, ◌≡◌, refl, ◌↔◌, ◌⊎◌, inl, inr, true, false, Option, none, some, List, [], ◌∷◌,
  arith, Bool-cases, string_eq, bool_eq, nat_eq, option_eq, pair_eq, list_eq, length, keep, All, In,
  In-of_contains, contains_of_In,
}
use civic_intel.Prelude.Texts.{strip}
use civic_intel.Prelude.Dict.{Dict}
use civic_intel.Prelude.Integers.{int_eq}
use civic_intel.Connectors.AssemblyBills.{AssemblyBillRecord, lists_code, role_for_code}
use civic_intel.Workers.BillStaging.Summary.{
  StagedLegislativeBill, matched, in_role, code_tuple, lacks_codes,
}

role_for_code-cases :
    (b : AssemblyBillRecord) (member_code : String)
    → (role_for_code b member_code ≡ none)
      ⊎ (role_for_code b member_code ≡ some "LEAD")
      ⊎ (role_for_code b member_code ≡ some "CO_SPONSOR")
unfolding role_for_code
role_for_code-cases b member_code =
    elim (Bool-cases (lists_code b.representative_proposer_codes (strip member_code))) [
      | inl e ↦ inr (inl (rw e refl))
      | inr e ↦ elim (Bool-cases (lists_code b.co_proposer_codes (strip member_code))) [
        | inl f ↦ inr (inr (rw e (rw f refl)))
        | inr f ↦ inl (rw e (rw f refl))
      ]
    ]

-- Every staged bill has one of the two roles.
abbrev pub leads : List StagedLegislativeBill → ℕ
leads bills = length (keep (in_role "LEAD") bills)

abbrev pub co_sponsors : List StagedLegislativeBill → ℕ
co_sponsors bills = length (keep (in_role "CO_SPONSOR") bills)

pub matched-roles :
    (member_code : String) (records : Dict String AssemblyBillRecord)
    → leads (matched member_code records) + co_sponsors (matched member_code records)
      ≡ length (matched member_code records)
unfolding matched
matched-roles member_code [] = refl
matched-roles member_code ((k, b) ∷ records) =
    let rest = matched-roles member_code records in
    elim (role_for_code-cases b member_code) [
      | inl e ↦ rw e rest
      | inr (inl e) ↦ rw e (omega (arith, rest))
      | inr (inr e) ↦ rw e (omega (arith, rest))
    ]

-- The role of a listed bill is that of the list of codes with the member's.
abbrev pub Stands : String → StagedLegislativeBill → Type 0
Stands code b =
    ((b.role ≡ "LEAD") × In code b.representative_proposer_codes)
    ⊎ ((b.role ≡ "CO_SPONSOR")
        × (¬ In code b.representative_proposer_codes)
        × In code b.co_proposer_codes)

listed-In :
    (codes : Option (List String)) (code : String)
    → lists_code codes code ≡ true
    → In code (code_tuple codes)
listed-In none code h = cc
listed-In (some codes) code h = In-of_contains code codes h

not_listed-In :
    (codes : Option (List String)) (code : String)
    → lists_code codes code ≡ false
    → ¬ In code (code_tuple codes)
not_listed-In none code h i = i
not_listed-In (some codes) code h i = cc (h, contains_of_In code codes i)

pub matched-Stands :
    (member_code : String) (records : Dict String AssemblyBillRecord)
    → All (Stands (strip member_code)) (matched member_code records)
unfolding matched role_for_code
matched-Stands member_code [] = tt
matched-Stands member_code ((k, b) ∷ records) =
    let rest = matched-Stands member_code records in
    let code = strip member_code in
    elim (Bool-cases (lists_code b.representative_proposer_codes code)) [
      | inl e ↦ rw e (inl (refl, listed-In b.representative_proposer_codes code e), rest)
      | inr e ↦ elim (Bool-cases (lists_code b.co_proposer_codes code)) [
        | inl f ↦
            rw (e, f)
              (
                inr (
                  refl,
                  not_listed-In b.representative_proposer_codes code e,
                  listed-In b.co_proposer_codes code f,
                ),
                rest,
              )
        | inr f ↦ rw (e, f) rest
      ]
    ]

-- Both lists of codes of the bill could be read.
pub record Coded (r : String × AssemblyBillRecord) : Type 0 where
  pub lead_codes : List String
  pub co_codes : List String
  pub leads_read : r.1.representative_proposer_codes ≡ some lead_codes
  pub co_read : r.1.co_proposer_codes ≡ some co_codes

Coded-of_complete : (r : String × AssemblyBillRecord) → lacks_codes r ≡ false → Coded r
Coded-of_complete r h = of_codes r.1.representative_proposer_codes r.1.co_proposer_codes refl refl
  where
    of_codes :
        (lead co : Option (List String))
        → r.1.representative_proposer_codes ≡ lead
        → r.1.co_proposer_codes ≡ co
        → Coded r
    of_codes none co e f = absurd (ground (arith, h, e, f))
    of_codes (some lead) none e f = absurd (ground (arith, h, e, f))
    of_codes (some lead) (some co) e f = record {
      lead_codes = lead;
      co_codes = co;
      leads_read = e;
      co_read = f;
    }

complete_of-Coded : (r : String × AssemblyBillRecord) → Coded r → lacks_codes r ≡ false
complete_of-Coded r c = rw (c.leads_read, c.co_read) refl

pub codes_iff : (r : String × AssemblyBillRecord) → (lacks_codes r ≡ false) ↔ Coded r
codes_iff r = (Coded-of_complete r, complete_of-Coded r)
