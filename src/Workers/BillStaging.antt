-- ===== src/Workers/BillStaging.antt =====
-- workers/legislative_activity.py: LegislativeActivityStager. This file has its state and its pages.
pub mod Unify
pub mod Summary
pub mod Roles
pub mod Complete
use Prim.Native.Char.{code}
use Prim.Native.String.{◌++◌ as ◌then◌}
use civic_intel.Prelude.{
  ℕ, zero, suc, ◌+◌, String, Bool, true, false, Option, none, some, List, [], ◌∷◌, ◌++◌, ltb,
  nat_beq, if◌then◌else◌, ◌==◌, ◌!=◌, string_eq, bool_eq, nat_eq, coded_eq, option_eq, pair_eq,
  Result, ◌>>=◌, ◌>>◌, raise_if, ok, err,
}
use civic_intel.Prelude.Texts.{blank}
use civic_intel.Prelude.Dict.{Dict, lookup}
use civic_intel.Prelude.Integers.{ℤ, pos, negsuc, int_eq, int_of, str_nat, ◌+ℤ◌, floor_div}
use civic_intel.Domain.Contracts.Evidence.{SourcePolicy}
use civic_intel.Verification.Policy.{PolicyDenied}
use civic_intel.Verification.Identity.{IdentityCandidate}
use civic_intel.Connectors.Base.{Outside, ConnectorDocument}
use civic_intel.Connectors.AssemblyBills.{AssemblyBillRecord, ConnectorError}
use civic_intel.Connectors.AssemblyBills.Rows.{parse_bills}
use civic_intel.Connectors.AssemblyBills.Client.{
  AssemblyBillConnector, for_page, discover, fetch, has_filters,
}
use civic_intel.Connectors.AssemblyBills.Reviewed.{national_assembly_bill_policy}
use civic_intel.Workers.BillEnumeration.{connector_error_name}

pub data StagingError : Type 0 where
  no_member_code not_from_page_one filtered no_pages : StagingError
  wrong_host conflicting_bill : StagingError
  denied : PolicyDenied → StagingError
  connector : ConnectorError → StagingError

pub record BillStager : Type 0 where
  pub candidate : IdentityCandidate
  pub member_code : String
  pub connector : AssemblyBillConnector
  pub policy : SourcePolicy
  pub max_pages : ℕ

-- `text[len(prefix):]`, if `text.startswith(prefix)`
unfoldable pub after_prefix : String → String → Option String
after_prefix String.[] s = some s
after_prefix (String.◌∷◌ c p) String.[] = none
after_prefix (String.◌∷◌ c p) (String.◌∷◌ d s) =
    let rest = after_prefix p s in if nat_beq (code c) (code d) then rest else none

abbrev pub anchored : Option String → Option String → Option String
anchored none other = other
anchored (some value) other = if blank value then other else some value

unfoldable pub member_code_in : List String → Option String
unfolding after_prefix
member_code_in [] = none
member_code_in (anchor ∷ anchors) =
    anchored (after_prefix "assembly_member_code:" anchor) (member_code_in anchors)

unfoldable pub construct_stager :
    IdentityCandidate
    → AssemblyBillConnector
    → Option SourcePolicy
    → ℕ
    → Result StagingError BillStager
unfolding member_code_in has_filters
construct_stager candidate c policy max_pages = elim (member_code_in candidate.career_anchors) [
  | none ↦ err no_member_code
  | some member_code ↦
      (raise_if (c.page_index != 1) not_from_page_one
        >> (raise_if (has_filters c) filtered
            >> (raise_if (ltb max_pages 1) no_pages
                >> ok (record {
                  candidate = candidate;
                  member_code = member_code;
                  connector = c;
                  policy = elim policy [ none ↦ national_assembly_bill_policy | some p ↦ p ];
                  max_pages = max_pages;
                }))))
]

-- `_metadata_int`
abbrev pub int_in : Outside → Option String → Option ℤ
int_in o none = none
int_in o (some value) = if blank value then none else int_of o.unicode value

unfoldable pub metadata_int : Outside → Dict String String → String → Option ℤ
metadata_int o metadata key = int_in o (lookup key metadata)

unfoldable pub fetch_page :
    Outside
    → AssemblyBillConnector
    → ℕ
    → Result ConnectorError (ConnectorDocument × List AssemblyBillRecord)
unfolding for_page discover fetch parse_bills
fetch_page o c n = do
  page ← for_page c n
  document ← fetch o page (discover o page)
  bills ← parse_bills o document.body
  ok (document, bills)

-- What the loop over the pages collects: their records, and the errors.
pub record Fetched : Type 0 where
  pub page_records : List (List AssemblyBillRecord)
  pub coverage_errors : List String

abbrev pub page_error : ℕ → String → String
page_error n what = "PAGE_" then (str_nat n then what)

abbrev pub error_if : Bool → String → List String
error_if true e = e ∷ []
error_if false e = []

unfoldable pub page_errors : Outside → ℕ → ℤ → Dict String String → List String
unfolding metadata_int
page_errors o n total metadata =
    error_if (metadata_int o metadata "page_index" != some (pos n)) (page_error n "_INDEX_MISMATCH")
    ++ error_if (metadata_int o metadata "list_total_count" != some total)
        (page_error n "_TOTAL_COUNT_CHANGED")

-- `AssemblyApiError` stops the loop; a `ValueError` is raised.
abbrev pub stop_at : ℕ → ConnectorError → Result StagingError Fetched
stop_at n e =
    if connector_error_name e == "ValueError"
    then err (connector e)
    else ok (record { page_records = []; coverage_errors = page_error n "_FETCH_FAILED" ∷ [] })

abbrev pub onto :
    List AssemblyBillRecord
    → List String
    → Result StagingError Fetched
    → Result StagingError Fetched
onto bills errors (err e) = err e
onto bills errors (ok rest) = ok (record {
  page_records = bills ∷ rest.page_records;
  coverage_errors = errors ++ rest.coverage_errors;
})

-- The pages from `n` on, as many as are left.
unfoldable pub fetch_rest :
    Outside → AssemblyBillConnector → ℤ → ℕ → ℕ → Result StagingError Fetched
unfolding fetch_page page_errors
fetch_rest o c total zero n = ok (record { page_records = []; coverage_errors = [] })
fetch_rest o c total (suc left) n = elim (fetch_page o c n) [
  | err e ↦ stop_at n e
  | ok page ↦
      onto page.1 (page_errors o n total page.0.metadata) (fetch_rest o c total left (n + 1))
]

-- `or`, for a number or none
abbrev pub or_size : Option ℤ → ℕ → ℤ
or_size none size = pos size
or_size (some n) size = if n == pos 0 then pos size else n

abbrev pub one_at_least : ℤ → ℕ
one_at_least (pos n) = if ltb 1 n then n else 1
one_at_least (negsuc n) = 1

unfoldable pub staged_page_count : ℤ → ℤ → ℕ
unfolding floor_div ◌+ℤ◌
staged_page_count total size = one_at_least (floor_div (total +ℤ size +ℤ negsuc 0) size)
