-- ===== src/Workers/BillStaging/Summary.antt =====
-- workers/legislative_activity.py: the staged bills of a member, and how complete they are.
use Prim.Native.String.{◌++◌ as ◌then◌}
use civic_intel.Prelude.{
  ℕ, ◌-◌, String, Bool, true, false, not, ◌&&◌, Option, none, some, List, [], ◌∷◌, ◌++◌, map, ltb,
  if◌then◌else◌, ◌==◌, ◌!=◌, string_eq, bool_eq, nat_eq, option_eq, pair_eq, list_eq, length,
  is_empty, any, keep, ordered_unique, Result, ◌>>=◌, ◌>>◌, raise_if, raising, ok,
}
use civic_intel.Prelude.Texts.{truthy}
use civic_intel.Prelude.Dict.{Dict}
use civic_intel.Prelude.Integers.{ℤ, pos, int_eq}
use civic_intel.Prelude.Sorting.{sorted, string_leb}
use civic_intel.Domain.Contracts.Base.{Date}
use civic_intel.Verification.Policy.{PolicyAction, require_policy}
use civic_intel.Connectors.Base.{Outside}
use civic_intel.Connectors.AssemblyBills.{
  AssemblyBillRecord, role_code_fields_complete, role_for_code,
}
use civic_intel.Connectors.AssemblyBills.Client.{host}
use civic_intel.Workers.BillStaging.{
  StagingError, wrong_host, denied, connector, BillStager, metadata_int, fetch_page, Fetched,
  error_if, fetch_rest, or_size, staged_page_count,
}
use civic_intel.Workers.BillStaging.Unify.{Unified, unify_pages}

pub record StagedLegislativeBill : Type 0 where
  pub bill_id : String
  pub bill_no : Option String
  pub bill_name : String
  pub proposed_date : Option Date
  pub committee : Option String
  pub process_result : Option String
  pub role : String
  pub representative_proposers : List String
  pub co_proposers : List String
  pub representative_proposer_codes : List String
  pub co_proposer_codes : List String
  pub detail_url : Option String

pub record LegislativeActivitySummary : Type 0 where
  pub canonical_name : String
  pub member_code : String
  pub assembly_age : ℕ
  pub source_total_count : Option ℤ
  pub source_unique_bill_count : ℕ
  pub coverage_complete : Bool
  pub role_code_coverage_complete : Bool
  pub pages_fetched : ℕ
  pub expected_pages : Option ℕ
  pub coverage_errors : List String
  pub role_code_errors : List String
  pub staged_bill_count : ℕ
  pub representative_sponsored_count : Option ℕ
  pub co_sponsored_count : Option ℕ
  pub process_result_counts : Dict String ℕ
  pub bills : List StagedLegislativeBill

abbrev pub code_tuple : Option (List String) → List String
code_tuple none = []
code_tuple (some codes) = codes

abbrev pub staged_as : AssemblyBillRecord → String → StagedLegislativeBill
staged_as b role = record {
  bill_id = b.bill_id;
  bill_no = b.bill_no;
  bill_name = b.bill_name;
  proposed_date = b.proposed_date;
  committee = b.committee;
  process_result = b.process_result;
  role = role;
  representative_proposers = b.representative_proposers;
  co_proposers = b.co_proposers;
  representative_proposer_codes = code_tuple b.representative_proposer_codes;
  co_proposer_codes = code_tuple b.co_proposer_codes;
  detail_url = b.detail_url;
}

-- `StagedLegislativeBill.from_record` of each record, where it is not `None`
abbrev pub stage_role : AssemblyBillRecord → Option String → List StagedLegislativeBill
stage_role b none = []
stage_role b (some role) = staged_as b role ∷ []

unfoldable pub matched : String → Dict String AssemblyBillRecord → List StagedLegislativeBill
unfolding role_for_code
matched member_code [] = []
matched member_code ((k, b) ∷ records) =
    stage_role b (role_for_code b member_code) ++ matched member_code records

-- `sum(item.role == role for item in matched)`
abbrev pub in_role : String → StagedLegislativeBill → Bool
in_role role b = b.role == role

abbrev pub or_unknown : Option String → String
or_unknown none = "UNKNOWN"
or_unknown (some s) = if truthy (some s) then s else "UNKNOWN"

-- `dict(sorted(Counter(results).items()))`
abbrev pub result_counts : List String → Dict String ℕ
result_counts results =
    map (λ (r : String). (r, length (keep (λ q. q == r) results)))
      (sorted string_leb (ordered_unique results))

-- What the errors and counts say of the coverage.
abbrev pub is_complete : Option ℕ → ℕ → List String → Bool
is_complete none fetched errors = false
is_complete (some pages) fetched errors = fetched == pages && is_empty errors

abbrev pub miscounted : Option ℤ → ℕ → Bool
miscounted none count = false
miscounted (some total) count = total != pos count

abbrev pub if_some {ℓ} : {A : Type ℓ} → Bool → A → Option A
if_some true a = some a
if_some false a = none

abbrev pub lacks_codes : String × AssemblyBillRecord → Bool
lacks_codes r = not (role_code_fields_complete r.1)

-- The part of `stage` that follows its loops.
unfoldable pub summarize :
    BillStager → Option ℤ → Option ℕ → ℕ → Unified → LegislativeActivitySummary
unfolding matched sorted
summarize w total expected_pages pages_fetched u =
    let records = u.unique_records in
    let errors =
      u.errors ++ error_if (miscounted total (length records)) "UNIQUE_BILL_COUNT_MISMATCH" in
    let complete = is_complete expected_pages pages_fetched errors in
    let role_errors = error_if (any lacks_codes records) "ROLE_CODE_FIELDS_MISSING_OR_MALFORMED" in
    let roles_complete = complete && is_empty role_errors in
    let bills = matched w.member_code records in
    record {
      canonical_name = w.candidate.canonical_name;
      member_code = w.member_code;
      assembly_age = w.connector.assembly_age;
      source_total_count = total;
      source_unique_bill_count = length records;
      coverage_complete = complete;
      role_code_coverage_complete = roles_complete;
      pages_fetched = pages_fetched;
      expected_pages = expected_pages;
      coverage_errors = ordered_unique errors;
      role_code_errors = ordered_unique role_errors;
      staged_bill_count = length bills;
      representative_sponsored_count =
          if_some roles_complete (length (keep (in_role "LEAD") bills));
      co_sponsored_count = if_some roles_complete (length (keep (in_role "CO_SPONSOR") bills));
      process_result_counts =
          if roles_complete
          then result_counts
              (map (λ (b : StagedLegislativeBill). or_unknown b.process_result) bills)
          else [];
      bills = bills;
    }

-- The pages after the first, with the number of pages that is expected of the total.
unfoldable pub collect :
    Outside
    → BillStager
    → List AssemblyBillRecord
    → Option ℤ
    → ℤ
    → Result StagingError (Option ℕ × Fetched)
unfolding staged_page_count fetch_rest
collect o w first none size = ok (
  none,
  record { page_records = first ∷ []; coverage_errors = "TOTAL_COUNT_MISSING_OR_INVALID" ∷ [] },
)
collect o w first (some total) size =
    let pages = staged_page_count total size in
    if ltb w.max_pages pages
    then ok (
      some pages,
      record { page_records = first ∷ []; coverage_errors = "EXPECTED_PAGES_EXCEED_MAX" ∷ [] },
    )
    else (fetch_rest o w.connector total (pages - 1) 2 >>= λ rest.
        ok (some pages, record rest { page_records = first ∷ rest.page_records }))

unfoldable pub stage : Outside → BillStager → Result StagingError LegislativeActivitySummary
unfolding require_policy fetch_page metadata_int collect unify_pages summarize
stage o w = do
  raise_if (w.policy.domain != host) wrong_host
  raising denied (require_policy (some w.policy) PolicyAction.fetch)
  first ← raising connector (fetch_page o w.connector 1)
  let total = metadata_int o first.0.metadata "list_total_count"
  let size = or_size (metadata_int o first.0.metadata "page_size") w.connector.page_size
  fetched ← collect o w first.1 total size
  unified ←
      unify_pages fetched.1.page_records []
        (record { unique_records = []; errors = fetched.1.coverage_errors })
  ok (summarize w total fetched.0 (length fetched.1.page_records) unified)
