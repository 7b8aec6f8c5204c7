-- ===== src/Workers/BillEnumeration/Announced.antt =====
-- workers/legislative_activity.py: what a page's document announces. The quotient that `ceil`
-- rounds is taken exactly.
use civic_intel.Prelude.{
  ℕ, ◌+◌, ◌-◌, ◌/◌, String, Bool, false, ◌||◌, Option, none, some, ltb, if◌then◌else◌, ◌!=◌,
  string_eq, bool_eq, nat_eq, option_eq, pair_eq, Result, ◌>>=◌, ◌>>◌, raise_if, ok, err,
}
use civic_intel.Prelude.Dict.{Dict, lookup}
use civic_intel.Prelude.Integers.{ℤ, pos, negsuc, int_eq, int_of, str_nat}
use civic_intel.Connectors.Base.{Outside}
use civic_intel.Connectors.AssemblyBills.Rows.{api_code}
use civic_intel.Connectors.AssemblyBills.Client.{AssemblyBillConnector}
use civic_intel.Workers.BillEnumeration.{
  CoverageFailure, document_contract, document_scope, document_page, document_page_size,
  total_unavailable, negative_total, too_many_pages, total_changed, extra_page,
}

abbrev pub natural : Option ℤ → Result CoverageFailure ℕ
natural none = err total_unavailable
natural (some (pos n)) = ok n
natural (some (negsuc n)) = err negative_total

abbrev pub total_of : Outside → Option String → Result CoverageFailure ℕ
total_of o none = err total_unavailable
total_of o (some value) = natural (int_of o.unicode value)

abbrev pub max : ℕ → ℕ → ℕ
max a b = if ltb a b then b else a

-- `max(1, ceil(total / page_size))`
unfoldable pub page_count : ℕ → ℕ → ℕ
page_count total page_size = max 1 ((total + (page_size - 1)) / page_size)

abbrev pub differs : Option (ℤ × ℤ) → ℕ → ℕ → Bool
differs none total pages = false
differs (some (t, p)) total pages = t != pos total || p != pos pages

-- The total and the number of pages, once the document fits the request and the pages before it.
unfoldable pub announced :
    Outside
    → AssemblyBillConnector
    → ℕ
    → Option (ℤ × ℤ)
    → ℕ
    → Dict String String
    → Result CoverageFailure (ℕ × ℕ)
unfolding page_count
announced o c max_pages expected n metadata = do
  raise_if (lookup "api_code" metadata != some api_code) document_contract
  raise_if (lookup "assembly_age" metadata != some (str_nat c.assembly_age)) document_scope
  raise_if (lookup "page_index" metadata != some (str_nat n)) document_page
  raise_if (lookup "page_size" metadata != some (str_nat c.page_size)) document_page_size
  total ← total_of o (lookup "list_total_count" metadata)
  let pages = page_count total c.page_size
  raise_if (ltb max_pages pages) too_many_pages
  raise_if (differs expected total pages) total_changed
  raise_if (ltb pages n) extra_page
  ok (total, pages)
