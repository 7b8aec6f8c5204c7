-- ===== src/Workers/BillStaging/Unify.antt =====
-- workers/legislative_activity.py: the different records of the pages that the stager fetched.
use Prim.Native.String.{◌++◌ as ◌then◌}
use civic_intel.Prelude.{
  String, Bool, not, ◌&&◌, Option, none, some, List, [], ◌∷◌, ◌++◌, map, if◌then◌else◌, ◌==◌,
  string_eq, bool_eq, nat_eq, option_eq, pair_eq, list_eq, is_empty, contains, Result, ◌>>=◌, ok,
  err,
}
use civic_intel.Prelude.Dict.{Dict, lookup, insert}
use civic_intel.Prelude.Integers.{int_eq}
use civic_intel.Connectors.AssemblyBills.{AssemblyBillRecord}
use civic_intel.Workers.BillStaging.{StagingError, conflicting_bill, error_if}

-- `==` of two records
abbrev pub same_record : AssemblyBillRecord → AssemblyBillRecord → Bool
same_record a b =
    a.bill_id == b.bill_id
    && (a.bill_name == b.bill_name
        && (a.assembly_age == b.assembly_age
            && (a.bill_no == b.bill_no
                && (a.proposed_date == b.proposed_date
                    && (a.committee == b.committee
                        && (a.committee_id == b.committee_id
                            && (a.process_result == b.process_result
                                && (a.proposer_summary == b.proposer_summary
                                    && (a.representative_proposers == b.representative_proposers
                                        && (a.co_proposers == b.co_proposers
                                            && (a.representative_proposer_codes
                                                  == b.representative_proposer_codes
                                                && (a.co_proposer_codes == b.co_proposer_codes
                                                    && a.detail_url == b.detail_url))))))))))))

-- What the loop over the records collects.
pub record Unified : Type 0 where
  pub unique_records : Dict String AssemblyBillRecord
  pub errors : List String

abbrev pub with_record :
    AssemblyBillRecord → Option AssemblyBillRecord → Unified → Result StagingError Unified
with_record b none u = ok (record u { unique_records = insert b.bill_id b u.unique_records })
with_record b (some earlier) u =
    if same_record earlier b
    then ok (record u { errors = u.errors ++ ("DUPLICATE_BILL_ID:" then b.bill_id) ∷ [] })
    else err conflicting_bill

unfoldable pub unify_records : List AssemblyBillRecord → Unified → Result StagingError Unified
unify_records [] u = ok u
unify_records (b ∷ bills) u =
    with_record b (lookup b.bill_id u.unique_records) u >>= λ next. unify_records bills next

abbrev pub signature : List AssemblyBillRecord → List String
signature bills = map (λ (b : AssemblyBillRecord). b.bill_id) bills

unfoldable pub unify_pages :
    List (List AssemblyBillRecord) → List (List String) → Unified → Result StagingError Unified
unfolding unify_records
unify_pages [] signatures u = ok u
unify_pages (bills ∷ pages) signatures u = do
  let again = not (is_empty (signature bills)) && contains signatures (signature bills)
  next ←
      unify_records bills
        (record u { errors = u.errors ++ error_if again "DUPLICATE_PAGE_CONTENT" })
  unify_pages pages (signature bills ∷ signatures) next
