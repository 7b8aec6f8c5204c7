-- ===== src/Connectors/AssemblyBills.antt =====
-- packages/connectors/open_assembly_bills.py: one bill of the National Assembly, and the roles of
-- its proposers.
pub mod Texts
pub mod Rows
pub mod Client
pub mod Reviewed
pub mod Redaction
pub mod Codes
pub mod CodesRead
use civic_intel.Prelude.{
  String, Bool, false, not, ◌&&◌, Option, none, some, List, if◌then◌else◌, string_eq, bool_eq,
  nat_eq, coded_eq, option_eq, pair_eq, contains,
}
use civic_intel.Prelude.Texts.{strip, is_space}
use civic_intel.Prelude.Integers.{ℤ}
use civic_intel.Domain.Contracts.Base.{Date}
use civic_intel.Domain.Contracts.Evidence.{is_none}

pub record AssemblyBillRecord : Type 0 where
  pub bill_id : String
  pub bill_name : String
  pub assembly_age : ℤ
  pub bill_no : Option String
  pub proposed_date : Option Date
  pub committee : Option String
  pub committee_id : Option String
  pub process_result : Option String
  pub proposer_summary : Option String
  pub representative_proposers : List String
  pub co_proposers : List String
  pub representative_proposer_codes : Option (List String)
  pub co_proposer_codes : Option (List String)
  pub detail_url : Option String

-- The exceptions of the connector: `AssemblyApiError` with its cases, `MissingAssemblyApiKey`,
-- which is one of them, and `ValueError`.
pub data ConnectorError : Type 0 where
  malformed_response request_failed not_json malformed_document : ConnectorError
  row_identity row_age missing_api_key : ConnectorError
  refused : String → ConnectorError
  age_bound index_bound size_bound : ConnectorError
  unsupported_url embedded_credentials unknown_parameter not_a_json_request age_missing :
      ConnectorError

abbrev pub role_code_fields_complete : AssemblyBillRecord → Bool
role_code_fields_complete b =
    not (is_none b.representative_proposer_codes) && not (is_none b.co_proposer_codes)

abbrev pub lists_code : Option (List String) → String → Bool
lists_code none code = false
lists_code (some codes) code = contains codes code

unfoldable pub role_for_code : AssemblyBillRecord → String → Option String
unfolding strip
role_for_code b member_code =
    let target = strip member_code in
    if lists_code b.representative_proposer_codes target
    then some "LEAD"
    else if lists_code b.co_proposer_codes target
    then some "CO_SPONSOR"
    else none
