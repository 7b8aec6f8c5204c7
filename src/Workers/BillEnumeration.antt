-- ===== src/Workers/BillEnumeration.antt =====
-- workers/legislative_activity.py: AssemblyBillParticipationEnumerator. This file has its state and
-- its exceptions.
pub mod Bills
pub mod Resume
pub mod Announced
pub mod Hashes
pub mod Examine
pub mod Run
pub mod Prepared
pub mod Ends
pub mod Keeps
pub mod Live
pub mod Amounts
pub mod Counting
pub mod Covers
pub mod Begins
pub mod Closes
pub mod ReadsBack
use civic_intel.Prelude.{ℕ, String, Option, List, ◌>>◌}
use civic_intel.Prelude.Dict.{Dict}
use civic_intel.Prelude.Integers.{ℤ}
use civic_intel.Domain.Contracts.Base.{Uuid, Time, Json, ContractError}
use civic_intel.Domain.Contracts.Evidence.{SourcePolicy}
use civic_intel.Domain.Contracts.Collection.{SourceRun}
use civic_intel.Verification.Policy.{PolicyDenied}
use civic_intel.Persistence.Store.{StoreError, database_not_ready, integrity}
use civic_intel.Connectors.AssemblyBills.{
  ConnectorError, missing_api_key, age_bound, index_bound, size_bound, unsupported_url,
  embedded_credentials, unknown_parameter, not_a_json_request, age_missing,
}
use civic_intel.Connectors.AssemblyBills.Client.{AssemblyBillConnector}

-- The messages of `AssemblyBillCoverageError`.
pub data CoverageFailure : Type 0 where
  not_from_page_one filtered : CoverageFailure
  no_cursor invalid_metadata other_page_size other_age other_contract already_covered :
      CoverageFailure
  document_contract document_scope document_page document_page_size : CoverageFailure
  total_unavailable negative_total too_many_pages total_changed extra_page : CoverageFailure
  row_count row_age incomplete_codes conflict_in_page duplicate_in_page : CoverageFailure
  duplicate_page conflict_across_pages duplicate_across_pages incomplete : CoverageFailure

pub data EnumerationError : Type 0 where
  coverage : CoverageFailure → EnumerationError
  connector : ConnectorError → EnumerationError
  wrong_host : EnumerationError
  denied : PolicyDenied → EnumerationError
  repository : StoreError → EnumerationError
  contract : ContractError → EnumerationError
  invalid_url : EnumerationError

abbrev pub connector_error_name : ConnectorError → String
connector_error_name missing_api_key = "MissingAssemblyApiKey"
connector_error_name age_bound = "ValueError"
connector_error_name index_bound = "ValueError"
connector_error_name size_bound = "ValueError"
connector_error_name unsupported_url = "ValueError"
connector_error_name embedded_credentials = "ValueError"
connector_error_name unknown_parameter = "ValueError"
connector_error_name not_a_json_request = "ValueError"
connector_error_name age_missing = "ValueError"
connector_error_name other = "AssemblyApiError"

abbrev pub store_error_name : StoreError → String
store_error_name database_not_ready = "DatabaseNotReady"
store_error_name integrity = "IntegrityError"
store_error_name other = "ValueError"

-- `type(exc).__name__`; each is shorter than the 120 characters that are kept.
abbrev pub error_name : EnumerationError → String
error_name (coverage e) = "AssemblyBillCoverageError"
error_name (connector e) = connector_error_name e
error_name wrong_host = "PolicyDenied"
error_name (denied e) = "PolicyDenied"
error_name (repository e) = store_error_name e
error_name (contract e) = "ValidationError"
error_name invalid_url = "ValueError"

pub record BillEnumerator : Type 0 where
  pub connector : AssemblyBillConnector
  pub policy : SourcePolicy
  pub max_pages : ℕ

-- The identifiers and times that a run makes, by the page and by the place of a bill on it.
pub record Fresh : Type 0 where
  pub run_id : Uuid
  pub started_at : Time
  pub closed_at : Time
  pub source_id : ℕ → Uuid
  pub snapshot_id : ℕ → Uuid
  pub checkpoint_id : ℕ → Uuid
  pub fetched_at : ℕ → Time
  pub committed_at : ℕ → Time
  pub observation_id : ℕ → ℕ → Uuid
  pub recorded_at : ℕ → ℕ → Time

-- What the loop over the pages keeps: `expected_total` and `expected_pages`, which are set
-- together, the hashes by bill, the digests of the pages, and the count of pages.
pub record Progress : Type 0 where
  pub expected : Option (ℤ × ℤ)
  pub seen_hashes : Dict String Json
  pub page_fingerprints : List Json
  pub pages_committed : ℕ

pub record AssemblyBillEnumerationResult : Type 0 where
  pub run : SourceRun
  pub pages_committed : ℕ
  pub unique_records : ℕ

abbrev pub feeder_name : String
feeder_name = "national_assembly_bill_participation"

abbrev pub bill_scope : String
bill_scope = "legislative_bill_participation"

abbrev pub source_contract : String
source_contract = "assembly_term_bill_participation"
