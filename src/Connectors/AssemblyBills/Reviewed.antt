-- ===== src/Connectors/AssemblyBills/Reviewed.antt =====
-- packages/connectors/open_assembly_bills.py: the policy that was reviewed for the interface. Its
-- identifier is the one of packages/connectors/open_assembly.py.
use civic_intel.Prelude.{true, false, none, some, string_eq, bool_eq, nat_eq, option_eq, pair_eq}
use civic_intel.Domain.Enums.{SourceCollectionMode}
use civic_intel.Domain.Contracts.Base.{Stamp, aware}
use civic_intel.Domain.Contracts.Evidence.{SourcePolicy}

-- Midnight of 31 August 2026 in UTC, in microseconds from the day whose ordinal is zero.
abbrev reviewed_at : Stamp
reviewed_at = aware 63923817600000000 63923817600000000

abbrev pub national_assembly_bill_policy : SourcePolicy
national_assembly_bill_policy = record {
  id = 22596875928343569839364720024765857793;
  domain = "open.assembly.go.kr";
  source_class = "official_open_api";
  collection_mode = SourceCollectionMode.api;
  can_fetch = true;
  can_store_metadata = true;
  can_store_fulltext = false;
  can_send_to_ai = false;
  can_show_excerpt = false;
  can_commercialize = true;
  robots_checked_at = none;
  terms_checked_at = some reviewed_at;
  license = some "이용허락범위 제한 없음";
  rate_limit =
      some "Provider-controlled traffic; development auto-approval, operation review approval";
  policy_note =
      some
        "Reviewed 2026-08-31 against data.go.kr dataset 15125946 and the National Assembly 의원 발의법률안 API nzmimeepazxkubdpn. Civic Intel stores structured metadata and exact proposer-code fields only; no bill-detail HTML scraping.";
}
