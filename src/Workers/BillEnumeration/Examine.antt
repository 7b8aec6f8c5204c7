-- ===== src/Workers/BillEnumeration/Examine.antt =====
-- workers/legislative_activity.py: one round of the loop, up to the commit of its page.
use Prim.Native.String.{◌++◌ as ◌then◌}
use civic_intel.Prelude.{
  ℕ, ◌+◌, ◌-◌, ◌*◌, String, false, Option, none, some, List, [], ◌∷◌, ◌++◌, ltb, if◌then◌else◌,
  ◌!=◌, string_eq, bool_eq, nat_eq, option_eq, pair_eq, list_eq, length, Result, ◌>>=◌, ◌>>◌,
  raise_if, raising, ok,
}
use civic_intel.Prelude.Dict.{Dict, lookup}
use civic_intel.Prelude.Integers.{pos, str_nat}
use civic_intel.Domain.Contracts.Base.{Json, Metadata, text, number, array, object, Uuid}
use civic_intel.Domain.Contracts.Collection.{FeederObservation, validate_feeder_observation}
use civic_intel.Persistence.Page.{Page}
use civic_intel.Connectors.Base.{ConnectorDocument, Outside, to_fields, to_items}
use civic_intel.Connectors.AssemblyBills.{AssemblyBillRecord}
use civic_intel.Connectors.AssemblyBills.Rows.{parse_bills}
use civic_intel.Connectors.AssemblyBills.Client.{AssemblyBillConnector, for_page, discover, fetch}
use civic_intel.Workers.Ingest.{IngestionResult, ingest_document}
use civic_intel.Workers.BillEnumeration.Bills.{bill_observed_at, bill_identity_hints}
use civic_intel.Workers.BillEnumeration.Announced.{announced}
use civic_intel.Workers.BillEnumeration.Hashes.{Hashed, hash_bills, unseen_page, merged}
use civic_intel.Workers.BillEnumeration.{
  EnumerationError, coverage, connector, denied, contract, row_count, Progress, Fresh,
  BillEnumerator, feeder_name, bill_scope, source_contract,
}

abbrev pub scope_key : AssemblyBillConnector → String
scope_key c = "assembly_age:" then str_nat c.assembly_age

-- `page_connector.fetch(page_connector.discover()[0])`
unfoldable pub fetch_page :
    Outside → AssemblyBillConnector → ℕ → Result EnumerationError ConnectorDocument
unfolding for_page discover fetch
fetch_page o c n = raising connector (for_page c n >>= λ page. fetch o page (discover o page))

abbrev pub or_none {ℓ κ} : {K : Type ℓ} {V : Type κ} → Option (Dict K V) → Dict K V
or_none none = []
or_none (some d) = d

abbrev pub or_empty : Option String → String
or_empty none = ""
or_empty (some s) = s

module _ (c : AssemblyBillConnector) (fresh : Fresh) (run_id : Uuid) (n : ℕ)
    (ingestion : IngestionResult) (h : Hashed) where
  -- The observation of the bill at the place `i` of the page `n`.
  abbrev pub observation_of : ℕ → AssemblyBillRecord → FeederObservation
  observation_of i b = record {
    id = fresh.observation_id n i;
    feeder = feeder_name;
    scope_key = scope_key c;
    provider_record_key = b.bill_id;
    snapshot_id = ingestion.snapshot.id;
    run_id = run_id;
    recorded_at = fresh.recorded_at n i;
    provider_observed_at = bill_observed_at b.proposed_date;
    semantic_scope = bill_scope;
    identity_hints = bill_identity_hints b;
    normalized = or_none (lookup b.bill_id h.normalized);
    content_hash = or_empty (lookup b.bill_id h.hashes);
  }

  unfoldable pub observe :
      ℕ → List AssemblyBillRecord → Result EnumerationError (List FeederObservation)
  unfolding validate_feeder_observation bill_identity_hints
  observe i [] = ok []
  observe i (b ∷ bills) = do
    raising contract (validate_feeder_observation (observation_of i b))
    rest ← observe (i + 1) bills
    ok (observation_of i b ∷ rest)

abbrev pub checkpoint_metadata :
    AssemblyBillConnector → ℕ → ℕ → Dict String Json → List Json → Metadata
checkpoint_metadata c total pages seen fingerprints =
    ("page_size", number c.page_size)
    ∷ ("expected_pages", number pages)
    ∷ ("list_total_count", number total)
    ∷ ("source_contract", text source_contract)
    ∷ ("assembly_age", number c.assembly_age)
    ∷ ("seen_provider_hashes", object (to_fields seen))
    ∷ ("page_fingerprints", array (to_items fingerprints))
    ∷ []

-- A page that is ready to be committed, and the state after its commit.
pub record Examined : Type 0 where
  pub page : Page
  pub total : ℕ
  pub pages : ℕ
  pub next : Progress

abbrev pub min : ℕ → ℕ → ℕ
min a b = if ltb b a then b else a

-- `page_index` is one at least, or `for_page` would have raised.
abbrev pub expected_row_count : ℕ → ℕ → ℕ → ℕ
expected_row_count page_size total n = min page_size (total - (n - 1) * page_size)

abbrev pub page_of :
    BillEnumerator → Fresh → Uuid → ℕ → IngestionResult → List FeederObservation → Metadata → Page
page_of w fresh run_id n ingestion observations metadata = record {
  run_id = run_id;
  policy = w.policy;
  source = ingestion.source;
  snapshot = ingestion.snapshot;
  observations = observations;
  cursor = str_nat n;
  checkpoint_metadata = metadata;
  require_stored_policy_match = false;
  checkpoint_id = fresh.checkpoint_id n;
  now = fresh.committed_at n;
}

abbrev pub advanced : ℕ → ℕ → Dict String Json → List Json → Progress → Progress
advanced total pages seen fingerprints p = record {
  expected = some (pos total, pos pages);
  seen_hashes = seen;
  page_fingerprints = fingerprints;
  pages_committed = p.pages_committed + 1;
}

unfoldable pub examine :
    Outside → BillEnumerator → Fresh → Uuid → ℕ → Progress → Result EnumerationError Examined
unfolding fetch_page announced parse_bills hash_bills unseen_page ingest_document observe
examine o w fresh run_id n p = do
  let c = w.connector
  document ← fetch_page o c n
  counts ← raising coverage (announced o c w.max_pages p.expected n document.metadata)
  bills ← raising connector (parse_bills o document.body)
  raise_if (length bills != expected_row_count c.page_size counts.0 n) (coverage row_count)
  hashed ← hash_bills o c.assembly_age bills (record { hashes = []; normalized = [] })
  fingerprint ← unseen_page o p.seen_hashes p.page_fingerprints hashed.hashes
  ingestion ← raising denied (
      ingest_document o (fresh.source_id n) (fresh.snapshot_id n) (fresh.fetched_at n) document
        w.policy none)
  observations ← observe c fresh run_id n ingestion hashed 0 bills
  let seen = merged p.seen_hashes hashed.hashes
  let fingerprints = p.page_fingerprints ++ text fingerprint ∷ []
  let metadata = checkpoint_metadata c counts.0 counts.1 seen fingerprints
  ok (record {
    page = page_of w fresh run_id n ingestion observations metadata;
    total = counts.0;
    pages = counts.1;
    next = advanced counts.0 counts.1 seen fingerprints p;
  })
