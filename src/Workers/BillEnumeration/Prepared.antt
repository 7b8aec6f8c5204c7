-- ===== src/Workers/BillEnumeration/Prepared.antt =====
-- workers/legislative_activity.py: what holds of a page that is ready to be committed.
use civic_intel.Prelude.{
  ℕ, ◌+◌, ◌≤◌, String, ◌≡◌, refl, sym, ap, subst, false, not, ◌&&◌, Option, none, some, List, [],
  ◌∷◌, ◌++◌, arith, ltb, leb, ◌!=◌, string_eq, bool_eq, nat_eq, option_eq, pair_eq, list_eq, length,
  raising, >>=-eq-ok, ok-injective, raising-ok, past, !=_iff, ok,
}
use civic_intel.Prelude.Dict.{Dict, lookup}
use civic_intel.Prelude.Integers.{ℤ, pos, negsuc, int_eq, int_of, str_nat}
use civic_intel.Domain.Contracts.Base.{Uuid, text}
use civic_intel.Domain.Contracts.Collection.{FeederObservation, validate_feeder_observation}
use civic_intel.Connectors.Base.{ConnectorDocument, Outside}
use civic_intel.Connectors.AssemblyBills.{AssemblyBillRecord}
use civic_intel.Connectors.AssemblyBills.Rows.{parse_bills, api_code}
use civic_intel.Connectors.AssemblyBills.Client.{
  AssemblyBillConnector, for_page, construct_connector,
}
use civic_intel.Workers.Ingest.{IngestionResult, ingest_document}
use civic_intel.Workers.BillEnumeration.Announced.{
  announced, page_count, differs, natural, total_of,
}
use civic_intel.Workers.BillEnumeration.Hashes.{Hashed, hash_bills, unseen_page, merged}
use civic_intel.Workers.BillEnumeration.Examine.{
  Examined, examine, fetch_page, observe, observation_of, expected_row_count, advanced,
  checkpoint_metadata,
}
use civic_intel.Workers.BillEnumeration.{
  coverage, connector, denied, contract, Progress, Fresh, BillEnumerator,
}

-- The page and the page size are in their bounds.
pub record Bounded (size n : ℕ) : Type 0 where
  pub page : 1 ≤ n
  pub size_low : 1 ≤ size

for_page-Bounded :
    (c : AssemblyBillConnector) (n : ℕ) {d : AssemblyBillConnector}
    → for_page c n ≡ ok d
    → Bounded c.page_size n
unfolding for_page construct_connector
for_page-Bounded c n h =
    let (e1, h1) = past (ltb c.assembly_age 1) _ h in
    let (e2, h2) = past (ltb n 1) _ h1 in
    let (e3, h3) = past (not (leb 1 c.page_size && leb c.page_size 1000)) _ h2 in
    record { page = ground (arith, e2); size_low = ground (arith, e3) }

-- What a document announces agrees with the pages before it, and is in bounds.
pub record Announces (w : BillEnumerator) (expected : Option (ℤ × ℤ)) (n total pages : ℕ)
    : Type 0 where
  pub counted : pages ≡ page_count total w.connector.page_size
  pub within_max : pages ≤ w.max_pages
  pub due : n ≤ pages
  pub agrees_before : differs expected total pages ≡ false

-- The document says how many bills there are in all.
abbrev pub ToldIn : Outside → Option String → ℕ → Type 0
ToldIn o found total =
    (value : String) × (found ≡ some value) × (int_of o.unicode value ≡ some (pos total))

abbrev pub Told : Outside → Dict String String → ℕ → Type 0
Told o metadata = ToldIn o (lookup "list_total_count" metadata)

natural_pos : (z : Option ℤ) {n : ℕ} → natural z ≡ ok n → z ≡ some (pos n)
natural_pos none h = cc
natural_pos (some (pos n)) h = ap (λ k. some (pos k)) (ok-injective h)
natural_pos (some (negsuc n)) h = cc

told_of : (o : Outside) (found : Option String) {n : ℕ} → total_of o found ≡ ok n → ToldIn o found n
told_of o none h = cc
told_of o (some value) h = (value, refl, natural_pos (int_of o.unicode value) h)

announced-Announces :
    (o : Outside) (w : BillEnumerator) (expected : Option (ℤ × ℤ)) (n : ℕ)
    (metadata : Dict String String) {total pages : ℕ}
    → announced o w.connector w.max_pages expected n metadata ≡ ok (total, pages)
    → Announces w expected n total pages × Told o metadata total
unfolding announced
announced-Announces o w expected n metadata {total} {pages} h =
    let c = w.connector in
    let (e1, h1) = past (lookup "api_code" metadata != some api_code) _ h in
    let (e2, h2) = past (lookup "assembly_age" metadata != some (str_nat c.assembly_age)) _ h1 in
    let (e3, h3) = past (lookup "page_index" metadata != some (str_nat n)) _ h2 in
    let (e4, h4) = past (lookup "page_size" metadata != some (str_nat c.page_size)) _ h3 in
    let (t, e5, h5) = >>=-eq-ok (total_of o (lookup "list_total_count" metadata)) _ h4 in
    let k = page_count t c.page_size in
    let (e6, h6) = past (ltb w.max_pages k) _ h5 in
    let (e7, h7) = past (differs expected t k) _ h6 in
    let (e8, h8) = past (ltb k n) _ h7 in
    let same_total : t ≡ total = ap (λ (q : ℕ × ℕ). q.0) (ok-injective h8) in
    let same_pages : k ≡ pages = ap (λ (q : ℕ × ℕ). q.1) (ok-injective h8) in
    (
      subst (λ (z : ℕ). Announces w expected n z pages) same_total
          (subst (λ (z : ℕ). Announces w expected n t z) same_pages
            (record {
              counted = refl;
              within_max = ground (arith, e6);
              due = ground (arith, e8);
              agrees_before = e7;
            })),
      subst (Told o metadata) same_total (told_of o (lookup "list_total_count" metadata) e5),
    )

observe-length :
    (c : AssemblyBillConnector) (fresh : Fresh) (run_id : Uuid) (n : ℕ)
    (ingestion : IngestionResult) (h : Hashed) (i : ℕ) (bills : List AssemblyBillRecord)
    {os : List FeederObservation}
    → observe c fresh run_id n ingestion h i bills ≡ ok os
    → length os ≡ length bills
unfolding observe
observe-length c fresh run_id n ingestion h i [] {os} e =
    sym (ap (λ (z : List FeederObservation). length z) (ok-injective e))
observe-length c fresh run_id n ingestion h i (b ∷ bills) {os} e =
    let (u, e1, h1) =
      >>=-eq-ok
        (raising contract
          (validate_feeder_observation (observation_of c fresh run_id n ingestion h i b)))
        _ e in
    let (rest, e2, h2) = >>=-eq-ok (observe c fresh run_id n ingestion h (i + 1) bills) _ h1 in
    let size = observe-length c fresh run_id n ingestion h (i + 1) bills e2 in
    let same = ap (λ (z : List FeederObservation). length z) (ok-injective h2) in
    omega (arith, size, same)

-- The page that `examine` prepares: its parts, and the checks that they passed.
pub record Prepared (o : Outside) (w : BillEnumerator) (fresh : Fresh) (run_id : Uuid) (n : ℕ)
    (p : Progress) (x : Examined) : Type 0 where
  pub document : ConnectorDocument
  pub fetched : fetch_page o w.connector n ≡ ok document
  pub told : Told o document.metadata x.total
  pub bills : List AssemblyBillRecord
  pub hashed : Hashed
  pub fingerprint : String
  pub bounded : Bounded w.connector.page_size n
  pub announces : Announces w p.expected n x.total x.pages
  pub rows : length bills ≡ expected_row_count w.connector.page_size x.total n
  pub hashing :
      hash_bills o w.connector.assembly_age bills (record { hashes = []; normalized = [] })
      ≡ ok hashed
  pub new : unseen_page o p.seen_hashes p.page_fingerprints hashed.hashes ≡ ok fingerprint
  pub observed : length x.page.observations ≡ length bills
  pub of_run : x.page.run_id ≡ run_id
  pub at_cursor : x.page.cursor ≡ str_nat n
  pub moves :
      x.next
      ≡ advanced x.total x.pages
          (merged p.seen_hashes hashed.hashes)
          (p.page_fingerprints ++ text fingerprint ∷ [])
          p
  pub notes :
      x.page.checkpoint_metadata
      ≡ checkpoint_metadata w.connector x.total x.pages x.next.seen_hashes x.next.page_fingerprints

pub examine-Prepared :
    (o : Outside) (w : BillEnumerator) (fresh : Fresh) (run_id : Uuid) (n : ℕ) (p : Progress)
    {x : Examined}
    → examine o w fresh run_id n p ≡ ok x
    → Prepared o w fresh run_id n p x
unfolding examine fetch_page
examine-Prepared o w fresh run_id n p {x} h =
    let c = w.connector in
    let (document, e1, h1) = >>=-eq-ok (fetch_page o c n) _ h in
    let (counts, e2, h2) =
      >>=-eq-ok (raising coverage (announced o c w.max_pages p.expected n document.metadata)) _
        h1 in
    let (bills, e3, h3) = >>=-eq-ok (raising connector (parse_bills o document.body)) _ h2 in
    let (e4, h4) = past (length bills != expected_row_count c.page_size counts.0 n) _ h3 in
    let (hashed, e5, h5) = >>=-eq-ok (hash_bills o c.assembly_age bills _) _ h4 in
    let (fingerprint, e6, h6) =
      >>=-eq-ok (unseen_page o p.seen_hashes p.page_fingerprints hashed.hashes) _ h5 in
    let (ingestion, e7, h7) =
      >>=-eq-ok (raising denied (ingest_document o _ _ _ document w.policy none)) _ h6 in
    let (observations, e8, h8) =
      >>=-eq-ok (observe c fresh run_id n ingestion hashed 0 bills) _ h7 in
    let told = announced-Announces o w p.expected n document.metadata (raising-ok coverage _ e2) in
    let (d, e9, h9) = >>=-eq-ok (for_page c n) _ (raising-ok connector _ e1) in
    subst (Prepared o w fresh run_id n p) (ok-injective h8) (record {
      document = document;
      fetched = e1;
      told = told.1;
      bills = bills;
      hashed = hashed;
      fingerprint = fingerprint;
      bounded = for_page-Bounded c n e9;
      announces = told.0;
      rows = (!=_iff (length bills) (expected_row_count c.page_size counts.0 n)).0 e4;
      hashing = e5;
      new = e6;
      observed = observe-length c fresh run_id n ingestion hashed 0 bills e8;
      of_run = refl;
      at_cursor = refl;
      moves = refl;
      notes = refl;
    })
