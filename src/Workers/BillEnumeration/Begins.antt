-- ===== src/Workers/BillEnumeration/Begins.antt =====
-- workers/legislative_activity.py: how an enumeration begins.
use civic_intel.Prelude.{
  raising-ok, String, ◌≡◌, refl, inl, inr, Bool, not, Option, none, some, Bool-cases, ◌!=◌,
  string_eq, bool_eq, nat_eq, option_eq, pair_eq, list_eq, raise_if, raising, >>=-eq-ok, past,
  Every, Every-bind, ok,
}
use civic_intel.Prelude.Dict.{lookup}
use civic_intel.Prelude.Integers.{pos, int_ltb, successor, int_of, int_eq}
use civic_intel.Domain.Enums.{source_run_status_eq}
use civic_intel.Domain.Contracts.Base.{Metadata}
use civic_intel.Domain.Contracts.Collection.{SourceRun, SourceCheckpoint}
use civic_intel.Persistence.Store.{Store, start_source_run}
use civic_intel.Connectors.Base.{Outside}
use civic_intel.Connectors.AssemblyBills.Client.{AssemblyBillConnector, has_filters, host}
use civic_intel.Verification.Policy.{PolicyAction, require_policy}
use civic_intel.Workers.BillEnumeration.Resume.{
  Beginning, beginning, resume_from, read_checkpoint, or_invalid, int_at, text_at, as_dict, as_list,
}
use civic_intel.Workers.BillEnumeration.Examine.{scope_key}
use civic_intel.Workers.BillEnumeration.Run.{begin_run, run_metadata}
use civic_intel.Workers.BillEnumeration.{
  other_page_size, other_age, other_contract, already_covered, repository, denied, Fresh,
  BillEnumerator, feeder_name, source_contract,
}

read_uncommitted :
    (o : Outside) (c : AssemblyBillConnector) (cursor : String) (metadata : Metadata)
    → Every
        (λ (b : Beginning). b.progress.pages_committed ≡ 0)
        (read_checkpoint o c cursor metadata)
unfolding read_checkpoint
read_uncommitted o c cursor metadata =
    Every-bind _ (or_invalid (int_of o.unicode cursor)) _ λ last_page.
      Every-bind _ (int_at o "list_total_count" metadata) _ λ total.
        Every-bind _ (int_at o "expected_pages" metadata) _ λ pages.
          Every-bind _ (int_at o "page_size" metadata) _ λ page_size.
            Every-bind _ (int_at o "assembly_age" metadata) _ λ age.
              Every-bind _ (text_at o "source_contract" metadata) _ λ contract.
                Every-bind _ (or_invalid (lookup "seen_provider_hashes" metadata)) _ λ seen.
                  Every-bind _ (as_dict seen) _ λ seen_hashes.
                    Every-bind _ (or_invalid (lookup "page_fingerprints" metadata)) _
                      λ fingerprints. Every-bind _ (as_list fingerprints) _ λ page_fingerprints.
                        Every-bind _ (raise_if (page_size != pos c.page_size) other_page_size) _
                          λ u1.
                            Every-bind _ (raise_if (age != pos c.assembly_age) other_age) _ λ u2.
                              Every-bind _ (raise_if (contract != source_contract) other_contract) _
                                λ u3.
                                  Every-bind _
                                    (raise_if (int_ltb pages (successor last_page)) already_covered)
                                    _ λ u4. refl

pub beginning_uncommitted :
    (o : Outside) (c : AssemblyBillConnector) (resume : Bool) (prior : Option SourceCheckpoint)
    → Every (λ (b : Beginning). b.progress.pages_committed ≡ 0) (beginning o c resume prior)
unfolding beginning resume_from
beginning_uncommitted o c resume none = refl
beginning_uncommitted o c resume (some prior) = elim (Bool-cases resume) [
  | inl e ↦ rw e (resumed prior.cursor)
  | inr e ↦ rw e refl
]
  where
    none_yet : Beginning → Type 0
    none_yet b = b.progress.pages_committed ≡ 0

    resumed : (cursor : Option String) → Every none_yet (resume_from o c prior.metadata cursor)
    resumed none = tt
    resumed (some cursor) = read_uncommitted o c cursor prior.metadata

pub begin_run-start :
    (o : Outside) (w : BillEnumerator) (fresh : Fresh) (resume : Bool) (s : Store) (run : SourceRun)
    (after : Store)
    → begin_run o w fresh resume s ≡ ok (run, after)
    → start_source_run fresh.run_id fresh.started_at
        (run_metadata o w fresh resume)
        feeder_name
        (scope_key w.connector)
        s
      ≡ ok (run, after)
unfolding begin_run
begin_run-start o w fresh resume s run after h =
    let (e1, h1) = past (w.connector.page_index != 1) _ h in
    let (e2, h2) = past (has_filters w.connector) _ h1 in
    let (e3, h3) = past (w.policy.domain != host) _ h2 in
    let (u4, e4, h4) =
      >>=-eq-ok (raising denied (require_policy (some w.policy) PolicyAction.fetch)) _ h3 in
    let (u5, e5, h5) =
      >>=-eq-ok (raising denied (require_policy (some w.policy) PolicyAction.store_metadata)) _
        h4 in
    let (e6, h6) = past (not s.schema_ready) _ h5 in raising-ok repository _ h6
