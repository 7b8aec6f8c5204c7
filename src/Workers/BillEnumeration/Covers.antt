-- ===== src/Workers/BillEnumeration/Covers.antt =====
-- workers/legislative_activity.py: an enumeration from page one that returns has covered its term.
use mathlib.Core.Option.{some_inj}
use civic_intel.Prelude.{
  ℕ, ◌+◌, ◌≤◌, ◌≡◌, refl, sym, ap, subst, ◌∙◌, inl, inr, false, Option, none, some, List, [], ◌∷◌,
  arith, Bool-cases, ◌==◌, string_eq, bool_eq, nat_eq, option_eq, pair_eq, list_eq, length,
  find_first, Result, ok-injective, Result-cases, ok, err,
}
use civic_intel.Prelude.Integers.{int_eq}
use civic_intel.Domain.Enums.{SourceRunStatus}
use civic_intel.Domain.Contracts.Base.{Uuid}
use civic_intel.Domain.Contracts.Collection.{SourceRun, SourceCheckpoint}
use civic_intel.Persistence.Store.{
  Store, StoreError, find_run, source_checkpoint, finish_source_run, finished, run_with,
}
use civic_intel.Persistence.History.{finish_source_run-Finished}
use civic_intel.Connectors.Base.{ConnectorDocument, Outside}
use civic_intel.Connectors.AssemblyBills.Client.{AssemblyBillConnector}
use civic_intel.Workers.BillEnumeration.Announced.{page_count}
use civic_intel.Workers.BillEnumeration.Resume.{Beginning, beginning, from_page_one}
use civic_intel.Workers.BillEnumeration.Examine.{scope_key, fetch_page}
use civic_intel.Workers.BillEnumeration.Prepared.{Told}
use civic_intel.Workers.BillEnumeration.Keeps.{Last, Kept, enumerate_pages-Kept}
use civic_intel.Workers.BillEnumeration.Live.{Live, Live-start, found_written}
use civic_intel.Workers.BillEnumeration.Begins.{begin_run-start}
use civic_intel.Workers.BillEnumeration.Run.{
  Ended, covered, raised, exhausted, enumerate_from, enumerate_begun, enumerate_term, Outcome,
  raise_again, close_failed, after_close, close_covered, close_run, enumeration_result,
  run_metadata, begin_run, enumerate_started, enumerate,
}
use civic_intel.Workers.BillEnumeration.{
  EnumerationError, CoverageFailure, repository, Progress, Fresh, BillEnumerator,
  AssemblyBillEnumerationResult, feeder_name,
}
use civic_intel.Workers.BillEnumeration.Counting.{Counts, Counts-commit}

-- The document of the page announces the total.
pub record AnnouncedBy (o : Outside) (w : BillEnumerator) (n total : ℕ) : Type 0 where
  pub document : ConnectorDocument
  pub fetched : fetch_page o w.connector n ≡ ok document
  pub told : Told o document.metadata total

-- What a result says of the term, and the store of the run.
pub record CoversTerm (o : Outside) (w : BillEnumerator) (result : AssemblyBillEnumerationResult)
    (after : Store) : Type 0 where
  pub found : find_run after result.run.id ≡ some result.run
  pub succeeded : result.run.status ≡ SourceRunStatus.success
  pub counted : result.run.records_seen ≡ result.unique_records
  pub announced : AnnouncedBy o w result.pages_committed result.unique_records
  pub pages : result.pages_committed ≡ page_count result.unique_records w.connector.page_size
  pub within_max : result.pages_committed ≤ w.max_pages

err-ne-ok :
    {e : EnumerationError} {result : AssemblyBillEnumerationResult}
    → ◌≡◌ {A = Result EnumerationError AssemblyBillEnumerationResult} (err e) (ok result)
    → ⊥
err-ne-ok h = cc

found_id :
    (id : Uuid) (rs : List SourceRun) {r : SourceRun}
    → find_first (run_with id) rs ≡ some r
    → r.id ≡ id
found_id id [] h = cc
found_id id (x ∷ rs) {r} h = elim (Bool-cases (x.id == id)) [
  | inl t ↦ let it : x ≡ r = ground (arith, h, t) in ground (arith, t, it)
  | inr t ↦ found_id id rs {r = r} (ground (arith, h, t))
]

-- The pages that were committed are the expected ones.
pages_done : (done n pages : ℕ) → done + 1 ≡ n + 1 → n ≡ pages → done ≡ pages
pages_done done n pages h e = omega (arith, h, e)

module _ (o : Outside) (w : BillEnumerator) (fresh : Fresh) (run_id : Uuid) where
  close_failed-err :
      (e : EnumerationError) (p : Progress) (s : Store) {result : AssemblyBillEnumerationResult}
      {after : Store}
      → close_failed o w fresh run_id e p s ≡ (ok result, after)
      → ⊥
  unfolding close_failed
  close_failed-err e p s h = again _ h
    where
      again :
          {result : AssemblyBillEnumerationResult} {after : Store}
          (r : Result StoreError (SourceRun × Store))
          → raise_again o w fresh e s r ≡ (ok result, after)
          → ⊥
      again (ok closed) q = err-ne-ok (ap (λ (z : Outcome). z.0) q)
      again (err f) q = err-ne-ok (ap (λ (z : Outcome). z.0) q)

  finished-CoversTerm :
      (p : Progress) (s : Store) (run : SourceRun) (after : Store)
      → Last o w fresh run_id (Counts w.connector.page_size run_id) p s
      → finish_source_run o.unicode fresh.closed_at run_id SourceRunStatus.success none none s
        ≡ ok (run, after)
      → CoversTerm o w (enumeration_result o w fresh p run) after
  unfolding find_run
  finished-CoversTerm p s run after l h =
      let f =
        finish_source_run-Finished o.unicode fresh.closed_at run_id SourceRunStatus.success none
          none run s after h in
      let close = finished SourceRunStatus.success fresh.closed_at none none in
      let live = l.kept.live in
      let row : live.row ≡ f.before = ground (arith, live.found, f.found) in
      let there : find_first (run_with run_id) after.runs ≡ some (close f.before) =
        ap (find_first (run_with run_id)) f.runs
        ∙ found_written run_id close (λ q. refl) s.runs f.found in
      let named = found_id run_id s.runs f.found in
      let a = l.prepared.announces in
      record {
        found =
            ap (λ (r : SourceRun). find_first (run_with r.id) after.runs) f.closed
            ∙ ap (λ k. find_first (run_with k) after.runs) named
            ∙ there
            ∙ ap some (sym f.closed);
        succeeded = ap (λ (r : SourceRun). r.status) f.closed;
        counted =
            ap (λ (r : SourceRun). r.records_seen) f.closed
            ∙ ap (λ (r : SourceRun). r.records_seen) (sym row)
            ∙ live.seen;
        announced =
            subst (λ (k : ℕ). AnnouncedBy o w k (length p.seen_hashes))
              (l.last ∙ sym (pages_done p.pages_committed l.n l.x.pages l.kept.committed l.last))
              (subst (AnnouncedBy o w l.n) (sym l.full) (record {
                document = l.prepared.document;
                fetched = l.prepared.fetched;
                told = l.prepared.told;
              }));
        pages =
            pages_done p.pages_committed l.n l.x.pages l.kept.committed l.last
            ∙ a.counted
            ∙ ap (λ k. page_count k w.connector.page_size) (sym l.full);
        within_max = omega (
          arith,
          pages_done p.pages_committed l.n l.x.pages l.kept.committed l.last,
          a.within_max,
        );
      }

  after_close-ok :
      (p : Progress) (s : Store) (result : AssemblyBillEnumerationResult) (after : Store)
      (r : Result StoreError (SourceRun × Store))
      → Last o w fresh run_id (Counts w.connector.page_size run_id) p s
      → finish_source_run o.unicode fresh.closed_at run_id SourceRunStatus.success none none s ≡ r
      → after_close o w fresh run_id p s r ≡ (ok result, after)
      → CoversTerm o w result after
  unfolding after_close
  after_close-ok p s result after (err e) l f h = absurd (close_failed-err (repository e) p s h)
  after_close-ok p s result after (ok (run, z)) l f h =
      let same = ok-injective (ap (λ (q : Outcome). q.0) h) in
      subst (CoversTerm o w result) (ap (λ (q : Outcome). q.1) h) (
        subst (λ (r : AssemblyBillEnumerationResult). CoversTerm o w r z) same
          (finished-CoversTerm p s run z l f))

  close_run-ok :
      (ended : Ended) (result : AssemblyBillEnumerationResult) (after : Store)
      → Kept o w fresh run_id (Counts w.connector.page_size run_id) ended
      → close_run o w fresh run_id ended ≡ some (ok result, after)
      → CoversTerm o w result after
  unfolding close_run close_covered
  close_run-ok (covered p s) result after kept h =
      after_close-ok p s result after _ kept refl (some_inj.0 h)
  close_run-ok (raised e p s) result after kept h = absurd (close_failed-err e p s (some_inj.0 h))
  close_run-ok exhausted result after kept h = cc

  enumerate_begun-Counts :
      (s : Store)
      → ((p : Progress) → p.pages_committed ≡ 0 → Live run_id 0 p s)
      → Kept o w fresh run_id
          (Counts w.connector.page_size run_id)
          (enumerate_begun o w fresh run_id s (ok from_page_one))
  unfolding enumerate_begun enumerate_from
  enumerate_begun-Counts s l =
      enumerate_pages-Kept o w fresh run_id (Counts w.connector.page_size run_id)
        (Counts-commit o w fresh run_id) (w.max_pages + 1) 1 from_page_one.progress s
        (record {
          live = l from_page_one.progress refl;
          committed = refl;
          amount = inl (refl, refl, refl);
        })

not_resumed :
    (o : Outside) (c : AssemblyBillConnector) (prior : Option SourceCheckpoint)
    → beginning o c false prior ≡ ok from_page_one
unfolding beginning
not_resumed o c none = refl
not_resumed o c (some prior) = refl

-- An enumeration that does not resume and returns has covered the term: the different bills are as
-- many as the provider announces with the last page that was committed, they fill exactly the pages
-- that were committed, and these are no more than `max_pages`; and its run stands in the store as a
-- success that has seen as many records as there are different bills.
pub enumerate_covers :
    (o : Outside) (w : BillEnumerator) (fresh : Fresh) (s : Store)
    (result : AssemblyBillEnumerationResult) (after : Store)
    → enumerate o w fresh false s ≡ some (ok result, after)
    → CoversTerm o w result after
unfolding enumerate enumerate_started enumerate_term
enumerate_covers o w fresh s result after h = elim (Result-cases (begin_run o w fresh false s)) [
  | inr (e, bad) ↦ absurd (
      err-ne-ok (
        ap (λ (z : Outcome). z.0)
          (some_inj.0 (sym (ap (enumerate_started o w fresh false s) bad) ∙ h))))
  | inl (started, begun) ↦
      let prior = source_checkpoint s feeder_name (scope_key w.connector) in
      let start = begin_run-start o w fresh false s started.0 started.1 begun in
      close_run-ok o w fresh started.0.id _ result after
        (subst
          (λ (r : Result CoverageFailure Beginning).
            Kept o w fresh started.0.id (Counts w.connector.page_size started.0.id)
              (enumerate_begun o w fresh started.0.id started.1 r))
          (sym (not_resumed o w.connector prior))
          (enumerate_begun-Counts o w fresh started.0.id started.1 (λ p q.
            Live-start fresh.run_id fresh.started_at (run_metadata o w fresh false) feeder_name
              (scope_key w.connector) started.0 s started.1 p start q)))
        (sym (ap (enumerate_started o w fresh false s) begun) ∙ h)
]
