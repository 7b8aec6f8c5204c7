-- ===== src/Workers/BillEnumeration/Live.antt =====
-- workers/legislative_activity.py: the row of the run, while its pages are committed.
use civic_intel.Prelude.{
  ℕ, ◌+◌, String, ◌≡◌, refl, sym, ap, subst, ◌∙◌, inl, inr, true, false, some, List, [], ◌∷◌, ◌++◌,
  arith, nat_beq, nat_beq_iff, Bool-cases, ◌==◌, string_eq, bool_eq, nat_eq, ==-refl, option_eq,
  pair_eq, length, any, find_first, update_where, ok,
}
use civic_intel.Domain.Enums.{SourceRunStatus}
use civic_intel.Domain.Contracts.Base.{Uuid, Time, Metadata}
use civic_intel.Domain.Contracts.Evidence.{is_none}
use civic_intel.Domain.Contracts.Collection.{SourceRun}
use civic_intel.Persistence.Store.{Store, run_with, find_run, start_source_run}
use civic_intel.Persistence.Page.{Page, BatchPageCommitResult, commit_source_page, Tally, counted}
use civic_intel.Persistence.Page.Written.{commit_source_page-Committed}
use civic_intel.Persistence.History.{start_source_run-Started}
use civic_intel.Connectors.Base.{Outside}
use civic_intel.Workers.BillEnumeration.Examine.{Examined}
use civic_intel.Workers.BillEnumeration.Prepared.{Prepared}
use civic_intel.Workers.BillEnumeration.{Progress, Fresh, BillEnumerator}

-- A row that is found and written anew is found in its new form.
pub found_written :
    (id : Uuid) (f : SourceRun → SourceRun)
    → ((r : SourceRun) → (f r).id ≡ r.id)
    → (rs : List SourceRun) {r : SourceRun} → find_first (run_with id) rs ≡ some r
    → find_first (run_with id) (update_where (run_with id) f rs) ≡ some (f r)
found_written id f same [] h = cc
found_written id f same (x ∷ rs) {r} h = elim (Bool-cases (x.id == id)) [
  | inl t ↦
      let it : x ≡ r = ground (arith, h, t) in
      let again : ((f x).id == id) ≡ true = ground (arith, t, same x) in
      ground (arith, t, again, it)
  | inr t ↦
      let rest : find_first (run_with id) rs ≡ some r = ground (arith, h, t) in
      ground (arith, t, found_written id f same rs rest)
]

pub found_new :
    (id : Uuid) (rs : List SourceRun) (r : SourceRun)
    → any (run_with id) rs ≡ false
    → r.id ≡ id
    → find_first (run_with id) (rs ++ r ∷ []) ≡ some r
found_new id [] r free named = ground (arith, ==-refl id, named)
found_new id (x ∷ rs) r free named = ground (arith, free, found_new id rs r)

-- A committed page counts its observations in the row of its run.
pub run_after_commit :
    (page : Page) (s : Store) (result : BatchPageCommitResult) (after : Store) {r : SourceRun}
    → commit_source_page page s ≡ ok (result, after)
    → find_run s page.run_id ≡ some r
    → (t : Tally) × (find_run after page.run_id ≡ some (counted page t r))
unfolding find_run
run_after_commit page s result after h found =
    let c = commit_source_page-Committed page s result after h in
    (
      c.written.tally,
      ap (find_first (run_with page.run_id)) c.written.runs
          ∙ found_written page.run_id (counted page c.written.tally) (λ q. refl) s.runs found,
    )

-- The run is found, it is running, it has seen the given number of records, and it has a
-- checkpoint exactly when a page is committed.
pub record Live (run_id : Uuid) (records : ℕ) (p : Progress) (s : Store) : Type 0 where
  pub row : SourceRun
  pub found : find_run s run_id ≡ some row
  pub live : row.status ≡ SourceRunStatus.running
  pub seen : row.records_seen ≡ records
  pub marked : is_none row.checkpoint_after ≡ nat_beq p.pages_committed 0

pub Live-commit :
    (o : Outside) (w : BillEnumerator) (fresh : Fresh) (run_id : Uuid) (n : ℕ) (p : Progress)
    (s : Store) (x : Examined) (result : BatchPageCommitResult) (after : Store) (records : ℕ)
    → Live run_id records p s
    → (prepared : Prepared o w fresh run_id n p x)
    → commit_source_page x.page s ≡ ok (result, after)
    → Live run_id (records + length prepared.bills) x.next after
Live-commit o w fresh run_id n p s x result after records l prepared h =
    let here = subst (λ (k : Uuid). find_run s k ≡ some l.row) (sym prepared.of_run) l.found in
    let (t, found) = run_after_commit x.page s result after h here in
    let moved = ap (λ (q : Progress). nat_beq q.pages_committed 0) prepared.moves in
    record {
      row = counted x.page t l.row;
      found =
          subst (λ (k : Uuid). find_run after k ≡ some (counted x.page t l.row)) prepared.of_run
            found;
      live = l.live;
      seen = omega (arith, l.seen, prepared.observed);
      marked = sym (moved ∙ ground arith);
    }

-- A run that has just started is live, before any page.
pub Live-start :
    (id : Uuid) (now : Time) (metadata : Metadata) (feeder scope : String) (run : SourceRun)
    (s after : Store) (p : Progress)
    → start_source_run id now metadata feeder scope s ≡ ok (run, after)
    → p.pages_committed ≡ 0
    → Live run.id 0 p after
unfolding start_source_run find_run
Live-start id now metadata feeder scope run s after p h none_yet =
    let b = start_source_run-Started id now metadata feeder scope run s after h in
    record {
      row = run;
      found =
          ap (find_first (run_with run.id)) b.runs
          ∙ found_new run.id s.runs run
              (subst (λ (k : Uuid). any (run_with k) s.runs ≡ false) (sym b.named) b.fresh) refl;
      live = b.live;
      seen = b.uncounted.0;
      marked = ap is_none b.unmarked ∙ sym ((nat_beq_iff p.pages_committed 0).1 none_yet);
    }
