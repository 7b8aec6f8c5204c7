-- ===== src/Persistence/History/Frozen.antt =====
-- packages/persistence/repository.py: a run that is finished, in whatever order the calls come.
use civic_intel.Prelude.{
  ◌≡◌, refl, sym, ap, subst, ◌∙◌, ◌≢◌, inl, inr, Bool, false, some, List, [], ◌∷◌, ◌++◌, arith,
  if◌then◌else◌, Bool-cases, ◌==◌, nat_eq, string_eq, bool_eq, option_eq, pair_eq, find_first,
  update_where,
}
use civic_intel.Domain.Enums.{SourceRunStatus, source_run_status_eq}
use civic_intel.Prelude.Texts.{Unicode}
use civic_intel.Domain.Contracts.Base.{Uuid}
use civic_intel.Domain.Contracts.Collection.{SourceRun}
use civic_intel.Persistence.Store.{Store, run_with, finished, find_run}
use civic_intel.Persistence.Page.{counted}
use civic_intel.Persistence.Page.Written.{commit_source_page-Committed}
use civic_intel.Persistence.History.{
  Step, Reach, starts, finishes, commits, here, then_step, start_source_run-Started,
  finish_source_run-Finished,
}

found_append :
    (p : SourceRun → Bool) (rs : List SourceRun) (q : SourceRun) {r : SourceRun}
    → find_first p rs ≡ some r
    → find_first p (rs ++ q ∷ []) ≡ some r
found_append p [] q h = cc
found_append p (x ∷ rs) q {r} h = elim (Bool-cases (p x)) [
  | inl t ↦ ground (arith, h, t)
  | inr t ↦
      let rest : find_first p rs ≡ some r = ground (arith, h, t) in
      ground (arith, t, found_append p rs q rest)
]

-- A write to another run leaves this one.
found_update :
    (id k : Uuid) (f : SourceRun → SourceRun)
    → ((r : SourceRun) → (f r).id ≡ r.id)
    → id ≢ k
    → (rs : List SourceRun) {r : SourceRun} → find_first (run_with id) rs ≡ some r
    → find_first (run_with id) (update_where (run_with k) f rs) ≡ some r
found_update id k f same other [] h = cc
found_update id k f same other (x ∷ rs) {r} h = elim (Bool-cases (x.id == id)) [
  | inl t ↦ let kept : (x.id == k) ≡ false = ground (arith, t, other) in ground (arith, h, t, kept)
  | inr t ↦
      let rest : find_first (run_with id) rs ≡ some r = ground (arith, h, t) in
      let later = found_update id k f same other rs rest in
      let passed : ((if x.id == k then f x else x).id == id) ≡ false =
        elim (Bool-cases (x.id == k)) [
          | inl e ↦ ground (arith, e, t, same x)
          | inr e ↦ ground (arith, e, t)
        ] in
      ground (arith, passed, later)
]

-- The run that a write found while it was running is not one that is finished.
another :
    (s : Store) (id k : Uuid) {r q : SourceRun}
    → find_run s id ≡ some r
    → r.status ≢ SourceRunStatus.running
    → find_run s k ≡ some q
    → q.status ≡ SourceRunStatus.running
    → id ≢ k
another s id k {r} {q} mine over theirs live same =
    let one : find_run s id ≡ some q =
      subst (λ (x : Uuid). find_run s x ≡ some q) (sym same) theirs in
    let equal : r ≡ q = ground (arith, mine, one) in
    over (ap (λ (z : SourceRun). z.status) equal ∙ live)

pub Step-frozen :
    (u : Unicode) {s after : Store} (id : Uuid) (r : SourceRun)
    → Step u s after
    → find_run s id ≡ some r
    → r.status ≢ SourceRunStatus.running
    → find_run after id ≡ some r
unfolding find_run
Step-frozen u id r (starts k now metadata feeder scope run s after h) mine over =
    let c = start_source_run-Started k now metadata feeder scope run s after h in
    ap (find_first (run_with id)) c.runs ∙ found_append (run_with id) s.runs run mine
Step-frozen u id r (finishes now k status code summary run s after h) mine over =
    let c = finish_source_run-Finished u now k status code summary run s after h in
    ap (find_first (run_with id)) c.runs
    ∙ found_update id k (finished status now code summary) (λ q. refl)
        (another s id k mine over c.found c.was_live) s.runs mine
Step-frozen u id r (commits page result s after h) mine over =
    let c = commit_source_page-Committed page s result after h in
    ap (find_first (run_with id)) c.written.runs
    ∙ found_update id page.run_id (counted page c.written.tally) (λ q. refl)
        (another s id page.run_id mine over c.found c.live) s.runs mine

-- Once a run is found that is not running, every later store, after whatever calls that start,
-- finish or commit a page to a run, has the same row for it: its status, its counts, its checkpoint
-- and its error never change again.
pub Reach-frozen :
    (u : Unicode) {s after : Store} (id : Uuid) (r : SourceRun)
    → Reach u s after
    → find_run s id ≡ some r
    → r.status ≢ SourceRunStatus.running
    → find_run after id ≡ some r
Reach-frozen u id r here mine over = mine
Reach-frozen u id r (then_step mid after before step) mine over =
    Step-frozen u id r step (Reach-frozen u id r before mine over) over
