-- ===== src/Persistence/Page/Written.antt =====
-- packages/persistence/repository.py: what a page that is committed leaves in the tables.
use civic_intel.Prelude.{
  ◌≡◌, sym, ap, subst, inl, inr, false, Option, none, some, arith, Bool-cases, ◌==◌, ◌!=◌,
  string_eq, bool_eq, nat_eq, eq_of_==, option_eq, pair_eq, list_eq, any, update_where, >>=-eq-ok,
  ok-injective, past, Result-cases, ok,
}
use civic_intel.Domain.Enums.{SourceRunStatus, source_run_status_eq}
use civic_intel.Domain.Contracts.Evidence.{SourceSnapshot}
use civic_intel.Domain.Contracts.Collection.{SourceRun}
use civic_intel.Persistence.Store.{Store, find_run, run_with}
use civic_intel.Persistence.Page.{
  Page, Tally, BatchPageCommitResult, observations_match, running, store_policy, store_source,
  store_snapshot, store_observations, commit_source_page, write_page, store_checkpoint,
  checkpoint_refused, counted, page_result, untallied, out_of_scope,
}

pub record Written (page : Page) (r : SourceRun) (s : Store) (result : BatchPageCommitResult)
    (after : Store) : Type 0 where
  pub snapshot : SourceSnapshot
  pub tally : Tally
  pub stored :
      store_observations r snapshot.id page.observations (untallied s.observations) ≡ ok tally
  pub results : result ≡ page_result snapshot tally
  pub rows : after.observations ≡ tally.rows
  pub checkpoint : after.checkpoints ≡ store_checkpoint page r s.checkpoints
  pub runs : after.runs ≡ update_where (run_with page.run_id) (counted page tally) s.runs

pub write_page-Written :
    (page : Page) (r : SourceRun) (s : Store) (result : BatchPageCommitResult) (after : Store)
    → write_page page r s ≡ ok (result, after)
    → Written page r s result after
unfolding write_page
write_page-Written page r s result after h =
    let (policies, e1, h1) =
      >>=-eq-ok (store_policy page.require_stored_policy_match page.policy s.policies) _ h in
    let (source, e2, h2) = >>=-eq-ok (store_source page.policy page.source s.sources) _ h1 in
    let (snapshot, e3, h3) = >>=-eq-ok (store_snapshot source.0 page.snapshot s.snapshots) _ h2 in
    let (tally, e4, h4) =
      >>=-eq-ok (store_observations r snapshot.0.id page.observations (untallied s.observations)) _
        h3 in
    let (free, h5) = past (checkpoint_refused page r s.checkpoints) _ h4 in
    let written = ok-injective h5 in
    record {
      snapshot = snapshot.0;
      tally = tally;
      stored = e4;
      results = sym (ap (λ (z : BatchPageCommitResult × Store). z.0) written);
      rows = sym (ap (λ (z : BatchPageCommitResult × Store). z.1.observations) written);
      checkpoint = sym (ap (λ (z : BatchPageCommitResult × Store). z.1.checkpoints) written);
      runs = sym (ap (λ (z : BatchPageCommitResult × Store). z.1.runs) written);
    }

-- A page is committed only for a run that exists and is running, and only with observations of
-- its scope.
pub record Committed (page : Page) (s : Store) (result : BatchPageCommitResult) (after : Store)
    : Type 0 where
  pub run : SourceRun
  pub found : find_run s page.run_id ≡ some run
  pub live : run.status ≡ SourceRunStatus.running
  pub scoped : any (out_of_scope run) page.observations ≡ false
  pub written : Written page run s result after

running-live :
    (found : Option SourceRun) {r : SourceRun}
    → running found ≡ ok r
    → (found ≡ some r) × (r.status ≡ SourceRunStatus.running)
unfolding running
running-live none h = absurd (ground (arith, h))
running-live (some q) {r} h = elim (Bool-cases (q.status == SourceRunStatus.running)) [
  | inl t ↦
      let same : q ≡ r = ground (arith, h, t) in
      (
        ap some same,
        subst (λ (z : SourceRun). z.status ≡ SourceRunStatus.running) same (eq_of_== _ _ t),
      )
  | inr f ↦ absurd (ground (arith, h, f))
]

pub commit_source_page-Committed :
    (page : Page) (s : Store) (result : BatchPageCommitResult) (after : Store)
    → commit_source_page page s ≡ ok (result, after)
    → Committed page s result after
unfolding commit_source_page
commit_source_page-Committed page s result after h =
    elim (Bool-cases (page.source.policy_id != page.policy.id)) [
      | inl t ↦ absurd (ground (arith, h, t))
      | inr t1 ↦ elim (Bool-cases (page.snapshot.source_id != page.source.id)) [
        | inl t ↦ absurd (ground (arith, h, t1, t))
        | inr t2 ↦
            elim (Result-cases
              (observations_match page.run_id page.snapshot.id page.observations)) [
                | inr (e, bad) ↦ absurd (ground (arith, h, t1, t2, bad))
                | inl (u, t3) ↦ elim (Result-cases (running (find_run s page.run_id))) [
                  | inr (e, bad) ↦ absurd (ground (arith, h, t1, t2, t3, bad))
                  | inl (r, t4) ↦ elim (Bool-cases (any (out_of_scope r) page.observations)) [
                    | inl t ↦ absurd (ground (arith, h, t1, t2, t3, t4, t))
                    | inr t5 ↦
                        let (found, live) = running-live (find_run s page.run_id) t4 in
                        record {
                          run = r;
                          found = found;
                          live = live;
                          scoped = t5;
                          written =
                              write_page-Written page r s result after
                                (ground (arith, h, t1, t2, t3, t4, t5));
                        }
                  ]
                ]
              ]
      ]
    ]
