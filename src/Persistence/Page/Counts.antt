-- ===== src/Persistence/Page/Counts.antt =====
-- packages/persistence/repository.py: what a page's loop over its observations leaves.
use civic_intel.Prelude.{
  ℕ, ◌+◌, ◌≡◌, sym, subst, inl, inr, Option, none, some, List, [], ◌∷◌, ◌++◌, arith, Bool-cases,
  ◌==◌, nat_eq, string_eq, bool_eq, option_eq, pair_eq, length, any, find_last, length-append,
  >>=-eq-ok, ok,
}
use civic_intel.Domain.Contracts.Base.{Uuid}
use civic_intel.Domain.Contracts.Collection.{SourceRun, FeederObservation}
use civic_intel.Persistence.Store.{Store}
use civic_intel.Persistence.Page.Written.{commit_source_page-Committed}
use civic_intel.Persistence.Page.{
  Page, BatchPageCommitResult, commit_source_page, page_result, Tally, same_identity,
  settle_observation, store_observations,
}

-- One observation is counted once, and has one identifier.
pub record Advanced (n : ℕ) (before after : Tally) : Type 0 where
  pub counts : (after.created + after.unchanged) ≡ (before.created + before.unchanged + n)
  pub identifiers : length after.observation_ids ≡ length before.observation_ids + n
  pub table : length after.rows + before.created ≡ length before.rows + after.created

settle_observation-Advanced :
    (snapshot_id : Uuid) (o : FeederObservation) (found : Option FeederObservation) (t : Tally)
    {after : Tally}
    → settle_observation snapshot_id o found t ≡ ok after
    → Advanced 1 t after
unfolding settle_observation
settle_observation-Advanced snapshot_id o none t {after} h =
    let step : Tally = record t {
      rows = t.rows ++ record o { snapshot_id = snapshot_id } ∷ [];
      observation_ids = t.observation_ids ++ o.id ∷ [];
      created = t.created + 1;
    } in
    elim (Bool-cases (any (λ (q : FeederObservation). q.id == o.id) t.rows)) [
      | inl taken ↦ ground (arith, taken, h)
      | inr free ↦
          let same : step ≡ after = ground (arith, h, free) in
          subst (λ (z : Tally). Advanced 1 t z) same
            (record {
              counts = omega arith;
              identifiers = ground (arith, length-append t.observation_ids (o.id ∷ []));
              table =
                  ground
                    (arith, length-append t.rows (record o { snapshot_id = snapshot_id } ∷ []));
            })
    ]
settle_observation-Advanced snapshot_id o (some row) t {after} h =
    let same : record t {
      observation_ids = t.observation_ids ++ row.id ∷ [];
      unchanged = t.unchanged + 1;
    }
        ≡ after =
      ground (arith, h) in
    subst (λ (z : Tally). Advanced 1 t z) same
      (record {
        counts = omega arith;
        identifiers = ground (arith, length-append t.observation_ids (row.id ∷ []));
        table = omega arith;
      })

pub store_observations-Advanced :
    (r : SourceRun) (snapshot_id : Uuid) (os : List FeederObservation) (t : Tally) {after : Tally}
    → store_observations r snapshot_id os t ≡ ok after
    → Advanced (length os) t after
unfolding store_observations
store_observations-Advanced r snapshot_id [] t {after} h =
    let same : t ≡ after = ground (arith, h) in
    subst (λ (z : Tally). Advanced 0 t z) same
      (record { counts = omega arith; identifiers = omega arith; table = omega arith })
store_observations-Advanced r snapshot_id (o ∷ os) t h =
    let (next, one, rest) =
      >>=-eq-ok (settle_observation snapshot_id o (find_last (same_identity r o) t.rows) t)
        (store_observations r snapshot_id os) h in
    let a = settle_observation-Advanced snapshot_id o _ t one in
    let b = store_observations-Advanced r snapshot_id os next rest in
    record {
      counts = omega (arith, a.counts, b.counts);
      identifiers = omega (arith, a.identifiers, b.identifiers);
      table = omega (arith, a.table, b.table);
    }

-- A page that is committed reports each of its observations once: it counts every one as created or
-- as unchanged, returns one identifier for each, and the table of observations grows by exactly
-- the number it reports as created.
pub commit_counts :
    (page : Page) (s : Store) (result : BatchPageCommitResult) (after : Store)
    → commit_source_page page s ≡ ok (result, after)
    → ((result.observations_created + result.observations_unchanged) ≡ length page.observations)
      × (length result.observation_ids ≡ length page.observations)
      × (length after.observations ≡ length s.observations + result.observations_created)
commit_counts page s result after h =
    let c = commit_source_page-Committed page s result after h in
    let w = c.written in
    let a = store_observations-Advanced c.run w.snapshot.id page.observations _ w.stored in
    let reports = λ (z : BatchPageCommitResult) (rows : List FeederObservation).
      ((z.observations_created + z.observations_unchanged) ≡ length page.observations)
      × (length z.observation_ids ≡ length page.observations)
      × (length rows ≡ length s.observations + z.observations_created) in
    subst (λ (z : BatchPageCommitResult). reports z after.observations) (sym w.results)
      (subst (reports (page_result w.snapshot w.tally)) (sym w.rows)
        (omega (arith, a.counts), omega (arith, a.identifiers), omega (arith, a.table)))
