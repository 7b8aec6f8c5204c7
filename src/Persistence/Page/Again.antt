-- ===== src/Persistence/Page/Again.antt =====
-- packages/persistence/repository.py: a page that is committed again.
use civic_intel.Prelude.{
  ◌+◌, String, ◌≡◌, refl, sym, ap, subst, ◌∙◌, inl, inr, Bool, true, false, ◌&&◌, Option, none,
  some, List, [], ◌∷◌, ◌++◌, arith, Bool-cases, Option-cases, ◌==◌, string_eq, bool_eq, nat_eq,
  ==-refl, option_eq, pair_eq, any, all, find_first, find_last, update_where, any-append, >>=-eq-ok,
  ok,
}
use civic_intel.Domain.Contracts.Base.{Uuid}
use civic_intel.Domain.Contracts.Collection.{SourceRun, FeederObservation}
use civic_intel.Persistence.Store.{Store, find_run, run_with}
use civic_intel.Persistence.Page.{
  counted, Page, Tally, BatchPageCommitResult, same_identity, out_of_scope, settle_observation,
  store_observations, commit_source_page,
}
use civic_intel.Persistence.Page.Written.{commit_source_page-Committed}

abbrev known : SourceRun → List FeederObservation → FeederObservation → Bool
known r rows o = any (same_identity r o) rows

found_last :
    (p : FeederObservation → Bool) (rows : List FeederObservation)
    → any p rows ≡ true
    → (row : FeederObservation) × (find_last p rows ≡ some row)
found_last p [] h = cc
found_last p (x ∷ rows) h = elim (Bool-cases (any p rows)) [
  | inl t ↦ let (row, e) = found_last p rows t in (row, ground (arith, e))
  | inr f ↦ elim (Option-cases (find_last p rows)) [
    | inl e ↦ (x, ground (arith, e, h, f))
    | inr (row, e) ↦ (row, ground (arith, e))
  ]
]

any_of_last :
    (p : FeederObservation → Bool) (rows : List FeederObservation) {row : FeederObservation}
    → find_last p rows ≡ some row
    → any p rows ≡ true
any_of_last p [] h = cc
any_of_last p (x ∷ rows) h = elim (Option-cases (find_last p rows)) [
  | inl e ↦ ground (arith, e, h)
  | inr (row, e) ↦ ground (arith, any_of_last p rows e)
]

-- Where every observation is known, the table stays and nothing is created.
all-known :
    (r : SourceRun) (snapshot_id : Uuid) (os : List FeederObservation) (t : Tally) {after : Tally}
    → all (known r t.rows) os ≡ true
    → store_observations r snapshot_id os t ≡ ok after
    → (after.rows ≡ t.rows) × (after.created ≡ t.created)
unfolding store_observations settle_observation
all-known r snapshot_id [] t k h = (ground (arith, h), ground (arith, h))
all-known r snapshot_id (o ∷ os) t {after} k h =
    let (row, e) = found_last (same_identity r o) t.rows (ground (arith, k)) in
    let next : Tally = record t {
      observation_ids = t.observation_ids ++ row.id ∷ [];
      unchanged = t.unchanged + 1;
    } in
    all-known r snapshot_id os next (ground (arith, k)) (rw e at h)

-- What settles an observation keeps the rows and knows the observation.
settled_known :
    (r : SourceRun) (snapshot_id : Uuid) (o : FeederObservation) (found : Option FeederObservation)
    (t : Tally) {after : Tally}
    → find_last (same_identity r o) t.rows ≡ found
    → out_of_scope r o ≡ false
    → settle_observation snapshot_id o found t ≡ ok after
    → (known r after.rows o ≡ true)
      × ((p : FeederObservation → Bool) → any p t.rows ≡ true → any p after.rows ≡ true)
unfolding settle_observation
settled_known r snapshot_id o none t {after} e scoped h =
    let new = record o { snapshot_id = snapshot_id } in
    let grown : t.rows ++ new ∷ [] ≡ after.rows = ground (arith, h) in
    let here : same_identity r o new ≡ true =
      ground (arith, scoped, ==-refl o.provider_record_key, ==-refl o.content_hash) in
    (
      subst (λ (rows : List FeederObservation). known r rows o ≡ true) grown
          (ground (arith, any-append (same_identity r o) t.rows (new ∷ []), here)),
      λ p k.
          subst (λ (rows : List FeederObservation). any p rows ≡ true) grown
            (ground (arith, any-append p t.rows (new ∷ []), k)),
    )
settled_known r snapshot_id o (some row) t {after} e scoped h =
    let kept : t.rows ≡ after.rows = ground (arith, h) in
    (
      subst (λ (rows : List FeederObservation). known r rows o ≡ true) kept
          (any_of_last (same_identity r o) t.rows e),
      λ p k. subst (λ (rows : List FeederObservation). any p rows ≡ true) kept k,
    )

stored_known :
    (r : SourceRun) (snapshot_id : Uuid) (os : List FeederObservation) (t : Tally) {after : Tally}
    → any (out_of_scope r) os ≡ false
    → store_observations r snapshot_id os t ≡ ok after
    → (all (known r after.rows) os ≡ true)
      × ((p : FeederObservation → Bool) → any p t.rows ≡ true → any p after.rows ≡ true)
unfolding store_observations
stored_known r snapshot_id [] t {after} scoped h =
    let same : t ≡ after = ground (arith, h) in
    (refl, λ p k. subst (λ (z : Tally). any p z.rows ≡ true) same k)
stored_known r snapshot_id (o ∷ os) t {after} scoped h =
    let (next, one, rest) =
      >>=-eq-ok (settle_observation snapshot_id o (find_last (same_identity r o) t.rows) t)
        (store_observations r snapshot_id os) h in
    let first = settled_known r snapshot_id o _ t refl (ground (arith, scoped)) one in
    let later = stored_known r snapshot_id os next (ground (arith, scoped)) rest in
    (ground (arith, later.1 (same_identity r o) first.0, later.0), λ p k. later.1 p (first.1 p k))

abbrev KnownIn : List FeederObservation → List FeederObservation → String → String → Type 0
KnownIn rows os feeder scope =
    all
      (λ (o : FeederObservation).
        any
          (λ (row : FeederObservation).
            row.feeder == feeder
            && (row.scope_key == scope
                && (row.provider_record_key == o.provider_record_key
                    && row.content_hash == o.content_hash)))
          rows)
      os
    ≡ true

all-known_as :
    (r q : SourceRun) (rows os : List FeederObservation)
    → r.feeder ≡ q.feeder
    → r.scope_key ≡ q.scope_key
    → all (known r rows) os ≡ true
    → all (known q rows) os ≡ true
all-known_as r q rows os feeder scope h =
    subst (λ (x : String). KnownIn rows os q.feeder x) scope
      (subst (λ (x : String). KnownIn rows os x r.scope_key) feeder h)

-- The run that a write finds again is the one it wrote.
found_again :
    (id : Uuid) (f : SourceRun → SourceRun)
    → ((r : SourceRun) → (f r).id ≡ r.id)
    → (rs : List SourceRun) {r q : SourceRun} → find_first (run_with id) rs ≡ some r
    → find_first (run_with id) (update_where (run_with id) f rs) ≡ some q
    → f r ≡ q
found_again id f same [] h k = cc
found_again id f same (x ∷ rs) {r} {q} h k = elim (Bool-cases (x.id == id)) [
  | inl t ↦
      let one : x ≡ r = ground (arith, h, t) in
      let two : f x ≡ q = ground (arith, k, t, same x) in ap f (sym one) ∙ two
  | inr t ↦ found_again id f same rs (ground (arith, h, t)) (ground (arith, k, t))
]

-- A page that is committed again, to the store that its first commit left, creates nothing: the
-- second call reports no created observation and leaves the table of observations as it was.
pub commit_again :
    (page : Page) (s after next : Store) (first second : BatchPageCommitResult)
    → commit_source_page page s ≡ ok (first, after)
    → commit_source_page page after ≡ ok (second, next)
    → (second.observations_created ≡ 0) × (next.observations ≡ after.observations)
unfolding find_run
commit_again page s after next first second h k =
    let a = commit_source_page-Committed page s first after h in
    let b = commit_source_page-Committed page after second next k in
    let run : counted page a.written.tally a.run ≡ b.run =
      found_again page.run_id (counted page a.written.tally) (λ r. refl) s.runs a.found
        (ap (find_first (run_with page.run_id)) (sym a.written.runs) ∙ b.found) in
    let stored =
      stored_known a.run a.written.snapshot.id page.observations _ a.scoped a.written.stored in
    let there : all (known a.run after.observations) page.observations ≡ true =
      subst (λ (rows : List FeederObservation). all (known a.run rows) page.observations ≡ true)
        (sym a.written.rows) stored.0 in
    let seen =
      all-known_as a.run b.run after.observations page.observations
        (ap (λ (r : SourceRun). r.feeder) run) (ap (λ (r : SourceRun). r.scope_key) run) there in
    let kept = all-known b.run b.written.snapshot.id page.observations _ seen b.written.stored in
    (
      ap (λ (z : BatchPageCommitResult). z.observations_created) b.written.results ∙ kept.1,
      b.written.rows ∙ kept.0,
    )
