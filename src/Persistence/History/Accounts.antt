-- ===== src/Persistence/History/Accounts.antt =====
-- packages/persistence/repository.py: the counts of the runs, in whatever order the calls come.
use civic_intel.Prelude.{
  ℕ, ◌+◌, String, ◌≡◌, refl, sym, ap, subst, ◌∙◌, inl, inr, Bool, true, false, Option, some, List,
  [], ◌∷◌, ◌++◌, arith, if◌then◌else◌, Bool-cases, ◌==◌, nat_eq, string_eq, bool_eq, eq_of_==,
  ==-comm, option_eq, pair_eq, length, any, find_first, update_where, any-append, All,
}
use civic_intel.Domain.Enums.{SourceRunStatus, source_run_status_eq}
use civic_intel.Prelude.Texts.{Unicode}
use civic_intel.Domain.Contracts.Base.{Uuid, Time}
use civic_intel.Domain.Contracts.Collection.{SourceRun}
use civic_intel.Persistence.Store.{Store, run_with, finished, find_run}
use civic_intel.Persistence.Page.{Page, Tally, counted}
use civic_intel.Persistence.Page.Counts.{store_observations-Advanced}
use civic_intel.Persistence.Page.Written.{commit_source_page-Committed}
use civic_intel.Persistence.History.{
  Step, Reach, starts, finishes, commits, here, then_step, start_source_run-Started,
  finish_source_run-Finished,
}

-- What a run has seen is what it created and what it found unchanged.
pub record RunBalances (r : SourceRun) : Type 0 where
  pub balance : r.records_seen ≡ r.observations_created + r.observations_unchanged

abbrev pub created_by : List SourceRun → ℕ
created_by [] = 0
created_by (r ∷ rs) = r.observations_created + created_by rs

abbrev pub Distinct : List SourceRun → Type 0
Distinct [] = Unit
Distinct (r ∷ rs) = (any (run_with r.id) rs ≡ false) × Distinct rs

pub record Accounted (s : Store) : Type 0 where
  pub balances : All RunBalances s.runs
  pub distinct : Distinct s.runs
  pub total : created_by s.runs ≡ length s.observations

all_append :
    (P : SourceRun → Type 0) (rs : List SourceRun) (r : SourceRun)
    → All P rs
    → P r
    → All P (rs ++ r ∷ [])
all_append P [] r h p = (p, tt)
all_append P (q ∷ rs) r h p = (h.0, all_append P rs r h.1 p)

Distinct-append :
    (rs : List SourceRun) (r : SourceRun)
    → any (run_with r.id) rs ≡ false
    → Distinct rs
    → Distinct (rs ++ r ∷ [])
Distinct-append [] r free d = (refl, tt)
Distinct-append (q ∷ rs) r free d = (
  ground (arith, any-append (run_with q.id) rs (r ∷ []), ==-comm q.id r.id, d.0),
  Distinct-append rs r (ground (arith, free)) d.1,
)

created_append :
    (rs : List SourceRun) (r : SourceRun)
    → created_by (rs ++ r ∷ []) ≡ created_by rs + r.observations_created
created_append [] r = omega arith
created_append (q ∷ rs) r = omega (arith, created_append rs r)

-- Runs that are written anew and keep their identifiers.
module _ (id : Uuid) (f : SourceRun → SourceRun) (same : (r : SourceRun) → (f r).id ≡ r.id) where
  kept_id : (test : Bool) (r : SourceRun) → (if test then f r else r).id ≡ r.id
  kept_id true r = same r
  kept_id false r = refl

  kept_balance :
      ((r : SourceRun) → RunBalances r → RunBalances (f r))
      → (test : Bool) (r : SourceRun) → RunBalances r
      → RunBalances (if test then f r else r)
  kept_balance keeps true r h = keeps r h
  kept_balance keeps false r h = h

  any-update :
      (k : Uuid) (rs : List SourceRun)
      → any (run_with k) (update_where (run_with id) f rs) ≡ any (run_with k) rs
  any-update k [] = refl
  any-update k (r ∷ rs) = simp (kept_id (r.id == id) r, any-update k rs)

  Distinct-update : (rs : List SourceRun) → Distinct rs → Distinct (update_where (run_with id) f rs)
  Distinct-update [] d = tt
  Distinct-update (r ∷ rs) d = (
    subst (λ (x : Uuid). any (run_with x) (update_where (run_with id) f rs) ≡ false)
        (sym (kept_id (r.id == id) r)) (any-update r.id rs ∙ d.0),
    Distinct-update rs d.1,
  )

  balances_update :
      ((r : SourceRun) → RunBalances r → RunBalances (f r))
      → (rs : List SourceRun) → All RunBalances rs
      → All RunBalances (update_where (run_with id) f rs)
  balances_update keeps [] h = tt
  balances_update keeps (r ∷ rs) h =
      (kept_balance keeps (r.id == id) r h.0, balances_update keeps rs h.1)

  created_absent :
      (rs : List SourceRun)
      → any (run_with id) rs ≡ false
      → created_by (update_where (run_with id) f rs) ≡ created_by rs
  created_absent [] h = refl
  created_absent (r ∷ rs) h = ground (arith, h, created_absent rs)

  created_update :
      (n : ℕ)
      → ((r : SourceRun) → (f r).observations_created ≡ r.observations_created + n)
      → (rs : List SourceRun) → Distinct rs
      → any (run_with id) rs ≡ true
      → created_by (update_where (run_with id) f rs) ≡ created_by rs + n
  created_update n adds [] d h = cc
  created_update n adds (r ∷ rs) d h = elim (Bool-cases (r.id == id)) [
    | inl t ↦
        let alone : any (run_with id) rs ≡ false =
          subst (λ (x : Uuid). any (run_with x) rs ≡ false) (eq_of_== r.id id t) d.0 in
        ground (arith, t, adds r, created_absent rs alone)
    | inr t ↦ ground (arith, t, h, created_update n adds rs d.1)
  ]

any_of_found :
    (p : SourceRun → Bool) (rs : List SourceRun) (r : SourceRun)
    → find_first p rs ≡ some r
    → any p rs ≡ true
any_of_found p [] r h = cc
any_of_found p (q ∷ rs) r h = ground (arith, h, any_of_found p rs r)

record Rows (rs : List SourceRun) (n : ℕ) : Type 0 where
  balances : All RunBalances rs
  distinct : Distinct rs
  total : created_by rs ≡ n

start-Rows :
    (rs : List SourceRun) (n : ℕ) (r : SourceRun)
    → any (run_with r.id) rs ≡ false
    → (r.records_seen ≡ 0) × (r.observations_created ≡ 0) × (r.observations_unchanged ≡ 0)
    → Rows rs n
    → Rows (rs ++ r ∷ []) n
start-Rows rs n r free none_yet a = record {
  balances =
      all_append RunBalances rs r a.balances
        (record { balance = omega (arith, none_yet.0, none_yet.1, none_yet.2) });
  distinct = Distinct-append rs r free a.distinct;
  total = omega (arith, created_append rs r, none_yet.1, a.total);
}

finish-Rows :
    (rs : List SourceRun) (n : ℕ) (id : Uuid) (status : SourceRunStatus) (now : Time)
    (code summary : Option String)
    → any (run_with id) rs ≡ true
    → Rows rs n
    → Rows (update_where (run_with id) (finished status now code summary) rs) n
finish-Rows rs n id status now code summary there a =
    let f = finished status now code summary in
    record {
      balances =
          balances_update id f (λ r. refl) (λ r h. record { balance = h.balance }) rs a.balances;
      distinct = Distinct-update id f (λ r. refl) rs a.distinct;
      total = omega (
        arith,
        created_update id f (λ r. refl) 0 (λ r. omega arith) rs a.distinct there,
        a.total,
      );
    }

commit-Rows :
    (rs : List SourceRun) (n m : ℕ) (page : Page) (t : Tally)
    → any (run_with page.run_id) rs ≡ true
    → t.created + t.unchanged ≡ length page.observations
    → m ≡ n + t.created
    → Rows rs n
    → Rows (update_where (run_with page.run_id) (counted page t) rs) m
commit-Rows rs n m page t there seen grown a =
    let f = counted page t in
    record {
      balances =
          balances_update page.run_id f (λ r. refl)
            (λ r h. record { balance = omega (arith, h.balance, seen) }) rs a.balances;
      distinct = Distinct-update page.run_id f (λ r. refl) rs a.distinct;
      total = omega (
        arith,
        created_update page.run_id f (λ r. refl) t.created (λ r. refl) rs a.distinct there,
        a.total,
        grown,
      );
    }

of_store : (s : Store) → Accounted s → Rows s.runs (length s.observations)
of_store s a = record { balances = a.balances; distinct = a.distinct; total = a.total }

to_store :
    (s : Store) (rs : List SourceRun) (n : ℕ)
    → s.runs ≡ rs
    → length s.observations ≡ n
    → Rows rs n
    → Accounted s
to_store s rs n same size a = record {
  balances = subst (All RunBalances) (sym same) a.balances;
  distinct = subst Distinct (sym same) a.distinct;
  total = ap created_by same ∙ a.total ∙ sym size;
}

-- Every call that returns keeps the accounts.
pub Step-Accounted :
    (u : Unicode) {s after : Store} → Step u s after → Accounted s → Accounted after
unfolding find_run
Step-Accounted u (starts id now metadata feeder scope run s after h) a =
    let c = start_source_run-Started id now metadata feeder scope run s after h in
    let free : any (run_with run.id) s.runs ≡ false =
      subst (λ (x : Uuid). any (run_with x) s.runs ≡ false) (sym c.named) c.fresh in
    to_store after _ _ c.runs (ap length c.observations)
      (start-Rows s.runs _ run free c.uncounted (of_store s a))
Step-Accounted u (finishes now id status code summary run s after h) a =
    let c = finish_source_run-Finished u now id status code summary run s after h in
    to_store after _ _ c.runs (ap length c.observations) (
      finish-Rows s.runs _ id status now code summary
        (any_of_found (run_with id) s.runs c.before c.found) (of_store s a))
Step-Accounted u (commits page result s after h) a =
    let c = commit_source_page-Committed page s result after h in
    let w = c.written in
    let n = store_observations-Advanced c.run w.snapshot.id page.observations _ w.stored in
    to_store after _ _ w.runs (ap length w.rows) (
      commit-Rows s.runs _ _ page w.tally (any_of_found (run_with page.run_id) s.runs c.run c.found)
        (omega (arith, n.counts)) (omega (arith, n.table)) (of_store s a))

-- From a store whose runs account for its observations, no sequence of calls that start, finish or
-- commit a page to a run leads to one whose runs do not: in each run what was seen is what was
-- created plus what was unchanged, run identifiers stay distinct, and the runs together created
-- exactly as many observations as the table holds.
pub Reach-Accounted :
    (u : Unicode) {s after : Store} → Reach u s after → Accounted s → Accounted after
Reach-Accounted u here a = a
Reach-Accounted u (then_step mid after r step) a = Step-Accounted u step (Reach-Accounted u r a)
