-- ===== src/Workers/BillEnumeration/Keeps.antt =====
-- workers/legislative_activity.py: what holds before every round of the loop holds at its end.
use civic_intel.Prelude.{
  ℕ, zero, suc, ◌+◌, ◌≡◌, refl, inl, inr, Bool, true, false, nat_beq, nat_beq_iff, Bool-cases, ◌!=◌,
  string_eq, bool_eq, nat_eq, option_eq, pair_eq, length, Result, !=_iff, ok, err,
}
use civic_intel.Prelude.Integers.{ℤ, pos, negsuc}
use civic_intel.Domain.Contracts.Base.{Uuid}
use civic_intel.Persistence.Store.{Store, StoreError}
use civic_intel.Persistence.Page.{BatchPageCommitResult, commit_source_page}
use civic_intel.Connectors.Base.{Outside}
use civic_intel.Workers.BillEnumeration.Examine.{Examined, examine}
use civic_intel.Workers.BillEnumeration.Prepared.{Prepared, examine-Prepared}
use civic_intel.Workers.BillEnumeration.Run.{
  Ended, covered, raised, exhausted, check_coverage, next_page, after_commit, round,
  enumerate_pages, enumerate_from,
}
use civic_intel.Workers.BillEnumeration.{EnumerationError, Progress, Fresh, BillEnumerator}

module _ (o : Outside) (w : BillEnumerator) (fresh : Fresh) (run_id : Uuid)
    (I : ℕ → Progress → Store → Type 0) where
  -- The `break`: the last page, the state before it and the one after it.
  pub record Last (p : Progress) (s : Store) : Type 0 where
    pub n : ℕ
    pub before : Progress
    pub x : Examined
    pub prepared : Prepared o w fresh run_id n before x
    pub next : x.next ≡ p
    pub last : n ≡ x.pages
    pub full : length p.seen_hashes ≡ x.total
    pub kept : I (n + 1) p s

  abbrev pub Kept : Ended → Type 0
  Kept (covered p s) = Last p s
  Kept (raised e p s) = (n : ℕ) × I n p s
  Kept exhausted = Unit

  module _
      (step : (n : ℕ) (p : Progress) (s : Store) (x : Examined) (result : BatchPageCommitResult)
          (after : Store)
        → I n p s
        → Prepared o w fresh run_id n p x
        → commit_source_page x.page s ≡ ok (result, after)
        → I (n + 1) x.next after) where
    check_coverage-Kept :
        (n : ℕ) (p : Progress) (s : Store) (x : Examined)
        → Prepared o w fresh run_id n p x
        → n ≡ x.pages
        → I (n + 1) x.next s
        → Kept (check_coverage x s)
    unfolding check_coverage
    check_coverage-Kept n p s x prepared last i =
        elim (Bool-cases (length x.next.seen_hashes != x.total)) [
          | inl e ↦ rw (e, Kept) (n + 1, i)
          | inr e ↦
              rw (e, Kept)
                (record {
                  n = n;
                  before = p;
                  x = x;
                  prepared = prepared;
                  next = refl;
                  last = last;
                  full = (!=_iff _ _).0 e;
                  kept = i;
                })
        ]

    next_page-Kept :
        (go_on : Progress → Store → Ended) (n : ℕ) (p : Progress) (s : Store) (x : Examined)
        (last : Bool)
        → nat_beq n x.pages ≡ last
        → Prepared o w fresh run_id n p x
        → I (n + 1) x.next s
        → ((q : Progress) (z : Store) → I (n + 1) q z → Kept (go_on q z))
        → Kept (next_page go_on x s last)
    unfolding next_page
    next_page-Kept go_on n p s x true e prepared i more =
        check_coverage-Kept n p s x prepared ((nat_beq_iff n x.pages).0 e) i
    next_page-Kept go_on n p s x false e prepared i more = more x.next s i

    after_commit-Kept :
        (go_on : Progress → Store → Ended) (n : ℕ) (p : Progress) (s : Store) (x : Examined)
        (r : Result StoreError (BatchPageCommitResult × Store))
        → commit_source_page x.page s ≡ r
        → Prepared o w fresh run_id n p x
        → I n p s
        → ((q : Progress) (z : Store) → I (n + 1) q z → Kept (go_on q z))
        → Kept (after_commit go_on n p s x r)
    unfolding after_commit
    after_commit-Kept go_on n p s x (err e) h prepared i more = (n, i)
    after_commit-Kept go_on n p s x (ok (result, after)) h prepared i more =
        next_page-Kept go_on n p after x (nat_beq n x.pages) refl prepared
          (step n p s x result after i prepared h) more

    round-Kept :
        (go_on : Progress → Store → Ended) (n : ℕ) (p : Progress) (s : Store)
        (r : Result EnumerationError Examined)
        → examine o w fresh run_id n p ≡ r
        → I n p s
        → ((q : Progress) (z : Store) → I (n + 1) q z → Kept (go_on q z))
        → Kept (round go_on n p s r)
    unfolding round
    round-Kept go_on n p s (err e) h i more = (n, i)
    round-Kept go_on n p s (ok x) h i more =
        after_commit-Kept go_on n p s x (commit_source_page x.page s) refl
          (examine-Prepared o w fresh run_id n p h) i more

    pub enumerate_pages-Kept :
        (fuel n : ℕ) (p : Progress) (s : Store)
        → I n p s
        → Kept (enumerate_pages o w fresh run_id fuel n p s)
    unfolding enumerate_pages
    enumerate_pages-Kept zero n p s i = tt
    enumerate_pages-Kept (suc fuel) n p s i =
        round-Kept (enumerate_pages o w fresh run_id fuel (n + 1)) n p s
          (examine o w fresh run_id n p) refl i (λ q z j. enumerate_pages-Kept fuel (n + 1) q z j)

    pub enumerate_from-Kept :
        (start : ℤ) (p : Progress) (s : Store)
        → ((n : ℕ) → I n p s)
        → Kept (enumerate_from o w fresh run_id start p s)
    unfolding enumerate_from
    enumerate_from-Kept (pos n) p s i = enumerate_pages-Kept (w.max_pages + 1) n p s (i n)
    enumerate_from-Kept (negsuc n) p s i = (0, i 0)
