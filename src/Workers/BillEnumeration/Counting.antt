-- ===== src/Workers/BillEnumeration/Counting.antt =====
-- workers/legislative_activity.py: the counts that the rounds of an enumeration keep.
use civic_intel.Prelude.{
  ℕ, ◌+◌, ◌-◌, ◌*◌, ◌≡◌, sym, ap, subst, ◌∙◌, ◌⊎◌, inl, inr, false, Option, none, some, arith,
  nat_beq_iff, string_eq, bool_eq, nat_eq, option_eq, pair_eq, length, ok,
}
use civic_intel.Prelude.Integers.{ℤ, pos, int_eq}
use civic_intel.Domain.Contracts.Base.{Uuid}
use civic_intel.Persistence.Store.{Store}
use civic_intel.Persistence.Page.{BatchPageCommitResult, commit_source_page}
use civic_intel.Connectors.Base.{Outside}
use civic_intel.Workers.BillEnumeration.Announced.{differs}
use civic_intel.Workers.BillEnumeration.Examine.{Examined, min}
use civic_intel.Workers.BillEnumeration.Prepared.{Prepared}
use civic_intel.Workers.BillEnumeration.Amounts.{unseen_page-length, rows_fill}
use civic_intel.Workers.BillEnumeration.Live.{Live, Live-commit}
use civic_intel.Workers.BillEnumeration.{Progress, Fresh, BillEnumerator}

-- The expected counts are not set before the first page. After it the bills that were seen are as
-- many as the pages so far can hold of the total.
abbrev pub Amount : ℕ → ℕ → Progress → Type 0
Amount size n p =
    ((n ≡ 1) × (p.expected ≡ none) × (length p.seen_hashes ≡ 0))
    ⊎ ((total : ℕ) × (pages : ℕ) × (p.expected ≡ some (pos total, pos pages))
        × (length p.seen_hashes ≡ min total ((n - 1) * size)))

-- What holds before the round of page `n`.
pub record Counts (size : ℕ) (run_id : Uuid) (n : ℕ) (p : Progress) (s : Store) : Type 0 where
  pub live : Live run_id (length p.seen_hashes) p s
  pub committed : p.pages_committed + 1 ≡ n
  pub amount : Amount size n p

same_total : (t k total pages : ℕ) → differs (some (pos t, pos k)) total pages ≡ false → t ≡ total
same_total t k total pages h = (nat_beq_iff t total).0 (ground (arith, h))

filled_before :
    (size n total pages : ℕ) (p : Progress)
    → Amount size n p
    → differs p.expected total pages ≡ false
    → length p.seen_hashes ≡ min total ((n - 1) * size)
filled_before size n total pages p (inl (first, unset, empty)) h = rw first (ground (arith, empty))
filled_before size n total pages p (inr (t, k, set, size_now)) h =
    let agrees = subst (λ (e : Option (ℤ × ℤ)). differs e total pages ≡ false) set h in
    size_now ∙ ap (λ z. min z ((n - 1) * size)) (same_total t k total pages agrees)

module _ (o : Outside) (w : BillEnumerator) (fresh : Fresh) (run_id : Uuid) where
  pub Counts-commit :
      (n : ℕ) (p : Progress) (s : Store) (x : Examined) (result : BatchPageCommitResult)
      (after : Store)
      → Counts w.connector.page_size run_id n p s
      → Prepared o w fresh run_id n p x
      → commit_source_page x.page s ≡ ok (result, after)
      → Counts w.connector.page_size run_id (n + 1) x.next after
  Counts-commit n p s x result after c prepared h =
      let size = w.connector.page_size in
      let a = prepared.announces in
      let added =
        unseen_page-length o w.connector.assembly_age prepared.bills prepared.hashed p.seen_hashes
          p.page_fingerprints prepared.hashing prepared.new in
      let grown : length x.next.seen_hashes ≡ length p.seen_hashes + length prepared.bills =
        ap (λ (q : Progress). length q.seen_hashes) prepared.moves ∙ added in
      let before = filled_before size n x.total x.pages p c.amount a.agrees_before in
      let full = rows_fill size x.total n (length p.seen_hashes) prepared.bounded.page before in
      record {
        live =
            subst (λ (k : ℕ). Live run_id k x.next after) (sym grown)
              (Live-commit o w fresh run_id n p s x result after (length p.seen_hashes) c.live
                prepared h);
        committed =
            omega (arith, ap (λ (q : Progress). q.pages_committed) prepared.moves, c.committed);
        amount = inr (
          x.total,
          x.pages,
          ap (λ (q : Progress). q.expected) prepared.moves,
          grown
              ∙ ap (λ k. length p.seen_hashes + k) prepared.rows
              ∙ full
              ∙ ap (λ k. min x.total (k * size)) (omega arith),
        );
      }
