-- ===== src/Workers/BillEnumeration/Amounts.antt =====
-- workers/legislative_activity.py: how many bills the pages bring.
use civic_intel.Prelude.{
  ℕ, zero, suc, ◌+◌, ◌-◌, ◌*◌, ◌≤◌, String, ◌≡◌, refl, sym, ap, subst, ◌∙◌, inl, inr, Option, none,
  some, List, [], ◌∷◌, arith, Bool-cases, ◌==◌, ◌!=◌, string_eq, bool_eq, nat_eq, ==-comm,
  option_eq, pair_eq, length, any, >>=-eq-ok, ok-injective, past, ok,
}
use civic_intel.Prelude.Dict.{Dict, lookup, insert, lookup-insert}
use civic_intel.Prelude.Integers.{pos, int_eq}
use civic_intel.Domain.Contracts.Base.{Json, text}
use civic_intel.Connectors.Base.{Outside}
use civic_intel.Connectors.AssemblyBills.{AssemblyBillRecord}
use civic_intel.Workers.BillEnumeration.Bills.{normalized_assembly_bill, assembly_bill_content_hash}
use civic_intel.Workers.BillEnumeration.Examine.{min, expected_row_count}
use civic_intel.Workers.BillEnumeration.Hashes.{
  Hashed, hash_bills, not_on_page, not_seen, none_seen, merged, unseen_page, page_fingerprint,
  is_text,
}

-- No key is there twice.
abbrev pub Keyed : {V : Type 0} → Dict String V → Type 0
Keyed [] = Unit
Keyed ((k, v) ∷ d) = (lookup k d ≡ none) × Keyed d

module _ {V : Type 0} where
  pub length-insert :
      (k : String) (v : V) (d : Dict String V)
      → lookup k d ≡ none
      → length (insert k v d) ≡ length d + 1
  length-insert k v [] h = refl
  length-insert k v ((j, w) ∷ d) h = ground (arith, h, length-insert k v d)

  pub Keyed-insert : (k : String) (v : V) (d : Dict String V) → Keyed d → Keyed (insert k v d)
  Keyed-insert k v [] h = (refl, tt)
  Keyed-insert k v ((j, w) ∷ d) h = elim (Bool-cases (j == k)) [
    | inl e ↦ rw e h
    | inr e ↦
        rw e (ground (arith, lookup-insert k j v d, ==-comm j k, e, h.0), Keyed-insert k v d h.1)
  ]

-- The digests of a page have one entry for each of its bills.
pub hash_bills-length :
    (o : Outside) (age : ℕ) (bills : List AssemblyBillRecord) (h : Hashed) {after : Hashed}
    → hash_bills o age bills h ≡ ok after
    → Keyed h.hashes
    → (length after.hashes ≡ length h.hashes + length bills) × Keyed after.hashes
unfolding hash_bills
hash_bills-length o age [] h {after} e keyed =
    subst (λ (z : Hashed). (length z.hashes ≡ length h.hashes + 0) × Keyed z.hashes)
      (ok-injective e) (omega arith, keyed)
hash_bills-length o age (b ∷ bills) h e keyed =
    let (e1, h1) = past (b.assembly_age != pos age) _ e in
    let (normalized, e2, h2) = >>=-eq-ok (normalized_assembly_bill o b) _ h1 in
    let digest = assembly_bill_content_hash o normalized in
    let (u, e3, h3) = >>=-eq-ok (not_on_page (lookup b.bill_id h.hashes) digest) _ h2 in
    let new = new_on_page (lookup b.bill_id h.hashes) digest e3 in
    let (size, keyed_after) =
      hash_bills-length o age bills _ h3 (Keyed-insert b.bill_id digest h.hashes keyed) in
    (omega (arith, size, length-insert b.bill_id digest h.hashes new), keyed_after)
  where
    new_on_page :
        (found : Option String) (digest : String) {u : Unit {0}}
        → not_on_page found digest ≡ ok u
        → found ≡ none
    new_on_page none digest q = refl
    new_on_page (some earlier) digest q = cc

new_to_seen :
    (found : Option Json) (digest : String) {u : Unit {0}}
    → not_seen found digest ≡ ok u
    → found ≡ none
new_to_seen none digest q = refl
new_to_seen (some earlier) digest q = cc

-- Bills that no earlier page had add up.
AreNew : Dict String Json → Dict String String → Type 0
AreNew seen [] = Unit
AreNew seen ((k, v) ∷ d) = (lookup k seen ≡ none) × AreNew seen d

none_seen-AreNew :
    (seen : Dict String Json) (d : Dict String String) {u : Unit {0}}
    → none_seen seen d ≡ ok u
    → AreNew seen d
unfolding none_seen AreNew
none_seen-AreNew seen [] h = tt
none_seen-AreNew seen ((k, v) ∷ d) h =
    let (u, e1, h1) = >>=-eq-ok (not_seen (lookup k seen) v) _ h in
    (new_to_seen (lookup k seen) v e1, none_seen-AreNew seen d h1)

AreNew-insert :
    (k : String) (v : Json) (seen : Dict String Json) (d : Dict String String)
    → lookup k d ≡ none
    → AreNew seen d
    → AreNew (insert k v seen) d
unfolding AreNew
AreNew-insert k v seen [] h a = tt
AreNew-insert k v seen ((j, w) ∷ d) h a = (
  ground (arith, lookup-insert k j v seen, ==-comm k j, h, a.0),
  AreNew-insert k v seen d (ground (arith, h)) a.1,
)

length-merged :
    (seen : Dict String Json) (d : Dict String String)
    → Keyed d
    → AreNew seen d
    → length (merged seen d) ≡ length seen + length d
unfolding AreNew
length-merged seen [] keyed a = omega arith
length-merged seen ((k, v) ∷ d) keyed a =
    let rest =
      length-merged (insert k (text v) seen) d keyed.1
        (AreNew-insert k (text v) seen d keyed.0 a.1) in
    omega (arith, rest, length-insert k (text v) seen a.0)

-- A page that passes its checks adds its bills to those that were seen.
pub unseen_page-length :
    (o : Outside) (age : ℕ) (bills : List AssemblyBillRecord) (hashed : Hashed)
    (seen : Dict String Json) (prints : List Json) {fingerprint : String}
    → hash_bills o age bills (record { hashes = []; normalized = [] }) ≡ ok hashed
    → unseen_page o seen prints hashed.hashes ≡ ok fingerprint
    → length (merged seen hashed.hashes) ≡ length seen + length bills
unfolding unseen_page
unseen_page-length o age bills hashed seen prints h new =
    let (e1, h1) = past (any (is_text (page_fingerprint o hashed.hashes)) prints) _ new in
    let (u, e2, h2) = >>=-eq-ok (none_seen seen hashed.hashes) _ h1 in
    let (size, keyed) = hash_bills-length o age bills _ h tt in
    let total = length-merged seen hashed.hashes keyed (none_seen-AreNew seen hashed.hashes e2) in
    omega (arith, total, size)

fill :
    (size total base before : ℕ)
    → before ≡ min total base
    → before + min size (total - base) ≡ min total (base + size)
fill size total base before e = ground (arith, e)

times_suc : (k size : ℕ) → suc k * size ≡ k * size + size
times_suc k size = grind arith

product_step : (n size : ℕ) → 1 ≤ n → n * size ≡ (n - 1) * size + size
product_step zero size h = absurd (omega (arith, h))
product_step (suc j) size h =
    let less : suc j - 1 ≡ j = omega arith in
    ap (λ k. suc k * size) (sym less) ∙ times_suc (suc j - 1) size

-- The rows of a page fill up the total.
pub rows_fill :
    (size total n before : ℕ)
    → 1 ≤ n
    → before ≡ min total ((n - 1) * size)
    → before + expected_row_count size total n ≡ min total (n * size)
rows_fill size total n before h e =
    let next : n * size ≡ (n - 1) * size + size = product_step n size h in
    rw next (fill size total ((n - 1) * size) before e)
