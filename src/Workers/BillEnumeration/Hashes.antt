-- ===== src/Workers/BillEnumeration/Hashes.antt =====
-- workers/legislative_activity.py: the digests of a page's bills, and what tells pages apart.
use civic_intel.Prelude.{
  ℕ, String, Bool, true, false, not, Option, none, some, List, [], ◌∷◌, map, if◌then◌else◌, ◌==◌,
  ◌!=◌, string_eq, bool_eq, nat_eq, option_eq, pair_eq, any, Result, ◌>>=◌, ◌>>◌, raise_if, ok, err,
}
use civic_intel.Prelude.Dict.{Dict, lookup, insert}
use civic_intel.Prelude.Integers.{pos, int_eq}
use civic_intel.Prelude.Sorting.{sorted, pair_leb}
use civic_intel.Domain.Contracts.Base.{Json, Metadata, text, array}
use civic_intel.Connectors.Base.{Outside, to_items}
use civic_intel.Connectors.AssemblyBills.{AssemblyBillRecord}
use civic_intel.Workers.BillEnumeration.Bills.{normalized_assembly_bill, assembly_bill_content_hash}
use civic_intel.Workers.BillEnumeration.{
  EnumerationError, coverage, row_age, conflict_in_page, duplicate_in_page, duplicate_page,
  conflict_across_pages, duplicate_across_pages,
}

pub record Hashed : Type 0 where
  pub hashes : Dict String String
  pub normalized : Dict String Metadata

-- A bill that is on the page already.
abbrev pub not_on_page : Option String → String → Result EnumerationError (Unit {0})
not_on_page none digest = ok tt
not_on_page (some earlier) digest =
    err (coverage (if earlier != digest then conflict_in_page else duplicate_in_page))

unfoldable pub hash_bills :
    Outside → ℕ → List AssemblyBillRecord → Hashed → Result EnumerationError Hashed
unfolding normalized_assembly_bill
hash_bills o age [] h = ok h
hash_bills o age (b ∷ bills) h = do
  raise_if (b.assembly_age != pos age) (coverage row_age)
  normalized ← normalized_assembly_bill o b
  let digest = assembly_bill_content_hash o normalized
  not_on_page (lookup b.bill_id h.hashes) digest
  hash_bills o age bills (record {
    hashes = insert b.bill_id digest h.hashes;
    normalized = insert b.bill_id normalized h.normalized;
  })

abbrev pub pair_json : String × String → Json
pair_json p = array (to_items (text p.0 ∷ text p.1 ∷ []))

unfoldable pub page_fingerprint : Outside → Dict String String → String
unfolding sorted
page_fingerprint o hashes =
    o.sha256 (o.json_dumps false true (array (to_items (map pair_json (sorted pair_leb hashes)))))

-- `value == s`, for a value that a checkpoint keeps
abbrev pub is_text : String → Json → Bool
is_text s (text t) = t == s
is_text s other = false

-- A bill that an earlier page had.
abbrev pub not_seen : Option Json → String → Result EnumerationError (Unit {0})
not_seen none digest = ok tt
not_seen (some earlier) digest = err (
    coverage
      (if not (is_text digest earlier) then conflict_across_pages else duplicate_across_pages))

unfoldable pub none_seen :
    Dict String Json → Dict String String → Result EnumerationError (Unit {0})
none_seen seen [] = ok tt
none_seen seen ((bill_id, digest) ∷ hashes) = do
  not_seen (lookup bill_id seen) digest
  none_seen seen hashes

-- `seen_hashes | page_hashes`
abbrev pub merged : Dict String Json → Dict String String → Dict String Json
merged seen [] = seen
merged seen ((bill_id, digest) ∷ hashes) = merged (insert bill_id (text digest) seen) hashes

-- The page's digest, once it differs from the earlier pages' and its bills are new.
unfoldable pub unseen_page :
    Outside → Dict String Json → List Json → Dict String String → Result EnumerationError String
unfolding page_fingerprint none_seen
unseen_page o seen fingerprints hashes = do
  let fingerprint = page_fingerprint o hashes
  raise_if (any (is_text fingerprint) fingerprints) (coverage duplicate_page)
  none_seen seen hashes
  ok fingerprint
