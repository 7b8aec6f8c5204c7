-- ===== src/Workers/BillEnumeration/Resume.antt =====
-- workers/legislative_activity.py: where an enumeration begins. `dict` and `list` of a value in the
-- checkpoint are modelled where the value is a JSON object or array, as the enumerator stores it;
-- of any other value they count as the exception that the code catches.
use civic_intel.Prelude.{
  String, Bool, Option, none, some, List, [], ◌∷◌, if◌then◌else◌, ◌!=◌, string_eq, bool_eq, nat_eq,
  option_eq, pair_eq, Result, ◌>>=◌, ◌>>◌, raise_if, ok, err,
}
use civic_intel.Prelude.Dict.{Dict, lookup}
use civic_intel.Prelude.Integers.{ℤ, pos, int_eq, int_ltb, successor, int_of}
use civic_intel.Domain.Contracts.Base.{
  Json, Items, Fields, Metadata, array, object, nil, cons, end, field,
}
use civic_intel.Domain.Contracts.Collection.{SourceCheckpoint}
use civic_intel.Connectors.Base.{Outside, str_json, int_json}
use civic_intel.Connectors.AssemblyBills.Client.{AssemblyBillConnector}
use civic_intel.Workers.BillEnumeration.{
  Progress, CoverageFailure, no_cursor, invalid_metadata, other_page_size, other_age,
  other_contract, already_covered, source_contract,
}

abbrev pub of_fields : Fields → Dict String Json
of_fields end = []
of_fields (field k j fields) = (k, j) ∷ of_fields fields

abbrev pub of_items : Items → List Json
of_items nil = []
of_items (cons j items) = j ∷ of_items items

abbrev pub or_invalid {ℓ} : {A : Type ℓ} → Option A → Result CoverageFailure A
or_invalid none = err invalid_metadata
or_invalid (some a) = ok a

unfoldable pub int_at : Outside → String → Metadata → Result CoverageFailure ℤ
unfolding int_json
int_at o key metadata = or_invalid (lookup key metadata) >>= λ value. or_invalid (int_json o value)

abbrev pub text_at : Outside → String → Metadata → Result CoverageFailure String
text_at o key metadata = or_invalid (lookup key metadata) >>= λ value. ok (str_json o value)

abbrev pub as_dict : Json → Result CoverageFailure (Dict String Json)
as_dict (object fields) = ok (of_fields fields)
as_dict other = err invalid_metadata

abbrev pub as_list : Json → Result CoverageFailure (List Json)
as_list (array items) = ok (of_items items)
as_list other = err invalid_metadata

-- The first page to fetch, and the state before it.
pub record Beginning : Type 0 where
  pub start_page : ℤ
  pub progress : Progress

abbrev pub from_page_one : Beginning
from_page_one = record {
  start_page = pos 1;
  progress = record {
    expected = none;
    seen_hashes = [];
    page_fingerprints = [];
    pages_committed = 0;
  };
}

unfoldable pub read_checkpoint :
    Outside → AssemblyBillConnector → String → Metadata → Result CoverageFailure Beginning
unfolding int_at
read_checkpoint o c cursor metadata = do
  last_page ← or_invalid (int_of o.unicode cursor)
  let start_page = successor last_page
  expected_total ← int_at o "list_total_count" metadata
  expected_pages ← int_at o "expected_pages" metadata
  page_size ← int_at o "page_size" metadata
  age ← int_at o "assembly_age" metadata
  contract ← text_at o "source_contract" metadata
  seen ← or_invalid (lookup "seen_provider_hashes" metadata)
  seen_hashes ← as_dict seen
  fingerprints ← or_invalid (lookup "page_fingerprints" metadata)
  page_fingerprints ← as_list fingerprints
  raise_if (page_size != pos c.page_size) other_page_size
  raise_if (age != pos c.assembly_age) other_age
  raise_if (contract != source_contract) other_contract
  raise_if (int_ltb expected_pages start_page) already_covered
  ok (record {
    start_page = start_page;
    progress = record {
      expected = some (expected_total, expected_pages);
      seen_hashes = seen_hashes;
      page_fingerprints = page_fingerprints;
      pages_committed = 0;
    };
  })

unfoldable pub resume_from :
    Outside → AssemblyBillConnector → Metadata → Option String → Result CoverageFailure Beginning
unfolding read_checkpoint
resume_from o c metadata none = err no_cursor
resume_from o c metadata (some cursor) = read_checkpoint o c cursor metadata

unfoldable pub beginning :
    Outside
    → AssemblyBillConnector
    → Bool
    → Option SourceCheckpoint
    → Result CoverageFailure Beginning
unfolding resume_from
beginning o c resume none = ok from_page_one
beginning o c resume (some prior) =
    if resume then resume_from o c prior.metadata prior.cursor else ok from_page_one
