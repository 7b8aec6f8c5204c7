-- ===== src/Tests/BillSamples.antt =====
-- The inputs of the runs on Assembly bills: a provider of two pages with one bill each.
use Prim.Native.String.{◌++◌}
use civic_intel.Prelude.{
  ◌+◌, ◌*◌, String, ◌≡◌, Bool, true, false, Option, none, some, List, [], ◌∷◌, if◌then◌else◌, ◌==◌,
  string_eq, bool_eq, nat_eq, option_eq, pair_eq, list_eq, Result, succeeds, ok, err,
}
use civic_intel.Prelude.Texts.{Unicode, within}
use civic_intel.Prelude.Dict.{Dict, lookup}
use civic_intel.Prelude.Integers.{str_nat}
use civic_intel.Domain.Contracts.Base.{
  Json, Items, Fields, null, boolean, number, negative, text, array, object, nil, cons, end, field,
}
use civic_intel.Connectors.Base.{Outside, to_fields, to_items}
use civic_intel.Connectors.AssemblyBills.Client.{host, api_path}
use civic_intel.Connectors.AssemblyBills.Rows.{api_code}
use civic_intel.Workers.BillEnumeration.{BillEnumerator, Fresh}
use civic_intel.Tests.Samples.{open_policy}

-- The texts here have lower case but for one.
abbrev pub fold : String → String
fold s =
    if s == "Assembly bill participation enumeration did not complete"
    then "assembly bill participation enumeration did not complete"
    else s

abbrev pub folding : Unicode
folding = record {
  casefold = fold;
  is_alnum = λ c. true;
  decimal = λ c. none;
  date_from_iso = λ s. none;
}

-- The answer of the provider for one page.
abbrev pub answer : String → Json
answer bill_id = object (
    to_fields (
      (
        api_code,
        array (
            to_items (
              object (
                to_fields (
                  (
                    "head",
                    array (
                        to_items (
                          object (to_fields (("list_total_count", number 2) ∷ []))
                          ∷ object (
                              to_fields (
                                ("RESULT", object (to_fields (("CODE", text "INFO-000") ∷ [])))
                                ∷ []))
                          ∷ [])),
                  )
                  ∷ []))
              ∷ object (
                  to_fields (
                    (
                      "row",
                      array (
                          to_items (
                            object (
                              to_fields (
                                ("BILL_ID", text bill_id)
                                ∷ ("BILL_NAME", text "a bill")
                                ∷ ("AGE", text "22")
                                ∷ ("RST_MONA_CD", text "M1")
                                ∷ ("PUBL_MONA_CD", text "M3,M2")
                                ∷ []))
                            ∷ [])),
                    )
                    ∷ []))
              ∷ [])),
      )
      ∷ []))

abbrev mutual
  printed : Json → String
  printed null = "null"
  printed (boolean b) = "b"
  printed (number n) = str_nat n
  printed (negative n) = "-"
  printed (text s) = s
  printed (array items) = printed_items items
  printed (object fields) = printed_fields fields

  printed_items : Items → String
  printed_items nil = "]"
  printed_items (cons j items) = printed j ++ ("," ++ printed_items items)

  printed_fields : Fields → String
  printed_fields end = "}"
  printed_fields (field k j fields) = k ++ (":" ++ (printed j ++ ("," ++ printed_fields fields)))

abbrev pub digest : String → String
digest s =
    if within "b2" s
    then "2222222222222222222222222222222222222222222222222222222222222222"
    else "1111111111111111111111111111111111111111111111111111111111111111"

abbrev pub request : String → Dict String (List String)
request n =
    ("Type", "json" ∷ []) ∷ ("pIndex", n ∷ []) ∷ ("pSize", "1" ∷ []) ∷ ("AGE", "22" ∷ []) ∷ []

abbrev pub page_value : Dict String String → String
page_value params = elim (lookup "pIndex" params) [ none ↦ "" | some n ↦ n ]

-- A provider whose second page is there or not.
abbrev pub provider : Bool → Outside
provider second = record {
  unicode = folding;
  lower = λ s. s;
  repr = λ j. "";
  urlparse = λ s. some (record {
    scheme = "https";
    netloc = host;
    path = api_path;
    params = "";
    query = s;
    fragment = "";
  });
  urlunparse = λ u. "";
  urlencode = page_value;
  parse_qs = λ s. if within "?2" s then request "2" else request "1";
  parse_qsl = λ s. [];
  getenv = λ name. none;
  http_get = λ url params.
      if page_value params == "1"
      then some (answer "b1")
      else if second
      then some (answer "b2")
      else none;
  json_loads = λ s. if within "b2" s then some (answer "b2") else some (answer "b1");
  json_dumps = λ sorted compact j. printed j;
  isoformat = λ d. "";
  sha256 = digest;
}

abbrev pub desk : BillEnumerator
desk = record {
  connector = record {
    assembly_age = 22;
    api_key = some "k";
    page_index = 1;
    page_size = 1;
    bill_id = none;
    bill_no = none;
    bill_name = none;
    committee = none;
    committee_id = none;
    process_result = none;
    proposer = none;
  };
  policy = record open_policy { domain = host };
  max_pages = 3;
}

abbrev pub made : Fresh
made = record {
  run_id = 500;
  started_at = 5;
  closed_at = 9;
  source_id = λ n. 600 + n;
  snapshot_id = λ n. 610 + n;
  checkpoint_id = λ n. 620 + n;
  fetched_at = λ n. 6;
  committed_at = λ n. 7;
  observation_id = λ n i. 700 + 10 * n + i;
  recorded_at = λ n i. 6;
}

pub false_ne_true {ℓ} : {A : Type ℓ} → false ≡ true → A
false_ne_true h = cc

abbrev pub value_of {ℓ κ} : {E : Type ℓ} {A : Type κ} (r : Result E A) → succeeds r ≡ true → A
value_of (ok a) h = a
value_of (err e) h = false_ne_true h

abbrev pub held {ℓ} : {A : Type ℓ} → A → Option A → A
held other none = other
held other (some a) = a
