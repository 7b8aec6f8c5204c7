-- ===== src/Connectors/AssemblyBills/Client.antt =====
-- packages/connectors/open_assembly_bills.py: OpenAssemblyBillConnector. The transport, the headers
-- and the time limit of a request belong to `http_get`. The iteration over the set of allowed
-- parameters, whose order Python leaves open, takes the order of its declaration.
use Prim.Native.String.{◌++◌}
use civic_intel.Prelude.{
  ℕ, String, Bool, true, false, not, ◌&&◌, ◌||◌, Option, none, some, List, [], ◌∷◌, ltb, leb,
  if◌then◌else◌, ◌!=◌, string_eq, bool_eq, nat_eq, option_eq, pair_eq, length, any, contains,
  Result, ◌>>=◌, ◌>>◌, raise_if, ok, err,
}
use civic_intel.Prelude.Texts.{truthy, blank}
use civic_intel.Prelude.Dict.{Dict, lookup, insert}
use civic_intel.Prelude.Integers.{ℤ, str, str_nat}
use civic_intel.Domain.Contracts.Base.{
  Json, Items, Fields, null, boolean, number, negative, text, array, object, nil, cons, end, field,
}
use civic_intel.Connectors.Base.{ConnectorDocument, Url, Outside}
use civic_intel.Connectors.AssemblyBills.{
  ConnectorError, malformed_response, request_failed, missing_api_key, age_bound, index_bound,
  size_bound, unsupported_url, embedded_credentials, unknown_parameter, not_a_json_request,
  age_missing,
}
use civic_intel.Connectors.AssemblyBills.Rows.{Parts, response_parts, api_code}

pub record AssemblyBillConnector : Type 0 where
  pub assembly_age : ℕ
  pub api_key : Option String
  pub page_index : ℕ
  pub page_size : ℕ
  pub bill_id : Option String
  pub bill_no : Option String
  pub bill_name : Option String
  pub committee : Option String
  pub committee_id : Option String
  pub process_result : Option String
  pub proposer : Option String

abbrev pub host : String
host = "open.assembly.go.kr"

abbrev pub api_path : String
api_path = "/portal/openapi/nzmimeepazxkubdpn"

abbrev pub base_url : String
base_url = "https://open.assembly.go.kr/portal/openapi/nzmimeepazxkubdpn"

-- The parameters that a request may have beside the format, the page and the term.
abbrev pub filter_keys : List String
filter_keys =
    "BILL_ID" ∷ "BILL_NO" ∷ "BILL_NAME" ∷ "COMMITTEE" ∷ "COMMITTEE_ID" ∷ "PROC_RESULT" ∷ "PROPOSER"
    ∷ []

abbrev pub allowed_query : List String
allowed_query = "Type" ∷ "pIndex" ∷ "pSize" ∷ "AGE" ∷ filter_keys

-- The bounds that `__init__` asks for.
unfoldable pub construct_connector :
    AssemblyBillConnector → Result ConnectorError AssemblyBillConnector
construct_connector c = do
  raise_if (ltb c.assembly_age 1) age_bound
  raise_if (ltb c.page_index 1) index_bound
  raise_if (not (leb 1 c.page_size && leb c.page_size 1000)) size_bound
  ok c

abbrev pub filters : AssemblyBillConnector → Dict String (Option String)
filters c =
    ("BILL_ID", c.bill_id)
    ∷ ("BILL_NO", c.bill_no)
    ∷ ("BILL_NAME", c.bill_name)
    ∷ ("COMMITTEE", c.committee)
    ∷ ("COMMITTEE_ID", c.committee_id)
    ∷ ("PROC_RESULT", c.process_result)
    ∷ ("PROPOSER", c.proposer)
    ∷ []

unfoldable pub has_filters : AssemblyBillConnector → Bool
has_filters c = any (λ (f : String × Option String). truthy f.1) (filters c)

unfoldable pub for_page : AssemblyBillConnector → ℕ → Result ConnectorError AssemblyBillConnector
unfolding construct_connector
for_page c n = construct_connector (record c { page_index = n })

-- `self._api_key or os.getenv("ASSEMBLY_API_KEY")`
abbrev pub or_truthy : Option String → Option String → Option String
or_truthy a b = if truthy a then a else b

abbrev pub given : Option String → Result ConnectorError String
given none = err missing_api_key
given (some value) = if blank value then err missing_api_key else ok value

unfoldable pub credential : Outside → AssemblyBillConnector → Result ConnectorError String
credential o c = given (or_truthy c.api_key (o.getenv "ASSEMBLY_API_KEY"))

abbrev pub add_filters : Dict String (Option String) → Dict String String → Dict String String
add_filters [] params = params
add_filters ((key, none) ∷ fs) params = add_filters fs params
add_filters ((key, some value) ∷ fs) params =
    add_filters fs (if blank value then params else insert key value params)

unfoldable pub discover : Outside → AssemblyBillConnector → String
unfolding str_nat
discover o c =
    let params =
      ("Type", "json")
      ∷ ("pIndex", str_nat c.page_index)
      ∷ ("pSize", str_nat c.page_size)
      ∷ ("AGE", str_nat c.assembly_age)
      ∷ [] in
    base_url ++ ("?" ++ o.urlencode (add_filters (filters c) params))

-- `values[-1]`; `parse_qs` makes no empty list.
abbrev pub last_value : List String → String
last_value [] = ""
last_value (v ∷ []) = v
last_value (v ∷ w ∷ vs) = last_value (w ∷ vs)

abbrev pub last_values : Dict String (List String) → Dict String String
last_values [] = []
last_values ((k, vs) ∷ d) = (k, last_value vs) ∷ last_values d

abbrev pub get_or {ℓ} : {V : Type ℓ} → String → V → Dict String V → V
get_or key other d = elim (lookup key d) [ none ↦ other | some value ↦ value ]

abbrev pub keys {ℓ} : {V : Type ℓ} → Dict String V → List String
keys [] = []
keys ((k, v) ∷ d) = k ∷ keys d

abbrev pub elsewhere : Url → Bool
elsewhere url = url.scheme != "https" || url.netloc != host || url.path != api_path

abbrev pub parsed : Option Url → Result ConnectorError Url
parsed none = err unsupported_url
parsed (some url) = if elsewhere url then err unsupported_url else ok url

unfoldable pub validated_query : Outside → String → Result ConnectorError (Dict String String)
validated_query o url = do
  place ← parsed (o.urlparse url)
  let raw = o.parse_qs place.query
  raise_if (contains (keys raw) "KEY" || contains (keys raw) "authKey") embedded_credentials
  raise_if (any (λ k. not (contains allowed_query k)) (keys raw)) unknown_parameter
  let query = last_values raw
  raise_if (o.lower (get_or "Type" "json" query) != "json") not_a_json_request
  raise_if (not (truthy (lookup "AGE" query))) age_missing
  ok query

-- The payload without the fields that could hold a credential.
abbrev pub names_credential : Outside → String → Bool
names_credential o key = contains ("key" ∷ "authkey" ∷ []) (o.unicode.casefold key)

unfoldable mutual
  pub redact_credentials : Outside → Json → Json
  redact_credentials o null = null
  redact_credentials o (boolean b) = boolean b
  redact_credentials o (number n) = number n
  redact_credentials o (negative n) = negative n
  redact_credentials o (text s) = text s
  redact_credentials o (array items) = array (redact_items o items)
  redact_credentials o (object fields) = object (redact_fields o fields)

  pub redact_items : Outside → Items → Items
  redact_items o nil = nil
  redact_items o (cons j items) = cons (redact_credentials o j) (redact_items o items)

  pub redact_fields : Outside → Fields → Fields
  redact_fields o end = end
  redact_fields o (field k j fields) =
      let rest = redact_fields o fields in
      if names_credential o k then rest else field k (redact_credentials o j) rest

abbrev pub answered : Option Json → Result ConnectorError Fields
answered none = err request_failed
answered (some (object payload)) = ok payload
answered (some other) = err malformed_response

abbrev pub str_or_blank : Option ℤ → String
str_or_blank none = ""
str_or_blank (some n) = str n

abbrev pub copied : List String → Dict String String → Dict String String → Dict String String
copied [] query metadata = metadata
copied (k ∷ ks) query metadata =
    copied ks query
      (elim (lookup k query) [ none ↦ metadata | some value ↦ insert k value metadata ])

unfoldable pub fetch_metadata : Dict String String → Parts → Dict String String
unfolding str str_nat
fetch_metadata query parts = copied filter_keys query (
    ("api_code", api_code)
    ∷ ("assembly_age", get_or "AGE" "" query)
    ∷ ("page_index", get_or "pIndex" "1" query)
    ∷ ("page_size", get_or "pSize" "100" query)
    ∷ ("row_count", str_nat (length parts.rows))
    ∷ ("list_total_count", str_or_blank parts.total_count)
    ∷ ("result_code", elim parts.result_code [ none ↦ "" | some s ↦ s ])
    ∷ [])

unfoldable pub fetch :
    Outside → AssemblyBillConnector → String → Result ConnectorError ConnectorDocument
unfolding validated_query credential redact_credentials response_parts fetch_metadata
fetch o c url = do
  query ← validated_query o url
  key ← credential o c
  answer ← answered (o.http_get base_url (insert "KEY" key query))
  let payload = redact_fields o answer
  parts ← response_parts o payload
  ok (record {
    url = url;
    title = "국회 국회사무처_의원 발의법률안 API";
    publisher = "국회 국회사무처";
    published_at = none;
    body = o.json_dumps true false (object payload);
    metadata = fetch_metadata query parts;
  })
