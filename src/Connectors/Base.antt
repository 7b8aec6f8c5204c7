-- ===== src/Connectors/Base.antt =====
-- packages/connectors/base.py: the document that a connector fetches. And what the connectors and
-- workers call that is not the repository's: the network, the environment, JSON texts, URLs and
-- digests are the functions of one record, of which nothing is assumed.
use civic_intel.Prelude.{
  String, Bool, true, false, not, Option, none, some, List, [], ◌∷◌, nat_beq, if◌then◌else◌, ◌==◌,
  string_eq, bool_eq, nat_eq, option_eq, pair_eq,
}
use civic_intel.Prelude.Texts.{Unicode, blank}
use civic_intel.Prelude.Dict.{Dict}
use civic_intel.Prelude.Integers.{ℤ, pos, negsuc, str, str_nat, int_of}
use civic_intel.Domain.Contracts.Base.{
  Time, Date, Json, Items, Fields, null, boolean, number, negative, text, array, object, nil, cons,
  end, field,
}

pub record ConnectorDocument : Type 0 where
  pub url : String
  pub title : String
  pub publisher : String
  pub published_at : Option Time
  pub body : String
  pub metadata : Dict String String

-- `urllib.parse.ParseResult`
pub record Url : Type 0 where
  pub scheme : String
  pub netloc : String
  pub path : String
  pub params : String
  pub query : String
  pub fragment : String

pub record Outside : Type 0 where
  pub unicode : Unicode
  pub lower : String → String
  -- `repr` of a list or a dict
  pub repr : Json → String
  -- `urllib.parse`; `urlparse` is `none` where it raises `ValueError`
  pub urlparse : String → Option Url
  pub urlunparse : Url → String
  pub urlencode : Dict String String → String
  pub parse_qs : String → Dict String (List String)
  pub parse_qsl : String → Dict String String
  pub getenv : String → Option String
  -- the decoded body of a successful answer to a GET of the URL with the query
  pub http_get : String → Dict String String → Option Json
  -- `json.loads`, and `json.dumps` with `sort_keys` and with compact separators
  pub json_loads : String → Option Json
  pub json_dumps : Bool → Bool → Json → String
  -- `date.isoformat`
  pub isoformat : Date → String
  -- the hexadecimal SHA-256 of a text in UTF-8
  pub sha256 : String → String

-- `d.get(key)` on the fields of a JSON object
abbrev pub get_field : String → Fields → Option Json
get_field key end = none
get_field key (field k v rest) = if k == key then some v else get_field key rest

-- `str(value)`
unfoldable pub str_json : Outside → Json → String
str_json o null = "None"
str_json o (boolean true) = "True"
str_json o (boolean false) = "False"
str_json o (number n) = str_nat n
str_json o (negative n) = str (negsuc n)
str_json o (text s) = s
str_json o (array items) = o.repr (array items)
str_json o (object fields) = o.repr (object fields)

-- `int(value)`, where it does not raise `TypeError` or `ValueError`
unfoldable pub int_json : Outside → Json → Option ℤ
int_json o null = none
int_json o (boolean true) = some (pos 1)
int_json o (boolean false) = some (pos 0)
int_json o (number n) = some (pos n)
int_json o (negative n) = some (negsuc n)
int_json o (text s) = int_of o.unicode s
int_json o (array items) = none
int_json o (object fields) = none

-- `bool(value)`
abbrev pub json_truth : Json → Bool
json_truth null = false
json_truth (boolean b) = b
json_truth (number n) = not (nat_beq n 0)
json_truth (negative n) = true
json_truth (text s) = not (blank s)
json_truth (array nil) = false
json_truth (array (cons j items)) = true
json_truth (object end) = false
json_truth (object (field k j fields)) = true

-- A JSON object with the items of a dict, and a JSON array with those of a list.
abbrev pub to_fields : Dict String Json → Fields
to_fields [] = end
to_fields ((k, v) ∷ d) = field k v (to_fields d)

abbrev pub to_items : List Json → Items
to_items [] = nil
to_items (j ∷ js) = cons j (to_items js)

abbrev pub json_int : ℤ → Json
json_int (pos n) = number n
json_int (negsuc n) = negative n

abbrev pub json_option : Option String → Json
json_option none = null
json_option (some s) = text s
