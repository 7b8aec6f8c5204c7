-- ===== src/Connectors/AssemblyBills/Rows.antt =====
-- packages/connectors/open_assembly_bills.py: the answer of the provider, and the bills in it.
use civic_intel.Prelude.{
  String, Option, none, some, List, [], ◌∷◌, ◌++◌, if◌then◌else◌, ◌==◌, string_eq, bool_eq, nat_eq,
  option_eq, pair_eq, contains, Result, ◌>>=◌, ok, err,
}
use civic_intel.Prelude.Integers.{ℤ, pos, int_of}
use civic_intel.Domain.Contracts.Base.{Json, Items, Fields, array, object, nil, cons}
use civic_intel.Connectors.Base.{Outside, get_field, str_json, int_json, json_truth}
use civic_intel.Connectors.AssemblyBills.Texts.{read_names, codes, optional, proposal_date}
use civic_intel.Connectors.AssemblyBills.{
  AssemblyBillRecord, ConnectorError, malformed_response, refused, row_identity, row_age, not_json,
  malformed_document,
}

-- The interface's code, which is also the key of its blocks.
abbrev pub api_code : String
api_code = "nzmimeepazxkubdpn"

-- What the loop over the blocks keeps.
pub record Parts : Type 0 where
  pub rows : List Fields
  pub total_count : Option ℤ
  pub result_code : Option String

unfoldable pub with_total : Outside → Option Json → Parts → Parts
unfolding int_json
with_total o none p = p
with_total o (some value) p = record p { total_count = int_json o value }

-- `str(value or "")`
unfoldable pub str_or_empty : Outside → Option Json → String
unfolding str_json
str_or_empty o none = ""
str_or_empty o (some value) = if json_truth value then str_json o value else ""

unfoldable pub with_result : Outside → Option Json → Parts → Parts
unfolding str_or_empty
with_result o (some (object result)) p = record p {
  result_code = some (str_or_empty o (get_field "CODE" result));
}
with_result o other p = p

unfoldable pub read_head : Outside → Items → Parts → Parts
unfolding with_total with_result
read_head o nil p = p
read_head o (cons (object item) items) p =
    read_head o items
      (with_result o (get_field "RESULT" item) (with_total o (get_field "list_total_count" item) p))
read_head o (cons other items) p = read_head o items p

-- `[item for item in items if isinstance(item, dict)]`
unfoldable pub objects : Items → List Fields
objects nil = []
objects (cons (object item) items) = item ∷ objects items
objects (cons other items) = objects items

unfoldable pub read_head_field : Outside → Option Json → Parts → Parts
unfolding read_head
read_head_field o (some (array head)) p = read_head o head p
read_head_field o other p = p

unfoldable pub read_row_field : Option Json → Parts → Parts
unfolding objects
read_row_field (some (array items)) p = record p { rows = p.rows ++ objects items }
read_row_field other p = p

unfoldable pub read_blocks : Outside → Items → Parts → Parts
unfolding read_head_field read_row_field
read_blocks o nil p = p
read_blocks o (cons (object block) blocks) p =
    read_blocks o blocks
      (read_row_field (get_field "row" block) (read_head_field o (get_field "head" block) p))
read_blocks o (cons other blocks) p = read_blocks o blocks p

abbrev pub total_or_zero : Option ℤ → ℤ
total_or_zero none = pos 0
total_or_zero (some n) = n

abbrev pub code_text : Option String → String
code_text none = ""
code_text (some s) = s

unfoldable pub settle_parts : Parts → Result ConnectorError Parts
settle_parts p =
    if p.result_code == some "INFO-200"
    then ok (record p { rows = []; total_count = some (total_or_zero p.total_count) })
    else if contains (none ∷ some "" ∷ some "INFO-000" ∷ some "DATA-000" ∷ []) p.result_code
    then ok p
    else err (refused (code_text p.result_code))

abbrev pub no_parts : Parts
no_parts = record { rows = []; total_count = none; result_code = none }

unfoldable pub parts_of_blocks : Outside → Option Json → Result ConnectorError Parts
unfolding read_blocks settle_parts
parts_of_blocks o (some (array (cons block blocks))) =
    settle_parts (read_blocks o (cons block blocks) no_parts)
parts_of_blocks o other = err malformed_response

unfoldable pub response_parts : Outside → Fields → Result ConnectorError Parts
unfolding parts_of_blocks
response_parts o payload = parts_of_blocks o (get_field api_code payload)

abbrev pub required : Option String → Result ConnectorError String
required none = err row_identity
required (some value) = ok value

abbrev pub age_of : Option ℤ → Result ConnectorError ℤ
age_of none = err row_age
age_of (some age) = ok age

unfoldable pub parse_row : Outside → Fields → Result ConnectorError AssemblyBillRecord
unfolding optional codes read_names proposal_date int_of
parse_row o row = do
  bill_id ← required (optional o "BILL_ID" row)
  bill_name ← required (optional o "BILL_NAME" row)
  age_text ← required (optional o "AGE" row)
  age ← age_of (int_of o.unicode age_text)
  ok (record {
    bill_id = bill_id;
    bill_name = bill_name;
    assembly_age = age;
    bill_no = optional o "BILL_NO" row;
    proposed_date = proposal_date o (optional o "PROPOSE_DT" row);
    committee = optional o "COMMITTEE" row;
    committee_id = optional o "COMMITTEE_ID" row;
    process_result = optional o "PROC_RESULT" row;
    proposer_summary = optional o "PROPOSER" row;
    representative_proposers = read_names o (get_field "RST_PROPOSER" row);
    co_proposers = read_names o (get_field "PUBL_PROPOSER" row);
    representative_proposer_codes = codes o b',' "RST_MONA_CD" row;
    co_proposer_codes = codes o b',' "PUBL_MONA_CD" row;
    detail_url = optional o "DETAIL_LINK" row;
  })

unfoldable pub parse_rows : Outside → List Fields → Result ConnectorError (List AssemblyBillRecord)
unfolding parse_row
parse_rows o [] = ok []
parse_rows o (row ∷ rows) = do bill ← parse_row o row; bills ← parse_rows o rows; ok (bill ∷ bills)

unfoldable pub parse_payload :
    Outside → Option Json → Result ConnectorError (List AssemblyBillRecord)
unfolding response_parts parse_rows
parse_payload o none = err not_json
parse_payload o (some (object payload)) = do
  parts ← response_parts o payload
  parse_rows o parts.rows
parse_payload o (some other) = err malformed_document

-- `parse_bills(document)`, which reads only the body
unfoldable pub parse_bills : Outside → String → Result ConnectorError (List AssemblyBillRecord)
unfolding parse_payload
parse_bills o body = parse_payload o (o.json_loads body)
