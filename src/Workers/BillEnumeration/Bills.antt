-- ===== src/Workers/BillEnumeration/Bills.antt =====
-- workers/legislative_activity.py: the normalized form of a bill, its digest and its identity hints.
use civic_intel.Prelude.{
  ◌*◌, String, Bool, true, not, ◌||◌, Option, none, some, List, [], ◌∷◌, ◌++◌, map, if◌then◌else◌,
  string_eq, bool_eq, nat_eq, option_eq, pair_eq, keep, contains, Result, ◌>>=◌, ◌>>◌, raise_if, ok,
  err,
}
use civic_intel.Prelude.Texts.{blank}
use civic_intel.Prelude.Sorting.{sorted, string_leb}
use civic_intel.Domain.Contracts.Base.{Date, Time, Json, Metadata, text, null, array, object}
use civic_intel.Connectors.Base.{Outside, Url, to_fields, to_items, json_int, json_option}
use civic_intel.Connectors.AssemblyBills.{AssemblyBillRecord, role_code_fields_complete}
use civic_intel.Workers.BillEnumeration.{EnumerationError, coverage, invalid_url, incomplete_codes}

abbrev pub is_credential : Outside → String × String → Bool
is_credential o p = contains ("key" ∷ "authkey" ∷ "servicekey" ∷ []) (o.unicode.casefold p.0)

abbrev pub safe_url : Outside → Url → Option String
safe_url o url =
    if not (contains ("http" ∷ "https" ∷ []) url.scheme) || blank url.netloc
    then none
    else some (
        o.urlunparse (record url {
          query = o.urlencode (keep (λ p. not (is_credential o p)) (o.parse_qsl url.query));
          fragment = "";
        }))

abbrev pub safe_parsed : Outside → Option Url → Result EnumerationError (Option String)
safe_parsed o none = err invalid_url
safe_parsed o (some url) = ok (safe_url o url)

unfoldable pub safe_detail_url : Outside → Option String → Result EnumerationError (Option String)
safe_detail_url o none = ok none
safe_detail_url o (some value) = if blank value then ok none else safe_parsed o (o.urlparse value)

abbrev pub code_list : Option (List String) → List String
code_list none = []
code_list (some codes) = codes

abbrev pub json_date : Outside → Option Date → Json
json_date o none = null
json_date o (some d) = text (o.isoformat d)

abbrev pub sorted_codes : Option (List String) → List String
sorted_codes codes = sorted string_leb (code_list codes)

unfoldable pub normalized_assembly_bill :
    Outside → AssemblyBillRecord → Result EnumerationError Metadata
unfolding safe_detail_url sorted
normalized_assembly_bill o b = do
  raise_if (not (role_code_fields_complete b)) (coverage incomplete_codes)
  detail_url ← safe_detail_url o b.detail_url
  ok (
      ("bill_id", text b.bill_id)
      ∷ ("bill_no", json_option b.bill_no)
      ∷ ("bill_name", text b.bill_name)
      ∷ ("assembly_age", json_int b.assembly_age)
      ∷ ("proposed_date", json_date o b.proposed_date)
      ∷ ("committee", json_option b.committee)
      ∷ ("committee_id", json_option b.committee_id)
      ∷ ("process_result", json_option b.process_result)
      ∷ (
        "representative_proposer_codes",
        array (to_items (map text (sorted_codes b.representative_proposer_codes))),
      )
      ∷ ("co_proposer_codes", array (to_items (map text (sorted_codes b.co_proposer_codes))))
      ∷ ("detail_url", json_option detail_url)
      ∷ ("participation_semantics", text "official_code_linked_bill_participation")
      ∷ [])

abbrev pub assembly_bill_content_hash : Outside → Metadata → String
assembly_bill_content_hash o normalized =
    o.sha256 (o.json_dumps true true (object (to_fields normalized)))

-- Midnight in UTC, in microseconds from the day whose ordinal is zero.
abbrev pub bill_observed_at : Option Date → Option Time
bill_observed_at none = none
bill_observed_at (some d) = some (d * 86400000000)

abbrev pub participant : String → String → Json
participant role member_code = object (
    to_fields (
      ("external_id_namespace", text "assembly_mona_cd")
      ∷ ("external_id", text member_code)
      ∷ ("role", text role)
      ∷ []))

unfoldable pub bill_identity_hints : AssemblyBillRecord → Metadata
unfolding sorted
bill_identity_hints b =
    ("record_kind", text "multi_person_legislative_event")
    ∷ (
      "participants",
      array (
          to_items (
            map (participant "REPRESENTATIVE_PROPOSER")
              (sorted_codes b.representative_proposer_codes)
            ++ map (participant "CO_PROPOSER") (sorted_codes b.co_proposer_codes))),
    )
    ∷ []
