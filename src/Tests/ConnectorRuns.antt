-- ===== src/Tests/ConnectorRuns.antt =====
-- packages/connectors/open_assembly_bills.py: runs on a leaky answer and on codes.
use civic_intel.Prelude.{
  ◌≡◌, refl, true, some, [], ◌∷◌, string_eq, bool_eq, nat_eq, option_eq, pair_eq, list_eq, ok,
}
use civic_intel.Prelude.Texts.{within}
use civic_intel.Domain.Contracts.Base.{Fields, text, object, end, field}
use civic_intel.Connectors.Base.{ConnectorDocument, Outside}
use civic_intel.Connectors.AssemblyBills.Client.{fetch}
use civic_intel.Connectors.AssemblyBills.Texts.{codes, malformed_code}
use civic_intel.Connectors.AssemblyBills.Redaction.{Relays, fetch-Relays}
use civic_intel.Connectors.AssemblyBills.Codes.{AreCodes, codes-AreCodes}
use civic_intel.Connectors.AssemblyBills.CodesRead.{codes-joined}
use civic_intel.Tests.BillSamples.{answer, provider, desk, value_of}

-- A document whose answer holds a field that is named like a credential.
abbrev leaky : Outside
leaky = record (provider true) {
  http_get = λ url params. elim (answer "b1") [
    | object fields ↦ some (object (field "key" (text "k") fields))
    | j ↦ some j
  ];
}

unfoldable document : ConnectorDocument
unfolding fetch within
document = value_of (fetch leaky desk.connector "?1") refl

fetches : fetch leaky desk.connector "?1" ≡ ok document
unfolding document fetch within
fetches = refl

fetch-Relays_example : Relays leaky desk.connector "?1" document
fetch-Relays_example = fetch-Relays leaky desk.connector "?1" document fetches

abbrev codes_row : Fields
codes_row = field "CODES" (text " A1, B2,A1") end

reads_codes : codes leaky b',' "CODES" codes_row ≡ some ("A1" ∷ "B2" ∷ [])
unfolding codes
reads_codes = refl

codes-AreCodes_example : AreCodes ("A1" ∷ "B2" ∷ [])
codes-AreCodes_example = codes-AreCodes leaky b',' "CODES" codes_row ("A1" ∷ "B2" ∷ []) reads_codes

two_codes : AreCodes ("A1" ∷ "B2" ∷ [])
unfolding malformed_code
two_codes = record { formed = refl; distinct = refl }

codes-joined_example :
    codes leaky b',' "CODES" (field "CODES" (text "A1,B2") end) ≡ some ("A1" ∷ "B2" ∷ [])
codes-joined_example =
    codes-joined leaky "CODES" (field "CODES" (text "A1,B2") end) ("A1" ∷ "B2" ∷ []) two_codes
      (λ h. cc h) refl
