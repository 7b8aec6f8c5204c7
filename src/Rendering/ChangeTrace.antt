-- ===== src/Rendering/ChangeTrace.antt =====
-- packages/rendering/change_projection.py: the trace of a change between two published facts. The
-- key of a trace, the SHA-256 of its JSON text, is a function that the caller gives. Identifiers
-- stay identifiers where the code takes their texts.
pub mod Laws
use civic_intel.Prelude.{
  ◌+◌, String, Bool, not, ◌||◌, Option, none, some, List, [], ◌∷◌, ◌++◌, map, ◌==◌, ◌!=◌, string_eq,
  bool_eq, nat_eq, coded_eq, option_eq, pair_eq, is_empty, any, ordered_unique, Result, ◌>>=◌, ◌>>◌,
  raise_if, ok, err,
}
use civic_intel.Prelude.Texts.{strip, blank}
use civic_intel.Domain.Enums.{
  EpistemicStatus, EvidenceStance, PublicationStatus, epistemic_status_eq, evidence_stance_eq,
  publication_status_eq,
}
use civic_intel.Domain.Contracts.Base.{Uuid}
use civic_intel.Domain.Contracts.Evidence.{Claim, ClaimEvidence, is_none}

pub data TraceError : Type 0 where
  no_subject not_a_current_fact evidence_missing evidence_of_another : TraceError
  refuted unsupported empty_field same_claim other_subject : TraceError

-- `_subject_ref`
unfoldable pub subject_ref : Option Uuid → Option Uuid → Result TraceError (String × Uuid)
subject_ref (some id) organization_id = ok ("PERSON", id)
subject_ref none (some id) = ok ("ORGANIZATION", id)
subject_ref none none = err no_subject

-- `_validate_claim`
unfoldable pub validate_trace_claim : Claim → Result TraceError (Unit {0})
validate_trace_claim c =
    raise_if
      (not (is_none c.superseded_at)
        || (c.publication_status != PublicationStatus.published
            || (c.epistemic_status != EpistemicStatus.fact || not c.asserted_as_true)))
      not_a_current_fact

abbrev pub has_stance : EvidenceStance → ClaimEvidence → Bool
has_stance stance e = e.stance == stance

-- `_validate_evidence`
unfoldable pub validate_trace_evidence : Claim → List ClaimEvidence → Result TraceError (Unit {0})
validate_trace_evidence c items = do
  raise_if (is_empty items) evidence_missing
  raise_if (any (λ (e : ClaimEvidence). e.claim_id != c.id) items) evidence_of_another
  raise_if (any (has_stance EvidenceStance.refute) items) refuted
  raise_if (not (any (has_stance EvidenceStance.support) items)) unsupported

-- One side of the comparison, as it is given.
pub record TraceSide : Type 0 where
  pub claim : Claim
  pub order_key : String
  pub value : String
  pub evidence : List ClaimEvidence

pub record TracePoint : Type 0 where
  pub claim_id : Uuid
  pub order_key : String
  pub value : String

pub record TracePayload : Type 0 where
  pub semantics : String
  pub method_version : String
  pub subject : String × Uuid
  pub comparison_dimension : String
  pub earlier : TracePoint
  pub later : TracePoint
  pub claim_ids : List Uuid
  pub evidence_ids : List Uuid
  pub source_ids : List Uuid

pub record ChangeTrace : Type 0 where
  pub payload : TracePayload
  pub trace_key : String

abbrev pub point : TraceSide → TracePoint
point s = record { claim_id = s.claim.id; order_key = strip s.order_key; value = strip s.value }

unfoldable pub trace_payload :
    String → String → TraceSide → TraceSide → String × Uuid → TracePayload
trace_payload method_version dimension earlier later subject =
    let evidence = earlier.evidence ++ later.evidence in
    record {
      semantics = "SOURCE_NEUTRAL_DERIVED_CHANGE_TRACE_V1";
      method_version = strip method_version;
      subject = subject;
      comparison_dimension = strip dimension;
      earlier = point earlier;
      later = point later;
      claim_ids = earlier.claim.id ∷ later.claim.id ∷ [];
      evidence_ids = ordered_unique (map (λ (e : ClaimEvidence). e.id) evidence);
      source_ids = ordered_unique (map (λ (e : ClaimEvidence). e.source_id) evidence);
    }

-- `not all(...)` of the stripped texts.
unfoldable pub some_field_empty : String → String → TraceSide → TraceSide → Bool
some_field_empty method_version dimension earlier later =
    any (λ s. blank (strip s))
      (method_version ∷ dimension ∷ earlier.order_key ∷ later.order_key ∷ earlier.value
        ∷ later.value ∷ [])

module _ (digest : TracePayload → String) where
  unfoldable pub build_source_neutral_change_trace :
      String → String → TraceSide → TraceSide → Result TraceError ChangeTrace
  build_source_neutral_change_trace method_version dimension earlier later = do
    raise_if (some_field_empty method_version dimension earlier later) empty_field
    raise_if (earlier.claim.id == later.claim.id) same_claim
    validate_trace_claim earlier.claim
    validate_trace_claim later.claim
    first ← subject_ref earlier.claim.person_id earlier.claim.organization_id
    second ← subject_ref later.claim.person_id later.claim.organization_id
    raise_if (first != second) other_subject
    validate_trace_evidence earlier.claim earlier.evidence
    validate_trace_evidence later.claim later.evidence
    let payload = trace_payload method_version dimension earlier later first
    ok (record { payload = payload; trace_key = digest payload })
