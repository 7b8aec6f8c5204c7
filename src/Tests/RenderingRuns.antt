-- ===== src/Tests/RenderingRuns.antt =====
-- packages/rendering/change_projection.py: a traced change.
use civic_intel.Prelude.{
  String, ◌≡◌, refl, false, ◌||◌, [], ◌∷◌, string_eq, bool_eq, nat_eq, option_eq, pair_eq, list_eq,
  contains, has_duplicates, ok,
}
use civic_intel.Prelude.Texts.{strip}
use civic_intel.Domain.Enums.{EvidenceStance}
use civic_intel.Domain.Contracts.Base.{Uuid}
use civic_intel.Rendering.ChangeTrace.{
  TraceSide, TracePayload, ChangeTrace, subject_ref, validate_trace_claim, validate_trace_evidence,
  some_field_empty, build_source_neutral_change_trace,
}
use civic_intel.Rendering.ChangeTrace.Laws.{
  Comparable, built, trace_of, evidence_ids_of, build_source_neutral_change_trace-Comparable,
  trace_cites, source_ids_of,
}
use civic_intel.Tests.Samples.{serves, cited}

abbrev key_of : TracePayload → String
key_of p = p.method_version

abbrev before : TraceSide
before = record {
  claim = serves;
  order_key = "2024";
  value = " 1 ";
  evidence = cited EvidenceStance.support 40 ∷ [];
}

abbrev later : TraceSide
later = record {
  claim = record serves { id = 41 };
  order_key = "2025";
  value = "2";
  evidence = cited EvidenceStance.support 41 ∷ [];
}

abbrev traced : ChangeTrace
traced = trace_of key_of "v1" "seats" before later ("PERSON", 1)

traces : built key_of "v1" "seats" before later ≡ ok traced
unfolding build_source_neutral_change_trace subject_ref validate_trace_claim validate_trace_evidence
    some_field_empty strip
traces = refl

build_source_neutral_change_trace-Comparable_example :
    (subject : String × Uuid) × Comparable "v1" "seats" before later subject
    × (traced ≡ trace_of key_of "v1" "seats" before later subject)
build_source_neutral_change_trace-Comparable_example =
    (build_source_neutral_change_trace-Comparable key_of "v1" "seats" before later traced).0 traces

trace_cites_example :
    (has_duplicates traced.payload.evidence_ids ≡ false)
    × (has_duplicates traced.payload.source_ids ≡ false)
    × (contains traced.payload.evidence_ids 50
        ≡ (contains (evidence_ids_of before) 50 || contains (evidence_ids_of later) 50))
    × (contains traced.payload.source_ids 50
        ≡ (contains (source_ids_of before) 50 || contains (source_ids_of later) 50))
trace_cites_example = trace_cites key_of "v1" "seats" before later traced 50 traces
