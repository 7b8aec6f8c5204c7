-- ===== src/Tests/ParticipationRuns.antt =====
-- packages/verification/assembly_legislative_activity.py: the claim of one participation.
use civic_intel.Prelude.{
  ◌≡◌, refl, true, some, [], ◌∷◌, string_eq, bool_eq, nat_eq, option_eq, pair_eq, list_eq, ok,
}
use civic_intel.Domain.Contracts.Base.{text, number, array}
use civic_intel.Domain.Contracts.Evidence.{Claim, ClaimEvidence}
use civic_intel.Domain.Contracts.Collection.{FeederObservation}
use civic_intel.Connectors.Base.{to_items}
use civic_intel.Prelude.Integers.{str_nat}
use civic_intel.Prelude.Lists.{unseen}
use civic_intel.Verification.Claims.Atomic.{is_atomic}
use civic_intel.Verification.Claims.Gate.{
  subject_failures, unknown_failures, fact_failures, evidence_of, evidence_failures,
  validate_claim_publication,
}
use civic_intel.Tests.Samples.{kim, open_policy, roster_source}
use civic_intel.Tests.BillSamples.{provider, value_of}
use civic_intel.Verification.BillParticipation.{
  Uuids, lead_role, build_assembly_legislative_activity_bundle,
}
use civic_intel.Verification.BillParticipation.Attested.{Attested, bundle-Attested}

abbrev uuids : Uuids
uuids = record { uuid5 = λ namespace name. namespace; uuid_text = str_nat }

abbrev bill : FeederObservation
bill = record {
  id = 71;
  feeder = "national_assembly_bill_participation";
  scope_key = "assembly_age:22";
  provider_record_key = "b1";
  snapshot_id = 30;
  run_id = 80;
  recorded_at = 6;
  provider_observed_at = some 5;
  semantic_scope = "legislative_bill_participation";
  identity_hints = [];
  normalized =
      ("bill_id", text "b1")
      ∷ ("bill_name", text "a bill")
      ∷ ("assembly_age", number 22)
      ∷ ("participation_semantics", text "official_code_linked_bill_participation")
      ∷ ("representative_proposer_codes", array (to_items (text "M1" ∷ [])))
      ∷ ("co_proposer_codes", array (to_items (text "M3" ∷ text "M2" ∷ [])))
      ∷ [];
  content_hash = "1111111111111111111111111111111111111111111111111111111111111111";
}

unfoldable built : Claim × ClaimEvidence
unfolding build_assembly_legislative_activity_bundle unseen validate_claim_publication
    subject_failures is_atomic unknown_failures fact_failures evidence_of evidence_failures
built =
    value_of
      (build_assembly_legislative_activity_bundle (provider true) uuids kim bill roster_source
        open_policy lead_role "M1")
      refl

builds :
    build_assembly_legislative_activity_bundle
      (provider true)
      uuids
      kim
      bill
      roster_source
      open_policy
      lead_role
      "M1"
    ≡ ok (built.0, built.1)
unfolding built build_assembly_legislative_activity_bundle unseen validate_claim_publication
    subject_failures is_atomic unknown_failures fact_failures evidence_of evidence_failures
builds = refl

bundle-Attested_example :
    Attested (provider true) kim bill roster_source open_policy lead_role "M1" built.0 built.1
bundle-Attested_example =
    bundle-Attested (provider true) uuids kim bill roster_source open_policy lead_role "M1" built.0
      built.1 builds
