-- ===== src/Tests/StagingRuns.antt =====
-- workers/legislative_activity.py: a run of the stager.
use civic_intel.Prelude.{
  ◌≡◌, refl, true, none, some, [], ◌∷◌, string_eq, bool_eq, nat_eq, option_eq, pair_eq, list_eq, ok,
}
use civic_intel.Prelude.Texts.{within}
use civic_intel.Verification.Policy.{require_policy}
use civic_intel.Tests.BillSamples.{provider, desk, value_of}
use civic_intel.Workers.BillStaging.{BillStager}
use civic_intel.Workers.BillStaging.Unify.{Unified}
use civic_intel.Workers.BillStaging.Summary.{LegislativeActivitySummary, stage}
use civic_intel.Workers.BillStaging.Complete.{Honest, Staged, stage-Honest}

abbrev stager : BillStager
stager = record {
  candidate = record {
    canonical_name = "kim";
    aliases = [];
    birth_date = none;
    office = none;
    organization = none;
    career_anchors = "assembly_member_code:M2" ∷ [];
  };
  member_code = "M2";
  connector = desk.connector;
  policy = desk.policy;
  max_pages = 3;
}

unfoldable staged : LegislativeActivitySummary
unfolding stage require_policy within
staged = value_of (stage (provider true) stager) refl

stages : stage (provider true) stager ≡ ok staged
unfolding staged stage within
stages = refl

stages_fully :
    (staged.coverage_complete ≡ true)
    × (staged.representative_sponsored_count ≡ some 0)
    × (staged.co_sponsored_count ≡ some 2)
unfolding staged
stages_fully = (refl, refl, refl)

stage-Honest_example : (u : Unified) × Staged (provider true) stager u × Honest u staged
stage-Honest_example = stage-Honest (provider true) stager staged stages
