-- ===== src/Verification/ProfileTarget.antt =====
-- packages/verification/profile_target.py: a research target out of one observation and the
-- observations of other lanes that are resolved to the same person.
pub mod Laws
use mathlib.Core.List.{flatten}
use civic_intel.Prelude.{
  ◌+◌, String, Bool, not, ◌||◌, List, [], ◌∷◌, ◌++◌, map, if◌then◌else◌, ◌!=◌, nat_eq, string_eq,
  bool_eq, coded_eq, option_eq, pair_eq, is_empty, any, keep, ordered_unique, Result, ◌>>=◌, ◌>>◌,
  raise_if, ok, err,
}
use civic_intel.Prelude.Texts.{Unicode, blank, strip}
use civic_intel.Domain.Enums.{IdentityStatus, identity_status_eq}
use civic_intel.Verification.Identity.{IdentityCandidate}
use civic_intel.Verification.CrossLane.{
  CrossLaneIdentityEvidence, CrossLaneIdentityDecision, EvidenceError, resolve_cross_lane_identity,
}

pub record ProfileTargetObservation : Type 0 where
  pub lane : String
  pub candidate : IdentityCandidate
  pub source_refs : List String
  pub discovery_reasons : List String
  pub appointment_target_slugs : List String

pub data TargetError : Type 0 where
  lane_required source_refs_required blank_reason blank_slug : TargetError
  evidence : EvidenceError → TargetError
  link_not_resolved : TargetError

abbrev pub only_space : String → Bool
only_space s = blank (strip s)

-- `ProfileTargetObservation.__post_init__`
unfoldable pub construct_observation : ProfileTargetObservation → Result TargetError (Unit {0})
unfolding strip
construct_observation o = do
  raise_if (only_space o.lane) lane_required
  raise_if (is_empty o.source_refs || any only_space o.source_refs) source_refs_required
  raise_if (any only_space o.discovery_reasons) blank_reason
  raise_if (any only_space o.appointment_target_slugs) blank_slug

pub record ProfileTargetLink : Type 0 where
  pub observation : ProfileTargetObservation
  pub evidence : List CrossLaneIdentityEvidence

pub record ResolvedProfileTargetLink : Type 0 where
  pub observation : ProfileTargetObservation
  pub evidence : List CrossLaneIdentityEvidence
  pub decision : CrossLaneIdentityDecision

pub record ProfileResearchTarget : Type 0 where
  pub primary : ProfileTargetObservation
  pub linked : List ResolvedProfileTargetLink
  pub source_lanes : List String
  pub source_refs : List String
  pub discovery_reasons : List String
  pub appointment_target_slugs : List String

-- `_ordered_unique`, which drops empty texts too.
unfoldable pub filled_unique : List String → List String
filled_unique values = ordered_unique (keep (λ s. not (blank s)) values)

module _ (u : Unicode) (primary : ProfileTargetObservation) where
  -- One round of the loop over the links.
  unfoldable pub resolve_link : ProfileTargetLink → Result TargetError ResolvedProfileTargetLink
  resolve_link l =
      elim (resolve_cross_lane_identity u primary.candidate l.observation.candidate l.evidence) [
        | err e ↦ err (evidence e)
        | ok d ↦
            if d.status != IdentityStatus.resolved
            then err link_not_resolved
            else ok (record { observation = l.observation; evidence = l.evidence; decision = d })
      ]

  unfoldable pub resolve_links :
      List ProfileTargetLink → Result TargetError (List ResolvedProfileTargetLink)
  resolve_links [] = ok []
  resolve_links (l ∷ ls) = do r ← resolve_link l; rs ← resolve_links ls; ok (r ∷ rs)

  abbrev pub observations_of : List ResolvedProfileTargetLink → List ProfileTargetObservation
  observations_of linked = primary ∷ map (λ (r : ResolvedProfileTargetLink). r.observation) linked

  abbrev pub evidence_refs : List ResolvedProfileTargetLink → List String
  evidence_refs linked = flatten (
      map
        (λ (r : ResolvedProfileTargetLink).
          map (λ (e : CrossLaneIdentityEvidence). e.source_ref) r.evidence)
        linked)

  unfoldable pub assemble : List ResolvedProfileTargetLink → ProfileResearchTarget
  assemble linked =
      let observations = observations_of linked in
      record {
        primary = primary;
        linked = linked;
        source_lanes = filled_unique (map (λ (o : ProfileTargetObservation). o.lane) observations);
        source_refs = filled_unique (
            flatten (map (λ (o : ProfileTargetObservation). o.source_refs) observations)
            ++ evidence_refs linked);
        discovery_reasons =
            filled_unique
              (flatten (map (λ (o : ProfileTargetObservation). o.discovery_reasons) observations));
        appointment_target_slugs = filled_unique (
            flatten
              (map (λ (o : ProfileTargetObservation). o.appointment_target_slugs) observations));
      }

  unfoldable pub build_profile_research_target :
      List ProfileTargetLink → Result TargetError ProfileResearchTarget
  build_profile_research_target links = do linked ← resolve_links links; ok (assemble linked)
