-- ===== src/Tests/IdentityRuns.antt =====
-- packages/verification/identity.py, cross_lane_identity.py, materialization.py, profile_target.py
-- and person_onboarding.py: runs of the identity rules.
use mathlib.Core.List.{flatten}
use civic_intel.Prelude.Lists.{unseen}
use civic_intel.Prelude.{
  ◌≡◌, refl, sym, subst, ◌↔◌, true, false, none, some, List, [], ◌∷◌, arith, string_eq, bool_eq,
  nat_eq, option_eq, pair_eq, list_eq, contains, has_duplicates, ok,
}
use civic_intel.Prelude.Texts.{strip}
use civic_intel.Domain.Enums.{
  EvidenceStance, MaterializationDecisionClass, IdentityStatus, IdentityDecisionClass,
  CrossLaneIdentityEvidenceType, cross_lane_identity_evidence_type_eq, MaterializationAction,
}
use civic_intel.Domain.Contracts.Evidence.{Person}
use civic_intel.Domain.Contracts.Collection.{MaterializationDecision}
use civic_intel.Verification.Identity.{
  resolve_by_context, compare_context, IdentityCandidate, resolve_identity, resolve_by_birth, names,
}
use civic_intel.Verification.Identity.Laws.{NamesMeet, EvidenceMeets, resolve_identity-resolved}
use civic_intel.Verification.Identity.Symmetry.{SameVerdict, resolve_identity_comm}
use civic_intel.Verification.Materialization.{
  decide_materialization, decide_linked, decide_unlinked, by_id, observation_birth_date,
  is_member_roster,
}
use civic_intel.Verification.Materialization.Laws.{LinksTo, auto_create_iff, auto_link_sound}
use civic_intel.Verification.CrossLane.{
  CrossLaneIdentityEvidence, CrossLaneIdentityDecision, validate_evidence, accept_evidence,
  decide_bridge, strongest_class, resolve_cross_lane_identity,
}
use civic_intel.Verification.CrossLane.Laws.{
  Resolved, Bridged, types_of, role_changes_are_neutral, bridge-Resolved_iff, verdict_of_types,
}
use civic_intel.Verification.ProfileTarget.{
  ProfileTargetObservation, ProfileTargetLink, ProfileResearchTarget, resolve_link, resolve_links,
  assemble, filled_unique, build_profile_research_target,
}
use civic_intel.Verification.ProfileTarget.Laws.{StandFor, target_links_resolved, target_refs}
use civic_intel.Verification.Onboarding.{ReviewedPersonBundle, construct_bundle, declared_ids}
use civic_intel.Verification.Onboarding.Laws.{IsCoherent, construct_bundle-IsCoherent}
use civic_intel.Tests.Samples.{
  plain, kim, open_policy, roster_source, roster_snapshot, serves, cited, roster_record,
}

abbrev member : IdentityCandidate
member = record {
  canonical_name = "kim";
  aliases = [];
  birth_date = none;
  office = some "member";
  organization = some "assembly";
  career_anchors = [];
}

abbrev minister : IdentityCandidate
minister = record member { canonical_name = "lee"; aliases = "kim" ∷ []; birth_date = some 700000 }

resolves : (resolve_identity plain member minister).status ≡ IdentityStatus.resolved
unfolding resolve_identity names resolve_by_birth resolve_by_context compare_context
resolves = refl

resolve_identity-resolved_example :
    NamesMeet plain member minister × EvidenceMeets plain member minister none (some 700000)
resolve_identity-resolved_example = (resolve_identity-resolved plain member minister).0 resolves

resolve_identity_comm_example :
    SameVerdict (resolve_identity plain member minister) (resolve_identity plain minister member)
resolve_identity_comm_example = resolve_identity_comm plain member minister

abbrev created : MaterializationDecision
created = record {
  action = MaterializationAction.auto_create;
  decision_class = MaterializationDecisionClass.authoritative_new_identity;
  candidate_person_id = none;
  reasons = "authoritative_roster_unique_provider_identity_and_name" ∷ [];
}

creates : decide_materialization plain roster_record [] [] ≡ ok created
unfolding decide_materialization by_id observation_birth_date decide_unlinked decide_linked
creates = refl

abbrev no_people : List Person
no_people = []

auto_create_iff_example :
    (MaterializationAction.auto_create ≡ MaterializationAction.auto_create)
    ↔ ((is_member_roster roster_record ≡ true) × (no_people ≡ no_people) × (no_people ≡ no_people))
auto_create_iff_example = auto_create_iff plain roster_record [] [] created creates

abbrev linked : MaterializationDecision
linked = record {
  action = MaterializationAction.auto_link;
  decision_class = MaterializationDecisionClass.exact_provider_identity;
  candidate_person_id = some 1;
  reasons = "exact_accepted_provider_identity" ∷ [];
}

links : decide_materialization plain roster_record (kim ∷ []) (kim ∷ []) ≡ ok linked
unfolding decide_materialization by_id observation_birth_date decide_unlinked decide_linked
links = refl

auto_link_sound_example : LinksTo plain roster_record (kim ∷ []) (some 1)
auto_link_sound_example =
    auto_link_sound plain roster_record (kim ∷ []) linked (kim ∷ []) links refl

abbrev same_number : CrossLaneIdentityEvidence
same_number = record {
  evidence_type = CrossLaneIdentityEvidenceType.external_id;
  source_ref = "ref";
  namespace = some "register";
  left_value = some "7";
  right_value = some " 7";
  from_role = none;
  to_role = none;
}

role_changes_are_neutral_example :
    resolve_cross_lane_identity plain
      (record member { office = none; organization = some "court"; career_anchors = [] })
      (record minister { office = some "judge"; organization = none; career_anchors = "x" ∷ [] })
      (same_number ∷ [])
    ≡ resolve_cross_lane_identity plain member minister (same_number ∷ [])
role_changes_are_neutral_example =
    role_changes_are_neutral plain member minister none (some "court") [] (some "judge") none
      ("x" ∷ []) (same_number ∷ [])

abbrev bridge : CrossLaneIdentityDecision
bridge = record {
  status = IdentityStatus.resolved;
  decision_class = IdentityDecisionClass.external_id;
  reasons = "name_match" ∷ "EXTERNAL_ID" ∷ [];
  evidence_types = CrossLaneIdentityEvidenceType.external_id ∷ [];
}

bridges : resolve_cross_lane_identity plain member minister (same_number ∷ []) ≡ ok bridge
unfolding resolve_cross_lane_identity names accept_evidence validate_evidence decide_bridge
    strongest_class strip unseen
bridges = refl

bridge-Resolved_iff_example : Bridged plain member minister (same_number ∷ [])
bridge-Resolved_iff_example =
    (bridge-Resolved_iff plain member minister (same_number ∷ [])).0
      (subst (Resolved plain) (sym bridges) refl)

abbrev twice : CrossLaneIdentityDecision
twice = record bridge {
  evidence_types =
      CrossLaneIdentityEvidenceType.external_id ∷ CrossLaneIdentityEvidenceType.external_id ∷ [];
}

bridges_twice :
    resolve_cross_lane_identity plain member minister (same_number ∷ same_number ∷ []) ≡ ok twice
unfolding resolve_cross_lane_identity names accept_evidence validate_evidence decide_bridge
    strongest_class strip unseen
bridges_twice = refl

same_types :
    (t : CrossLaneIdentityEvidenceType)
    → contains (types_of plain (same_number ∷ [])) t
      ≡ contains (types_of plain (same_number ∷ same_number ∷ [])) t
same_types t = ground arith

verdict_of_types_example :
    (bridge.status ≡ twice.status) × (bridge.decision_class ≡ twice.decision_class)
verdict_of_types_example =
    verdict_of_types plain member minister (same_number ∷ []) (same_number ∷ same_number ∷ [])
      bridge twice bridges bridges_twice same_types

abbrev seen_as : IdentityCandidate → ProfileTargetObservation
seen_as c = record {
  lane = "assembly";
  candidate = c;
  source_refs = "a" ∷ "a" ∷ [];
  discovery_reasons = [];
  appointment_target_slugs = [];
}

abbrev one_link : List ProfileTargetLink
one_link = record { observation = seen_as minister; evidence = same_number ∷ [] } ∷ []

abbrev target : ProfileResearchTarget
target = record {
  primary = seen_as member;
  linked =
      record { observation = seen_as minister; evidence = same_number ∷ []; decision = bridge }
      ∷ [];
  source_lanes = "assembly" ∷ [];
  source_refs = "a" ∷ "ref" ∷ [];
  discovery_reasons = [];
  appointment_target_slugs = [];
}

builds : build_profile_research_target plain (seen_as member) one_link ≡ ok target
unfolding build_profile_research_target resolve_links resolve_link assemble filled_unique
    resolve_cross_lane_identity names accept_evidence validate_evidence decide_bridge
    strongest_class strip unseen flatten
builds = refl

target_links_resolved_example :
    (target.primary ≡ seen_as member) × StandFor plain (seen_as member) one_link target.linked
target_links_resolved_example = target_links_resolved plain (seen_as member) one_link target builds

target_refs_example : has_duplicates target.source_refs ≡ false
target_refs_example = (target_refs plain (seen_as member) one_link target "ref" builds).0

abbrev reviewed : ReviewedPersonBundle
reviewed = record {
  person = kim;
  profile_target = target;
  policies = open_policy ∷ [];
  sources = roster_source ∷ [];
  snapshots = roster_snapshot ∷ [];
  claims = serves ∷ [];
  evidence = cited EvidenceStance.support 40 ∷ [];
}

constructs : construct_bundle plain reviewed ≡ ok tt
unfolding construct_bundle declared_ids
constructs = refl

construct_bundle-IsCoherent_example : IsCoherent plain reviewed
construct_bundle-IsCoherent_example = (construct_bundle-IsCoherent plain reviewed).0 constructs
