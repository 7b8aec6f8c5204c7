-- ===== src/Verification/Onboarding.antt =====
-- packages/verification/person_onboarding.py: the bundle of a reviewed person.
pub mod Laws
use civic_intel.Prelude.{
  ◌+◌, not, some, List, ◌∷◌, ◌++◌, map, ◌!=◌, string_eq, bool_eq, nat_eq, coded_eq, option_eq,
  pair_eq, any, contains, has_duplicates, Result, ◌>>◌, raise_if,
}
use civic_intel.Prelude.Texts.{Unicode}
use civic_intel.Domain.Enums.{IdentityStatus, identity_status_eq}
use civic_intel.Domain.Contracts.Base.{Uuid}
use civic_intel.Domain.Contracts.Evidence.{
  Person, SourcePolicy, Source, SourceSnapshot, Claim, ClaimEvidence,
}
use civic_intel.Verification.ProfileTarget.{ProfileResearchTarget, ResolvedProfileTargetLink}

pub data BundleError : Type 0 where
  person_not_resolved names_differ link_not_resolved claim_of_another : BundleError
  duplicate_ids foreign_evidence : BundleError

pub record ReviewedPersonBundle : Type 0 where
  pub person : Person
  pub profile_target : ProfileResearchTarget
  pub policies : List SourcePolicy
  pub sources : List Source
  pub snapshots : List SourceSnapshot
  pub claims : List Claim
  pub evidence : List ClaimEvidence

unfoldable pub declared_ids : ReviewedPersonBundle → List Uuid
declared_ids b =
    b.person.id
    ∷ (map (λ (p : SourcePolicy). p.id) b.policies
        ++ (map (λ (s : Source). s.id) b.sources
            ++ (map (λ (s : SourceSnapshot). s.id) b.snapshots
                ++ (map (λ (c : Claim). c.id) b.claims
                    ++ map (λ (e : ClaimEvidence). e.id) b.evidence))))

abbrev pub claim_ids : ReviewedPersonBundle → List Uuid
claim_ids b = map (λ (c : Claim). c.id) b.claims

-- `ReviewedPersonBundle.__post_init__`
unfoldable pub construct_bundle : Unicode → ReviewedPersonBundle → Result BundleError (Unit {0})
construct_bundle u b = do
  raise_if (b.person.identity_status != IdentityStatus.resolved) person_not_resolved
  raise_if
      (u.casefold b.person.canonical_name
        != u.casefold b.profile_target.primary.candidate.canonical_name)
      names_differ
  raise_if
      (any (λ (r : ResolvedProfileTargetLink). r.decision.status != IdentityStatus.resolved)
        b.profile_target.linked)
      link_not_resolved
  raise_if (any (λ (c : Claim). c.person_id != some b.person.id) b.claims) claim_of_another
  raise_if (has_duplicates (declared_ids b)) duplicate_ids
  raise_if (any (λ (e : ClaimEvidence). not (contains (claim_ids b) e.claim_id)) b.evidence)
      foreign_evidence
