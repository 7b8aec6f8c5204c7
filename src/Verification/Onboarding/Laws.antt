-- ===== src/Verification/Onboarding/Laws.antt =====
-- packages/verification/person_onboarding.py: which bundles can be constructed.
use civic_intel.Prelude.{
  ◌≡◌, ◌↔◌, false, some, arith, nat_eq, string_eq, bool_eq, eq_of_==, option_eq, pair_eq,
  has_duplicates, All, In, not_any_sound, not_any_complete, !=_iff, not-contains_iff, ok,
}
use civic_intel.Prelude.Texts.{Unicode}
use civic_intel.Domain.Enums.{IdentityStatus, identity_status_eq}
use civic_intel.Domain.Contracts.Evidence.{Claim, ClaimEvidence}
use civic_intel.Verification.ProfileTarget.{ResolvedProfileTargetLink}
use civic_intel.Verification.Onboarding.{
  ReviewedPersonBundle, declared_ids, claim_ids, construct_bundle,
}

-- Everything in the bundle is about one resolved person.
pub record IsCoherent (u : Unicode) (b : ReviewedPersonBundle) : Type 0 where
  pub resolved : b.person.identity_status ≡ IdentityStatus.resolved
  pub same_name :
      u.casefold b.person.canonical_name
      ≡ u.casefold b.profile_target.primary.candidate.canonical_name
  pub links_resolved :
      All
        (λ (r : ResolvedProfileTargetLink). r.decision.status ≡ IdentityStatus.resolved)
        b.profile_target.linked
  pub own_claims : All (λ (c : Claim). c.person_id ≡ some b.person.id) b.claims
  pub distinct_ids : has_duplicates (declared_ids b) ≡ false
  pub own_evidence : All (λ (e : ClaimEvidence). In e.claim_id (claim_ids b)) b.evidence

module _ (u : Unicode) (b : ReviewedPersonBundle) where
  IsCoherent-sound : construct_bundle u b ≡ ok tt → IsCoherent u b
  unfolding construct_bundle
  IsCoherent-sound h = record {
    resolved = ground arith;
    same_name = eq_of_== _ _ (ground arith);
    links_resolved =
        not_any_sound _ _
          (λ (r : ResolvedProfileTargetLink). !=_iff r.decision.status IdentityStatus.resolved) _
          (ground arith);
    own_claims =
        not_any_sound _ _ (λ (c : Claim). !=_iff c.person_id (some b.person.id)) _ (ground arith);
    distinct_ids = ground arith;
    own_evidence =
        not_any_sound _ _ (λ (e : ClaimEvidence). not-contains_iff (claim_ids b) e.claim_id) _
          (ground arith);
  }

  coherent_complete : IsCoherent u b → construct_bundle u b ≡ ok tt
  unfolding construct_bundle
  coherent_complete c = rw (
    (!=_iff b.person.identity_status IdentityStatus.resolved).1 c.resolved,
    (!=_iff _ _).1 c.same_name,
    not_any_complete _ _
        (λ (r : ResolvedProfileTargetLink). !=_iff r.decision.status IdentityStatus.resolved) _
        c.links_resolved,
    not_any_complete _ _ (λ (c : Claim). !=_iff c.person_id (some b.person.id)) _ c.own_claims,
    c.distinct_ids,
    not_any_complete _ _ (λ (e : ClaimEvidence). not-contains_iff (claim_ids b) e.claim_id) _
        c.own_evidence,
  )

  -- A bundle can be constructed exactly when its person is resolved, bears the target's name up to
  -- letter case, every link of the target is resolved, every claim is about the person, no
  -- identifier is declared twice, and every piece of evidence belongs to a claim of the bundle.
  pub construct_bundle-IsCoherent : (construct_bundle u b ≡ ok tt) ↔ IsCoherent u b
  construct_bundle-IsCoherent = (IsCoherent-sound, coherent_complete)
