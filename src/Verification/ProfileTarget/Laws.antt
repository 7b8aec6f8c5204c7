-- ===== src/Verification/ProfileTarget/Laws.antt =====
-- packages/verification/profile_target.py: what a research target holds.
use mathlib.Core.List.{flatten}
use civic_intel.Prelude.{
  String, ◌≡◌, subst, inl, inr, false, not, ◌&&◌, ◌||◌, List, [], ◌∷◌, map, arith, nat_eq,
  string_eq, bool_eq, option_eq, pair_eq, contains, has_duplicates, contains-append, ◌>>=◌,
  >>=-eq-ok, Result-cases, contains-ordered_unique, has_duplicates-ordered_unique, contains-keep,
  ok,
}
use civic_intel.Prelude.Texts.{Unicode, blank}
use civic_intel.Domain.Enums.{IdentityStatus, identity_status_eq}
use civic_intel.Verification.CrossLane.{resolve_cross_lane_identity}
use civic_intel.Verification.ProfileTarget.{
  ProfileTargetObservation, ProfileTargetLink, ResolvedProfileTargetLink, ProfileResearchTarget,
  filled_unique, resolve_link, resolve_links, observations_of, evidence_refs, assemble,
  build_profile_research_target,
}

contains-filled_unique :
    (xs : List String) (s : String)
    → contains (filled_unique xs) s ≡ (contains xs s && not (blank s))
unfolding filled_unique
contains-filled_unique xs s =
    rw contains-ordered_unique (contains-keep (λ (t : String). not (blank t)) xs s)

has_duplicates-filled_unique : (xs : List String) → has_duplicates (filled_unique xs) ≡ false
unfolding filled_unique
has_duplicates-filled_unique xs = has_duplicates-ordered_unique _

module _ (u : Unicode) (primary : ProfileTargetObservation) where
  -- The resolved link stands for the link: its observation and evidence, with the decision that
  -- the cross-lane rules make of them, which is to resolve.
  pub record StandsFor (l : ProfileTargetLink) (r : ResolvedProfileTargetLink) : Type 0 where
    pub observation : r.observation ≡ l.observation
    pub evidence : r.evidence ≡ l.evidence
    pub decision :
        resolve_cross_lane_identity u primary.candidate l.observation.candidate l.evidence
        ≡ ok r.decision
    pub resolved : r.decision.status ≡ IdentityStatus.resolved

  -- Link by link.
  abbrev pub StandFor : List ProfileTargetLink → List ResolvedProfileTargetLink → Type 0
  StandFor [] [] = Unit
  StandFor (l ∷ ls) (r ∷ rs) = StandsFor l r × StandFor ls rs
  StandFor [] (r ∷ rs) = ⊥
  StandFor (l ∷ ls) [] = ⊥

  link_resolved :
      (l : ProfileTargetLink) (r : ResolvedProfileTargetLink)
      → resolve_link u primary l ≡ ok r
      → StandsFor l r
  unfolding resolve_link
  link_resolved l r h =
      elim (Result-cases
        (resolve_cross_lane_identity u primary.candidate l.observation.candidate l.evidence)) [
          | inr (e, refused) ↦ absurd (ground (arith, h, refused))
          | inl (d, decided) ↦ record {
            observation = ground (arith, h, decided);
            evidence = ground (arith, h, decided);
            decision = ground (arith, h, decided);
            resolved = ground (arith, h, decided);
          }
        ]

  links_resolved :
      (ls : List ProfileTargetLink) (rs : List ResolvedProfileTargetLink)
      → resolve_links u primary ls ≡ ok rs
      → StandFor ls rs
  unfolding resolve_links
  links_resolved [] [] h = tt
  links_resolved [] (r ∷ rs) h = absurd (ground (arith, h))
  links_resolved (l ∷ ls) rs h =
      let (r, one, rest) =
        >>=-eq-ok (resolve_link u primary l)
          (λ r. resolve_links u primary ls >>= λ more. ok (r ∷ more)) h in
      let (more, others, made) =
        >>=-eq-ok (resolve_links u primary ls) (λ more. ok (r ∷ more)) rest in
      let same : r ∷ more ≡ rs = ground (arith, made) in
      subst (StandFor (l ∷ ls)) same (link_resolved l r one, links_resolved ls more others)

  -- A research target is built only from links that the cross-lane rules resolve, one by one and
  -- in order.
  pub target_links_resolved :
      (links : List ProfileTargetLink) (t : ProfileResearchTarget)
      → build_profile_research_target u primary links ≡ ok t
      → (t.primary ≡ primary) × StandFor links t.linked
  unfolding build_profile_research_target assemble
  target_links_resolved links t h =
      let (linked, resolved, made) =
        >>=-eq-ok (resolve_links u primary links) (λ rs. ok (assemble u primary rs)) h in
      (
        ground (arith, made),
        subst (StandFor links) (ground (arith, made)) (links_resolved links linked resolved),
      )

  -- The references of a target are each there once, none is empty, and they are exactly those of
  -- its observations and of the evidence that bridges them.
  pub target_refs :
      (links : List ProfileTargetLink) (t : ProfileResearchTarget) (s : String)
      → build_profile_research_target u primary links ≡ ok t
      → (has_duplicates t.source_refs ≡ false)
        × (contains t.source_refs s ≡ (
            (contains
                (flatten (
                  map
                    (λ (o : ProfileTargetObservation). o.source_refs)
                    (observations_of u primary t.linked)))
                s
              || contains (evidence_refs u primary t.linked) s)
            && not (blank s)))
  unfolding build_profile_research_target assemble
  target_refs links t s h =
      let (linked, resolved, made) =
        >>=-eq-ok (resolve_links u primary links) (λ rs. ok (assemble u primary rs)) h in
      let same : assemble u primary linked ≡ t = ground (arith, made) in
      subst
        (λ (t : ProfileResearchTarget).
          (has_duplicates t.source_refs ≡ false)
          × (contains t.source_refs s ≡ (
              (contains
                  (flatten (
                    map (λ (o : ProfileTargetObservation). o.source_refs)
                      (observations_of u primary t.linked)))
                  s
                || contains (evidence_refs u primary t.linked) s)
              && not (blank s))))
        same (has_duplicates-filled_unique _, rw (contains-filled_unique, contains-append))
