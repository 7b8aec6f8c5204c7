-- ===== src/Verification/CrossLane/Laws.antt =====
-- packages/verification/cross_lane_identity.py: what bridges two lanes, and what does not matter.
use civic_intel.Prelude.{
  String, ◌≡◌, refl, ◌≢◌, ◌↔◌, inl, inr, true, false, Option, List, [], ◌∷◌, map, arith, Bool-cases,
  string_eq, bool_eq, nat_eq, option_eq, pair_eq, list_eq, contains, overlaps, Result, ◌>>=◌,
  >>=-eq-ok, Result-cases, All, ok, err,
}
use civic_intel.Prelude.Texts.{Unicode}
use civic_intel.Domain.Enums.{
  IdentityStatus, CrossLaneIdentityEvidenceType, cross_lane_identity_evidence_type_eq,
}
use civic_intel.Verification.Identity.{IdentityCandidate, names}
use civic_intel.Verification.Identity.Laws.{NamesMeet, names_meet, names_overlap}
use civic_intel.Verification.CrossLane.{
  CrossLaneIdentityEvidence, EvidenceError, CrossLaneIdentityDecision, validate_evidence,
  accept_evidence, conflict_of_birth, strongest_class, decide_bridge, resolve_cross_lane_identity,
}
use civic_intel.Verification.CrossLane.Evidence.{
  Valid, Fits, all_Fits, all_Valid, BirthsAgree, births_iff,
}

module _ (u : Unicode) where
  abbrev pub types_of : List CrossLaneIdentityEvidence → List CrossLaneIdentityEvidenceType
  types_of = map (λ (e : CrossLaneIdentityEvidence). e.evidence_type)

  -- The candidate after a change of career.
  abbrev pub moved :
      IdentityCandidate → Option String → Option String → List String → IdentityCandidate
  moved a office organization anchors = record a {
    office = office;
    organization = organization;
    career_anchors = anchors;
  }

  accept_moved :
      (a b : IdentityCandidate) (office organization : Option String) (anchors : List String)
      (office' organization' : Option String) (anchors' : List String)
      (es : List CrossLaneIdentityEvidence)
      → accept_evidence u
          (moved a office organization anchors)
          (moved b office' organization' anchors')
          es
        ≡ accept_evidence u a b es
  unfolding accept_evidence validate_evidence
  accept_moved a b office organization anchors office' organization' anchors' [] = refl
  accept_moved a b office organization anchors office' organization' anchors' (e ∷ es) =
      rw (accept_moved a b office organization anchors office' organization' anchors' es)

  -- The offices, the organizations and the career anchors of the two candidates play no part.
  pub role_changes_are_neutral :
      (a b : IdentityCandidate) (office organization : Option String) (anchors : List String)
      (office' organization' : Option String) (anchors' : List String)
      (es : List CrossLaneIdentityEvidence)
      → resolve_cross_lane_identity u
          (moved a office organization anchors)
          (moved b office' organization' anchors')
          es
        ≡ resolve_cross_lane_identity u a b es
  unfolding resolve_cross_lane_identity names
  role_changes_are_neutral a b office organization anchors office' organization' anchors' es =
      rw (accept_moved a b office organization anchors office' organization' anchors' es)

  accepted-Valid :
      (a b : IdentityCandidate) (es : List CrossLaneIdentityEvidence)
      (types : List CrossLaneIdentityEvidenceType)
      → accept_evidence u a b es ≡ ok types
      → All (Valid u a b) es × (types ≡ types_of es)
  unfolding accept_evidence
  accepted-Valid a b [] types h = (tt, ground arith)
  accepted-Valid a b (e ∷ es) types h =
      let (done, valid, rest) =
        >>=-eq-ok (validate_evidence u a b e)
          (λ _. accept_evidence u a b es >>= λ ts. ok (e.evidence_type ∷ ts)) h in
      let (ts, accepted, made) =
        >>=-eq-ok (accept_evidence u a b es) (λ ts. ok (e.evidence_type ∷ ts)) rest in
      let (all_valid, same) = accepted-Valid a b es ts accepted in
      ((valid, all_valid), ground (arith, made, same))

  Valid-accepted :
      (a b : IdentityCandidate) (es : List CrossLaneIdentityEvidence)
      → All (Valid u a b) es
      → accept_evidence u a b es ≡ ok (types_of es)
  unfolding accept_evidence
  Valid-accepted a b [] v = refl
  Valid-accepted a b (e ∷ es) v = rw (v.0, Valid-accepted a b es v.1)

  -- The outcome where the names meet and no birth dates conflict.
  past_conflicts :
      (a b : IdentityCandidate) (es : List CrossLaneIdentityEvidence)
      → overlaps (names u a) (names u b) ≡ true
      → conflict_of_birth u a.birth_date b.birth_date ≡ false
      → resolve_cross_lane_identity u a b es
        ≡ (do types ← accept_evidence u a b es; ok (decide_bridge u types))
  unfolding resolve_cross_lane_identity
  past_conflicts a b es meet agree = rw (meet, agree)

  -- A resolved bridge.
  pub record Bridged (a b : IdentityCandidate) (es : List CrossLaneIdentityEvidence) : Type 0 where
    pub common_name : NamesMeet u a b
    pub births_agree : BirthsAgree u a.birth_date b.birth_date
    pub some_evidence : es ≢ []
    pub all_fit : All (Fits u a b) es

  abbrev pub Resolved : Result EvidenceError CrossLaneIdentityDecision → Type 0
  Resolved (ok d) = d.status ≡ IdentityStatus.resolved
  Resolved (err e) = ⊥

  bridged_from :
      (a b : IdentityCandidate) (es : List CrossLaneIdentityEvidence)
      (types : List CrossLaneIdentityEvidenceType)
      → accept_evidence u a b es ≡ ok types
      → (decide_bridge u types).status ≡ IdentityStatus.resolved
      → (es ≢ []) × All (Valid u a b) es
  unfolding decide_bridge
  bridged_from a b [] types accepted h =
      absurd (ground (arith, (accepted-Valid a b [] types accepted).1, h))
  bridged_from a b (e ∷ es) types accepted h =
      (λ q. cc, (accepted-Valid a b (e ∷ es) types accepted).0)

  Bridged-sound :
      (a b : IdentityCandidate) (es : List CrossLaneIdentityEvidence)
      → Resolved (resolve_cross_lane_identity u a b es)
      → Bridged a b es
  unfolding resolve_cross_lane_identity
  Bridged-sound a b es h = elim (Bool-cases (overlaps (names u a) (names u b))) [
    | inr apart ↦ absurd (ground (arith, h, apart))
    | inl meet ↦ elim (Bool-cases (conflict_of_birth u a.birth_date b.birth_date)) [
      | inl conflict ↦ absurd (ground (arith, h, meet, conflict))
      | inr agree ↦ elim (Result-cases (accept_evidence u a b es)) [
        | inr (e, refused) ↦ absurd (rw (meet, agree, refused) at h)
        | inl (types, accepted) ↦
            let (some_evidence, all_valid) =
              bridged_from a b es types accepted (rw (meet, agree, accepted) at h) in
            record {
              common_name = names_meet u a b meet;
              births_agree = (births_iff u a.birth_date b.birth_date).0 agree;
              some_evidence = some_evidence;
              all_fit = all_Fits u a b es all_valid;
            }
      ]
    ]
  ]

  Bridged-complete :
      (a b : IdentityCandidate) (es : List CrossLaneIdentityEvidence)
      → Bridged a b es
      → Resolved (resolve_cross_lane_identity u a b es)
  unfolding decide_bridge
  Bridged-complete a b [] g = absurd (g.some_evidence refl)
  Bridged-complete a b (e ∷ es) g = rw (
    past_conflicts a b (e ∷ es) (names_overlap u a b g.common_name)
        ((births_iff u a.birth_date b.birth_date).1 g.births_agree),
    Valid-accepted a b (e ∷ es) (all_Valid u a b (e ∷ es) g.all_fit),
  )

  -- A bridge is resolved exactly when a name is common, birth dates that are both known are the
  -- same, there is evidence, and every item of it holds: where it is an exact birth date, both
  -- candidates have it; where it is an external identifier, its two values are there and the same
  -- up to letter case and the white space around them.
  pub bridge-Resolved_iff :
      (a b : IdentityCandidate) (es : List CrossLaneIdentityEvidence)
      → Resolved (resolve_cross_lane_identity u a b es) ↔ Bridged a b es
  bridge-Resolved_iff a b es = (Bridged-sound a b es, Bridged-complete a b es)

  strongest_of_same :
      (ts ts' : List CrossLaneIdentityEvidenceType)
      → ((t : CrossLaneIdentityEvidenceType) → contains ts t ≡ contains ts' t)
      → strongest_class u ts ≡ strongest_class u ts'
  unfolding strongest_class
  strongest_of_same ts ts' same = rw (
    same CrossLaneIdentityEvidenceType.external_id,
    same CrossLaneIdentityEvidenceType.exact_birth_date,
    same CrossLaneIdentityEvidenceType.official_biography_continuity,
  )

  decide_of_same :
      (ts ts' : List CrossLaneIdentityEvidenceType)
      → ((t : CrossLaneIdentityEvidenceType) → contains ts t ≡ contains ts' t)
      → ((decide_bridge u ts).status ≡ (decide_bridge u ts').status)
        × ((decide_bridge u ts).decision_class ≡ (decide_bridge u ts').decision_class)
  unfolding decide_bridge
  decide_of_same [] [] same = (refl, refl)
  decide_of_same [] (t ∷ ts) same = absurd (ground (arith, same t))
  decide_of_same (t ∷ ts) [] same = absurd (ground (arith, same t))
  decide_of_same (t ∷ ts) (s ∷ ss) same = (refl, strongest_of_same (t ∷ ts) (s ∷ ss) same)

  -- The verdict of a bridge depends only on which types of evidence are there: two lists of
  -- evidence that are both accepted, with the same types in whatever order and number, give the
  -- same status and class.
  pub verdict_of_types :
      (a b : IdentityCandidate) (es es' : List CrossLaneIdentityEvidence)
      (d d' : CrossLaneIdentityDecision)
      → resolve_cross_lane_identity u a b es ≡ ok d
      → resolve_cross_lane_identity u a b es' ≡ ok d'
      → ((t : CrossLaneIdentityEvidenceType) → contains (types_of es) t ≡ contains (types_of es') t)
      → (d.status ≡ d'.status) × (d.decision_class ≡ d'.decision_class)
  unfolding resolve_cross_lane_identity
  verdict_of_types a b es es' d d' h h' same =
      elim (Bool-cases (overlaps (names u a) (names u b))) [
        | inr apart ↦ ground (arith, h, h', apart)
        | inl meet ↦ elim (Bool-cases (conflict_of_birth u a.birth_date b.birth_date)) [
          | inl conflict ↦ ground (arith, h, h', meet, conflict)
          | inr agree ↦
              let (ts, accepted, made) =
                >>=-eq-ok (accept_evidence u a b es) (λ ts. ok (decide_bridge u ts))
                  (rw (meet, agree) at h) in
              let (ts', accepted', made') =
                >>=-eq-ok (accept_evidence u a b es') (λ ts. ok (decide_bridge u ts))
                  (rw (meet, agree) at h') in
              let one = (accepted-Valid a b es ts accepted).1 in
              let other = (accepted-Valid a b es' ts' accepted').1 in
              ground
                (arith, made, made', one, other, decide_of_same (types_of es) (types_of es') same)
        ]
      ]
