-- ===== src/Verification/Identity.antt =====
-- packages/verification/identity.py: is an observed person the candidate?
pub mod Laws
pub mod Symmetry
use civic_intel.Prelude.{
  ◌+◌, String, Bool, true, false, not, ◌&&◌, ◌||◌, Option, none, some, List, [], ◌∷◌, ◌++◌, map,
  leb, if◌then◌else◌, ◌==◌, ◌!=◌, nat_eq, string_eq, bool_eq, coded_eq, option_eq, pair_eq, length,
  is_empty, keep, contains, overlaps, ordered_unique,
}
use civic_intel.Prelude.Texts.{Unicode, blank}
use civic_intel.Domain.Enums.{IdentityStatus, IdentityDecisionClass}
use civic_intel.Domain.Contracts.Base.{Date}

pub record IdentityCandidate : Type 0 where
  pub canonical_name : String
  pub aliases : List String
  pub birth_date : Option Date
  pub office : Option String
  pub organization : Option String
  pub career_anchors : List String

pub record IdentityDecision : Type 0 where
  pub status : IdentityStatus
  pub decision_class : IdentityDecisionClass
  pub reasons : List String

-- One round of the loop over `office` and `organization`: no comparison, or its outcome.
pub data Context : Type 0 where
  unknown agrees conflicts : Context

abbrev pub is_agreement : Context → Bool
is_agreement agrees = true
is_agreement unknown = false
is_agreement conflicts = false

-- `reasons.append(f"{label}_match")`, `reasons.append(f"{label}_conflict")`
abbrev pub context_reasons : String → String → Context → List String
context_reasons match conflict unknown = []
context_reasons match conflict agrees = match ∷ []
context_reasons match conflict conflicts = conflict ∷ []

abbrev pub reason_if : Bool → String → List String
reason_if true r = r ∷ []
reason_if false r = []

module _ (u : Unicode) where
  -- The canonical name and the aliases, case folded.
  unfoldable pub names : IdentityCandidate → List String
  names c = u.casefold c.canonical_name ∷ map u.casefold c.aliases

  unfoldable pub compare_context : Option String → Option String → Context
  compare_context none right = unknown
  compare_context (some l) none = unknown
  compare_context (some l) (some r) =
      if blank l || blank r
      then unknown
      else if u.casefold l == u.casefold r
      then agrees
      else conflicts

  -- The set of case folded anchors that both have, each once.
  unfoldable pub anchor_overlap : IdentityCandidate → IdentityCandidate → List String
  anchor_overlap a b =
      keep (contains (map u.casefold b.career_anchors))
        (ordered_unique (map u.casefold a.career_anchors))

  -- What follows once the names meet and a birth date is unknown.
  unfoldable pub resolve_by_context : Context → Context → List String → IdentityDecision
  resolve_by_context office organization overlap =
      let reasons =
        "name_match"
        ∷ (context_reasons "office_match" "office_conflict" office
            ++ (context_reasons "organization_match" "organization_conflict" organization
                ++ reason_if (not (is_empty overlap)) "career_anchor_match")) in
      if is_agreement office && is_agreement organization
      then record {
        status = IdentityStatus.resolved;
        decision_class = IdentityDecisionClass.same_state_context;
        reasons = reasons;
      }
      else if leb 2 (length overlap) && (is_agreement office || is_agreement organization)
      then record {
        status = IdentityStatus.resolved;
        decision_class = IdentityDecisionClass.shared_career_anchors;
        reasons = reasons;
      }
      else record {
        status = IdentityStatus.review;
        decision_class = IdentityDecisionClass.context_review;
        reasons = reasons ++ "deterministic_identity_evidence_insufficient" ∷ [];
      }

  -- What follows once the names meet.
  unfoldable pub resolve_by_birth :
      IdentityCandidate → IdentityCandidate → Option Date → Option Date → IdentityDecision
  resolve_by_birth a b (some d) (some d') =
      if d != d'
      then record {
        status = IdentityStatus.unresolved;
        decision_class = IdentityDecisionClass.birth_date_conflict;
        reasons = "birth_date_conflict" ∷ [];
      }
      else record {
        status = IdentityStatus.resolved;
        decision_class = IdentityDecisionClass.exact_birth_date;
        reasons = "name_match" ∷ "birth_date_match" ∷ [];
      }
  resolve_by_birth a b (some d) none =
      resolve_by_context (compare_context a.office b.office)
        (compare_context a.organization b.organization) (anchor_overlap a b)
  resolve_by_birth a b none birth =
      resolve_by_context (compare_context a.office b.office)
        (compare_context a.organization b.organization) (anchor_overlap a b)

  unfoldable pub resolve_identity : IdentityCandidate → IdentityCandidate → IdentityDecision
  resolve_identity observed candidate =
      if not (overlaps (names observed) (names candidate))
      then record {
        status = IdentityStatus.unresolved;
        decision_class = IdentityDecisionClass.name_conflict;
        reasons = "name_conflict" ∷ [];
      }
      else resolve_by_birth observed candidate observed.birth_date candidate.birth_date
