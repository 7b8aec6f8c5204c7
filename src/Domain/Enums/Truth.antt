-- ===== src/Domain/Enums/Truth.antt =====
-- packages/domain/enums.py: epistemic and publication status, evidence stance.
-- Each `StrEnum` is a data type with a code into the
-- numbers by which `==` tells its members apart.
use civic_intel.Prelude.{ℕ, ◌≡◌, arith, Eq, nat_eq, string_eq, coded_eq}

pub data EpistemicStatus : Type 0 where
  fact claim inference hypothesis unknown entity_unresolved : EpistemicStatus

abbrev pub epistemic_status_code : EpistemicStatus → ℕ
epistemic_status_code EpistemicStatus.fact = 0
epistemic_status_code EpistemicStatus.claim = 1
epistemic_status_code EpistemicStatus.inference = 2
epistemic_status_code EpistemicStatus.hypothesis = 3
epistemic_status_code EpistemicStatus.unknown = 4
epistemic_status_code EpistemicStatus.entity_unresolved = 5

pub epistemic_status_code-injective :
    (a b : EpistemicStatus) → epistemic_status_code a ≡ epistemic_status_code b → a ≡ b
epistemic_status_code-injective a b h = ground arith

instance abbrev pub epistemic_status_eq : Eq EpistemicStatus
epistemic_status_eq = coded_eq epistemic_status_code epistemic_status_code-injective

pub data EvidenceStance : Type 0 where
  support refute neutral : EvidenceStance

abbrev pub evidence_stance_code : EvidenceStance → ℕ
evidence_stance_code EvidenceStance.support = 0
evidence_stance_code EvidenceStance.refute = 1
evidence_stance_code EvidenceStance.neutral = 2

pub evidence_stance_code-injective :
    (a b : EvidenceStance) → evidence_stance_code a ≡ evidence_stance_code b → a ≡ b
evidence_stance_code-injective a b h = ground arith

instance abbrev pub evidence_stance_eq : Eq EvidenceStance
evidence_stance_eq = coded_eq evidence_stance_code evidence_stance_code-injective

pub data PublicationStatus : Type 0 where
  draft review published withheld : PublicationStatus

abbrev pub publication_status_code : PublicationStatus → ℕ
publication_status_code PublicationStatus.draft = 0
publication_status_code PublicationStatus.review = 1
publication_status_code PublicationStatus.published = 2
publication_status_code PublicationStatus.withheld = 3

pub publication_status_code-injective :
    (a b : PublicationStatus) → publication_status_code a ≡ publication_status_code b → a ≡ b
publication_status_code-injective a b h = ground arith

instance abbrev pub publication_status_eq : Eq PublicationStatus
publication_status_eq = coded_eq publication_status_code publication_status_code-injective
