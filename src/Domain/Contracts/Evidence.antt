-- ===== src/Domain/Contracts/Evidence.antt =====
-- packages/domain/contracts.py: people, organizations, sources, claims and their evidence.
use civic_intel.Prelude.{
  String, Bool, true, false, not, ◌&&◌, Option, none, some, if◌then◌else◌, ◌==◌, nat_eq, string_eq,
  bool_eq, option_eq, pair_eq, ◌>>◌, raise_if,
}
use civic_intel.Prelude.Texts.{truthy}
use civic_intel.Prelude.Dict.{Dict}
use civic_intel.Domain.Enums.{
  EpistemicStatus, EvidenceStance, PublicationStatus, SourceCollectionMode, IdentityStatus,
  epistemic_status_eq,
}
use civic_intel.Domain.Contracts.Base.{
  Stamp, Uuid, Time, Date, Metadata, Temporal, Checked, rule_error, require_text, ordered_intervals,
}

pub record Person : Type 0 where
  pub id : Uuid
  pub canonical_name : String
  pub birth_date : Option Date
  pub identity_status : IdentityStatus
  pub temporal : Temporal
  pub open temporal use *

pub record Organization : Type 0 where
  pub id : Uuid
  pub name : String
  pub temporal : Temporal
  pub open temporal use *

pub record SourcePolicy : Type 0 where
  pub id : Uuid
  pub domain : String
  pub source_class : String
  pub collection_mode : SourceCollectionMode
  pub can_fetch : Bool
  pub can_store_metadata : Bool
  pub can_store_fulltext : Bool
  pub can_send_to_ai : Bool
  pub can_show_excerpt : Bool
  pub can_commercialize : Bool
  pub robots_checked_at : Option Stamp
  pub terms_checked_at : Option Stamp
  pub license : Option String
  pub rate_limit : Option String
  pub policy_note : Option String

pub record Source : Type 0 where
  pub id : Uuid
  pub url : String
  pub title : String
  pub publisher : String
  pub published_at : Option Time
  pub policy_id : Uuid
  pub origin_cluster_id : Option Uuid

pub record SourceSnapshot : Type 0 where
  pub id : Uuid
  pub source_id : Uuid
  pub fetched_at : Time
  pub content_hash : String
  pub metadata : Metadata
  pub fulltext : Option String

pub record Claim : Type 0 where
  pub id : Uuid
  pub person_id : Option Uuid
  pub organization_id : Option Uuid
  pub proposition : String
  pub subject : String
  pub predicate : String
  pub object_text : String
  pub qualifiers : Dict String String
  pub epistemic_status : EpistemicStatus
  pub publication_status : PublicationStatus
  pub asserted_as_true : Bool
  pub resolution_note : Option String
  pub temporal : Temporal
  pub open temporal use *

pub record ClaimEvidence : Type 0 where
  pub id : Uuid
  pub claim_id : Uuid
  pub source_id : Uuid
  pub snapshot_id : Option Uuid
  pub feeder_observation_id : Option Uuid
  pub stance : EvidenceStance
  pub excerpt : Option String

abbrev pub is_none {ℓ} : {A : Type ℓ} → Option A → Bool
is_none none = true
is_none (some a) = false

-- `Claim.exactly_one_subject`: `==` between the two tests.
unfoldable pub exactly_one_subject : Claim → Checked
exactly_one_subject c =
    raise_if
      (if is_none c.person_id then is_none c.organization_id else not (is_none c.organization_id))
      (rule_error "claim requires exactly one Person or Organization subject")

-- `Claim.publication_semantics`
unfoldable pub publication_semantics : Claim → Checked
publication_semantics c = do
  raise_if (c.epistemic_status == EpistemicStatus.fact && not c.asserted_as_true)
      (rule_error "FACT must be explicitly asserted_as_true")
  raise_if (c.epistemic_status == EpistemicStatus.unknown && c.asserted_as_true)
      (rule_error "UNKNOWN cannot be asserted as true")
  raise_if (c.epistemic_status == EpistemicStatus.unknown && not (truthy c.resolution_note))
      (rule_error "UNKNOWN requires a resolution_note")

-- Construction of a `Claim`: the fields first, then the validators, the inherited one first.
unfoldable pub validate_claim : Claim → Checked
unfolding ordered_intervals exactly_one_subject publication_semantics
validate_claim c = do
  require_text "proposition" c.proposition
  require_text "subject" c.subject
  require_text "predicate" c.predicate
  require_text "object_text" c.object_text
  ordered_intervals c.temporal
  exactly_one_subject c
  publication_semantics c
