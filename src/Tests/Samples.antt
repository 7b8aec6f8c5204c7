-- ===== src/Tests/Samples.antt =====
-- The inputs of the runs: a person, a claim with its evidence, a source with its policy.
use civic_intel.Prelude.{
  true, false, ◌&&◌, none, some, [], ◌∷◌, leb, nat_eq, string_eq, bool_eq, option_eq, pair_eq,
}
use civic_intel.Prelude.Texts.{Unicode}
use civic_intel.Prelude.Dict.{Dict}
use civic_intel.Domain.Enums.{
  EpistemicStatus, EvidenceStance, PublicationStatus, SourceCollectionMode, IdentityStatus,
}
use civic_intel.Domain.Contracts.Base.{Temporal, Uuid}
use civic_intel.Domain.Contracts.Collection.{FeederObservation}
use civic_intel.Domain.Contracts.Evidence.{
  Person, SourcePolicy, Source, SourceSnapshot, Claim, ClaimEvidence,
}

-- Lower-case texts of ASCII, where folding the case changes nothing.
abbrev pub plain : Unicode
plain = record {
  casefold = λ s. s;
  is_alnum = λ c. leb b'a' c && leb c b'z';
  decimal = λ c. none;
  date_from_iso = λ s. none;
}

abbrev pub always : Temporal
always = record { valid_from = 1; valid_to = none; recorded_at = 1; superseded_at = none }

abbrev pub kim : Person
kim = record {
  id = 1;
  canonical_name = "kim";
  birth_date = some 700000;
  identity_status = IdentityStatus.resolved;
  temporal = always;
}

abbrev pub open_policy : SourcePolicy
open_policy = record {
  id = 10;
  domain = "example.org";
  source_class = "official";
  collection_mode = SourceCollectionMode.api;
  can_fetch = true;
  can_store_metadata = true;
  can_store_fulltext = false;
  can_send_to_ai = false;
  can_show_excerpt = true;
  can_commercialize = false;
  robots_checked_at = none;
  terms_checked_at = none;
  license = none;
  rate_limit = none;
  policy_note = none;
}

abbrev pub roster_source : Source
roster_source = record {
  id = 20;
  url = "https://example.org/roster";
  title = "roster";
  publisher = "assembly";
  published_at = none;
  policy_id = 10;
  origin_cluster_id = none;
}

abbrev pub roster_snapshot : SourceSnapshot
roster_snapshot = record {
  id = 30;
  source_id = 20;
  fetched_at = 5;
  content_hash = "h1";
  metadata = [];
  fulltext = none;
}

abbrev pub serves : Claim
serves = record {
  id = 40;
  person_id = some 1;
  organization_id = none;
  proposition = "kim serves.";
  subject = "kim";
  predicate = "serves";
  object_text = "yes";
  qualifiers = [];
  epistemic_status = EpistemicStatus.fact;
  publication_status = PublicationStatus.published;
  asserted_as_true = true;
  resolution_note = none;
  temporal = always;
}

abbrev pub cited : EvidenceStance → Uuid → ClaimEvidence
cited stance claim_id = record {
  id = 50;
  claim_id = claim_id;
  source_id = 20;
  snapshot_id = none;
  feeder_observation_id = none;
  stance = stance;
  excerpt = some "kim";
}

abbrev pub known_sources : Dict Uuid Source
known_sources = (20, roster_source) ∷ []

abbrev pub known_policies : Dict Uuid SourcePolicy
known_policies = (10, open_policy) ∷ []

abbrev pub roster_record : FeederObservation
roster_record = record {
  id = 70;
  feeder = "national_assembly_members";
  scope_key = "22";
  provider_record_key = "kim";
  snapshot_id = 30;
  run_id = 80;
  recorded_at = 6;
  provider_observed_at = none;
  semantic_scope = "legislative_member_roster";
  identity_hints = [];
  normalized = [];
  content_hash = "r1";
}
