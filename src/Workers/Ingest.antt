-- ===== src/Workers/Ingest.antt =====
-- workers/ingest.py: a document that was fetched, as a source and a snapshot. Their identifiers
-- and the time are arguments.
use Prim.Native.Char.{code}
use civic_intel.Prelude.{
  String, ◌≡◌, refl, Bool, true, false, Option, none, some, [], ◌∷◌, if◌then◌else◌, ◌!=◌, string_eq,
  bool_eq, nat_eq, option_eq, pair_eq, Result, ◌>>=◌, ◌>>◌, ok,
}
use civic_intel.Prelude.Texts.{strip, is_space}
use civic_intel.Prelude.Dict.{Dict}
use civic_intel.Domain.Contracts.Base.{Uuid, Time, Metadata, text}
use civic_intel.Domain.Contracts.Evidence.{SourcePolicy, Source, SourceSnapshot}
use civic_intel.Verification.Policy.{PolicyAction, PolicyDenied, require_policy}
use civic_intel.Connectors.Base.{ConnectorDocument, Outside}

-- `re.sub(r"\s+", " ", value)`; the flag tells that a space has just been written for the run.
unfoldable pub collapse : Bool → String → String
unfolding is_space
collapse spaced String.[] = ""
collapse spaced (String.◌∷◌ c s) = elim (is_space (code c)) [
  | true ↦ (elim spaced [ true ↦ collapse true s | false ↦ String.◌∷◌ " " (collapse true s) ])
  | false ↦ String.◌∷◌ c (collapse false s)
]

unfoldable pub normalize_text : String → String
unfolding collapse strip
normalize_text value = strip (collapse false value)

pub record IngestionResult : Type 0 where
  pub source : Source
  pub snapshot : SourceSnapshot
  pub changed : Bool

abbrev pub as_metadata : Dict String String → Metadata
as_metadata [] = []
as_metadata ((k, v) ∷ d) = (k, text v) ∷ as_metadata d

unfoldable pub kept_fulltext : SourcePolicy → String → Result PolicyDenied (Option String)
unfolding require_policy
kept_fulltext policy normalized =
    if policy.can_store_fulltext
    then (require_policy (some policy) PolicyAction.store_fulltext >> ok (some normalized))
    else ok none

unfoldable pub ingest_document :
    Outside
    → Uuid
    → Uuid
    → Time
    → ConnectorDocument
    → SourcePolicy
    → Option String
    → Result PolicyDenied IngestionResult
unfolding require_policy normalize_text kept_fulltext
ingest_document o source_id snapshot_id fetched_at document policy previous_hash = do
  require_policy (some policy) PolicyAction.store_metadata
  let normalized = normalize_text document.body
  let digest = o.sha256 normalized
  fulltext ← kept_fulltext policy normalized
  ok (record {
    source = record {
      id = source_id;
      url = document.url;
      title = document.title;
      publisher = document.publisher;
      published_at = document.published_at;
      policy_id = policy.id;
      origin_cluster_id = none;
    };
    snapshot = record {
      id = snapshot_id;
      source_id = source_id;
      fetched_at = fetched_at;
      content_hash = digest;
      metadata = as_metadata document.metadata;
      fulltext = fulltext;
    };
    changed = some digest != previous_hash;
  })

normalize_example : normalize_text " a \n\t b  c " ≡ "a b c"
unfolding normalize_text
normalize_example = refl
