-- ===== src/Domain/Enums/Collection.antt =====
-- packages/domain/enums.py: how a source may be collected, and the status of a collection run.
-- Each `StrEnum` is a data type with a code into the
-- numbers by which `==` tells its members apart.
use civic_intel.Prelude.{ℕ, ◌≡◌, arith, Eq, nat_eq, string_eq, coded_eq}

pub data SourceCollectionMode : Type 0 where
  api rss http browser discovery_only blocked : SourceCollectionMode

abbrev pub source_collection_mode_code : SourceCollectionMode → ℕ
source_collection_mode_code SourceCollectionMode.api = 0
source_collection_mode_code SourceCollectionMode.rss = 1
source_collection_mode_code SourceCollectionMode.http = 2
source_collection_mode_code SourceCollectionMode.browser = 3
source_collection_mode_code SourceCollectionMode.discovery_only = 4
source_collection_mode_code SourceCollectionMode.blocked = 5

pub source_collection_mode_code-injective :
    (a b : SourceCollectionMode)
    → source_collection_mode_code a ≡ source_collection_mode_code b
    → a ≡ b
source_collection_mode_code-injective a b h = ground arith

instance abbrev pub source_collection_mode_eq : Eq SourceCollectionMode
source_collection_mode_eq =
    coded_eq source_collection_mode_code source_collection_mode_code-injective

pub data SourceRunStatus : Type 0 where
  running success partial failed : SourceRunStatus

abbrev pub source_run_status_code : SourceRunStatus → ℕ
source_run_status_code SourceRunStatus.running = 0
source_run_status_code SourceRunStatus.success = 1
source_run_status_code SourceRunStatus.partial = 2
source_run_status_code SourceRunStatus.failed = 3

pub source_run_status_code-injective :
    (a b : SourceRunStatus) → source_run_status_code a ≡ source_run_status_code b → a ≡ b
source_run_status_code-injective a b h = ground arith

instance abbrev pub source_run_status_eq : Eq SourceRunStatus
source_run_status_eq = coded_eq source_run_status_code source_run_status_code-injective
