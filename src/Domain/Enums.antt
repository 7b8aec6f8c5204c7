-- ===== src/Domain/Enums.antt =====
-- packages/domain/enums.py: the closed vocabularies of the evidence core.
mod Truth
mod Collection
mod Identity
mod Materialization
mod Profile
mod Career
pub use Truth.*
pub use Collection.*
pub use Identity.*
pub use Materialization.*
pub use Profile.*
pub use Career.*
