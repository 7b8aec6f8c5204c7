-- ===== src/Domain/Contracts.antt =====
-- packages/domain/contracts.py: the records of the evidence core and their validators.
pub mod Base
pub mod Evidence
pub mod Collection
pub mod Profile
pub mod Governance
pub mod Career
pub mod Laws
