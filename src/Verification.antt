-- ===== src/Verification.antt =====
-- packages/verification: policy, identity, materialization and publication rules.
pub mod Policy
pub mod Claims
pub mod Identity
pub mod Materialization
pub mod CrossLane
pub mod ProfileTarget
pub mod Onboarding
pub mod BillParticipation
