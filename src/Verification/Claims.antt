-- ===== src/Verification/Claims.antt =====
-- packages/verification/claims.py: the publication gates.
pub mod Atomic
pub mod Failures
pub mod Gate
pub mod Other
