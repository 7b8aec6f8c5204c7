-- ===== src/Persistence.antt =====
-- packages/persistence: the repository, as operations on the rows of a store.
pub mod Store
pub mod Page
pub mod History
pub mod Materialize
