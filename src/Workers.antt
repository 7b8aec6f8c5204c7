-- ===== src/Workers.antt =====
-- workers: the programs that collect and publish.
pub mod Ingest
pub mod BillEnumeration
pub mod BillStaging
