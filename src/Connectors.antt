-- ===== src/Connectors.antt =====
-- packages/connectors: the clients of the providers' interfaces.
pub mod Base
pub mod AssemblyBills
