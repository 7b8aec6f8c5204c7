-- ===== src/Domain.antt =====
-- packages/domain: enumerations, record contracts and preparation requests.
pub mod Enums
pub mod Contracts
pub mod WorkOrders
