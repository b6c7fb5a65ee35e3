-- ===== src/Mapper.antt =====
-- The package `mapper`: from the answers of polkadothub-proxy to the common format.
pub mod Amount
pub mod Proto
pub mod Balance
pub mod Event
pub mod Subset
pub mod Transaction
