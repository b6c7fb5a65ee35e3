-- ===== src/Indexer.antt =====
-- The package `indexer`.
pub mod Pool
pub mod Hashes
pub mod Others
pub mod Latest
pub mod Pairing
pub mod Block
pub mod Storing
pub mod Tasks
pub mod Run
pub mod AccountData
pub mod Account
pub mod Client
pub mod Range
