-- ===== src/Api.antt =====
-- The package `api`: JSON-RPC over websockets to the polkadot nodes.
pub mod Session
pub mod Conn
pub mod Health
