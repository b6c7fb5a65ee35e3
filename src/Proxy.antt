-- ===== src/Proxy.antt =====
-- The package `proxy`: the connections to the polkadothub-proxy instances, and its client.
pub mod Conns
pub mod Client
