-- ===== src/Transport.antt =====
-- The package `transport`.
pub mod Http
