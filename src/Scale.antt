-- ===== src/Scale.antt =====
-- The package `api/scale` and those below it.
pub mod Storage
pub mod Address
pub mod Xxhash
pub mod Requests
