-- ===== src/Examples.antt =====
-- Tests, and runs of the theorems at concrete inputs.
pub mod Blocks
pub mod Eventing
pub mod Fetching
pub mod Gathering
pub mod Hashing
pub mod Mapping
pub mod Migrating
pub mod Pooling
pub mod Proxying
pub mod Scaling
pub mod Starting
pub mod Talking
pub mod Working
pub mod Whole
