-- ===== src/Programs.antt =====
-- The programs under `cmd`: their loggers, configurations and start-up.
pub mod Logging
pub mod Configuration
pub mod Version
pub mod Start
pub mod Worker
pub mod Live
pub mod Migrate
