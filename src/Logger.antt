-- ===== src/Logger.antt =====
-- crates/samp/src/logger.rs: the plugin's logger.
pub mod Backlog
pub mod Format
pub mod Config
pub mod Rotation
pub mod Log
