-- ===== src/Plugin.antt =====
-- crates/samp/src/runtime.rs, amx.rs, interlayer.rs, events.rs and plugin.rs: what the plugin keeps
-- while the server runs, and what it does when the server calls.
pub mod Runtime
pub mod Registry
pub mod Events
pub mod Lifecycle
pub mod Instance
