-- ===== src/Amx.antt =====
-- crates/samp-sdk/src/amx.rs: the wrapper of an AMX virtual machine.
pub mod Memory
pub mod Scope
pub mod Natives
