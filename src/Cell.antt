-- ===== src/Cell.antt =====
-- crates/samp-sdk/src/cell, args.rs and error.rs: cells of the AMX virtual machine as the arguments and
-- buffers of natives.
pub mod Buffer
pub mod Text
pub mod Args
pub mod Repr
pub mod Error
