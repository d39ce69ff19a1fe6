-- ===== src/Debug.antt =====
-- crates/samp-sdk/src/debug: the parser of the AMX debug block, the queries over it, the opcode
-- table and the walk over the call stack.
pub mod Types
pub mod Reader
pub mod Parse
pub mod Query
pub mod Stack
pub mod Opcode
