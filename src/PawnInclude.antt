-- ===== src/PawnInclude.antt =====
-- crates/samp/src/pawn_include.rs: the comparison of a Pawn include with the natives that a plugin
-- registered.
pub mod Types
pub mod Scan
pub mod Parse
pub mod Compare
pub mod Document
pub mod Template
