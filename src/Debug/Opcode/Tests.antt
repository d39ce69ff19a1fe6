-- ===== src/Debug/Opcode/Tests.antt =====
-- A handler table for crates/samp-sdk/src/debug/opcode.rs.
use rust_samp.Base.{ℕ, List, [], ◌∷◌}

abbrev handlers : List ℕ
handlers = 0x0804_8000 ∷ 0x0804_8040 ∷ 0xf7fe_0010 ∷ []
