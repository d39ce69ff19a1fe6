-- ===== src/Debug/Opcode.antt =====
-- crates/samp-sdk/src/debug/opcode.rs: operand sizes, and cells of the code segment as opcodes. A
-- cell and a handler address are bit patterns of 32 bits.
pub mod Decode
mod Tests
use rust_samp.Base.{
  ℕ, zero, suc, ◌+◌, Bool, true, false, Option, none, some, List, [], ◌∷◌, get_elem?, ltb, ◌==◌,
  if◌then◌else◌,
}
use rust_samp.Base.Words.{sign_bit}

abbrev pub op_num_opcodes : ℕ
op_num_opcodes = 158

abbrev pub op_variable_length : ℕ
op_variable_length = 99

-- The number of operand cells of each opcode.
unfoldable pub op_params : List ℕ
op_params =
    99 ∷ 1 ∷ 1 ∷ 1 ∷ 1 ∷ 1 ∷ 1 ∷ 1 ∷ 1 ∷ 0 ∷ 1 ∷ 1 ∷ 1 ∷ 1 ∷ 1 ∷ 1 ∷ 1 ∷ 1 ∷ 1 ∷ 1 ∷ 1 ∷ 1 ∷ 1 ∷ 0
    ∷ 1 ∷ 0 ∷ 1 ∷ 0 ∷ 1 ∷ 1 ∷ 1 ∷ 1 ∷ 1 ∷ 0 ∷ 0 ∷ 0 ∷ 0 ∷ 0 ∷ 1 ∷ 1 ∷ 1 ∷ 1 ∷ 0 ∷ 0 ∷ 1 ∷ 1 ∷ 0 ∷ 0
    ∷ 0 ∷ 1 ∷ 0 ∷ 1 ∷ 1 ∷ 1 ∷ 1 ∷ 1 ∷ 1 ∷ 1 ∷ 1 ∷ 1 ∷ 1 ∷ 1 ∷ 1 ∷ 1 ∷ 1 ∷ 0 ∷ 0 ∷ 0 ∷ 1 ∷ 1 ∷ 1 ∷ 1
    ∷ 0 ∷ 0 ∷ 0 ∷ 0 ∷ 0 ∷ 0 ∷ 0 ∷ 0 ∷ 0 ∷ 0 ∷ 0 ∷ 0 ∷ 0 ∷ 0 ∷ 0 ∷ 1 ∷ 1 ∷ 0 ∷ 0 ∷ 1 ∷ 1 ∷ 0 ∷ 0 ∷ 0
    ∷ 0 ∷ 0 ∷ 0 ∷ 0 ∷ 0 ∷ 0 ∷ 0 ∷ 0 ∷ 0 ∷ 1 ∷ 1 ∷ 0 ∷ 0 ∷ 1 ∷ 1 ∷ 0 ∷ 0 ∷ 0 ∷ 1 ∷ 1 ∷ 0 ∷ 1 ∷ 1 ∷ 1
    ∷ 1 ∷ 1 ∷ 0 ∷ 1 ∷ 0 ∷ 0 ∷ 0 ∷ 0 ∷ 0 ∷ 99 ∷ 99 ∷ 0 ∷ 0 ∷ 1 ∷ 0 ∷ 2 ∷ 1 ∷ 0 ∷ 2 ∷ 2 ∷ 2 ∷ 2 ∷ 3
    ∷ 3 ∷ 3 ∷ 3 ∷ 4 ∷ 4 ∷ 4 ∷ 4 ∷ 5 ∷ 5 ∷ 5 ∷ 5 ∷ 2 ∷ 2 ∷ 2 ∷ 2 ∷ []

-- `usize::try_from(opcode)` fails on a negative cell.
pub to_index : ℕ → Option ℕ
to_index w = if ltb w sign_bit then some w else none

pub operand_cells : ℕ → Option ℕ
operand_cells opcode = elim (to_index opcode) [
  | none ↦ none
  | some i ↦ elim (get_elem? op_params i) [
    | none ↦ none
    | some params ↦ if params == op_variable_length then none else some params
  ]
]

-- The map from handler address to opcode, as the pairs that were inserted, the last one first.
pub record OpcodeMap : Type 0 where
  pub inverse : List (ℕ × ℕ)

-- A `HashMap` keeps the last value inserted for a key.
pub lookup : ℕ → List (ℕ × ℕ) → Option ℕ
lookup k [] = none
lookup k ((j, v) ∷ m) = if j == k then some v else lookup k m

-- `i32::try_from(op).unwrap_or(-1)`.
pub to_opcode : ℕ → ℕ
to_opcode op = if ltb op sign_bit then op else 0xffff_ffff

-- Inserting the entries of the table from position `op` on.
pub insert_all : ℕ → List ℕ → List (ℕ × ℕ) → List (ℕ × ℕ)
insert_all op [] m = m
insert_all op (addr ∷ table) m = insert_all (op + 1) table ((addr, to_opcode op) ∷ m)

pub new : Option (List ℕ) → OpcodeMap
new none = record { inverse = [] }
new (some table) = record { inverse = insert_all 0 table [] }

is_nil : List (ℕ × ℕ) → Bool
is_nil [] = true
is_nil (e ∷ m) = false

pub is_identity : OpcodeMap → Bool
unfolding is_nil
is_identity m = is_nil m.inverse

pub decode : OpcodeMap → ℕ → Option ℕ
decode m raw = if is_identity m then some raw else (elim (lookup raw m.inverse) [
  | some op ↦ some op
  | none ↦ if ltb raw op_num_opcodes then some raw else none
])
