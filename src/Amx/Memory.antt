-- ===== src/Amx/Memory.antt =====
-- crates/samp-sdk/src/amx.rs: reading and writing the memory of a virtual machine without its
-- function table. Registers and addresses are the bit patterns of 32-bit integers; memory is a list
-- of bytes, little-endian as on the servers' machines. What lies behind a block's end is not
-- modelled: a byte there reads as 0, and a write there is lost.
pub mod Bytes
pub mod Cells
pub mod Runs
pub mod Spans
mod Tests
use rust_samp.Base.{
  ℕ, zero, suc, ◌+◌, ◌-◌, ◌*◌, ◌/◌, ◌%◌, Bool, true, false, Option, none, some, List, [], ◌∷◌, ◌++◌,
  ◌&&◌, ◌||◌, length, take, drop, min, ltb, leb, if◌then◌else◌,
}
use rust_samp.Base.Words.{u32_mod, sign_bit, slt, sle}

-- `base` and `data` are `none` where the pointer is null; `cod` and `dat` are fields of the header.
pub record Vm : Type 0 where
  pub base : Option (List ℕ)
  pub data_block : Option (List ℕ)
  pub cod : ℕ
  pub dat : ℕ
  pub hea : ℕ
  pub stk : ℕ
  pub stp : ℕ

abbrev pub byte_at : List ℕ → ℕ → ℕ
byte_at [] i = 0
byte_at (b ∷ bytes) zero = b
byte_at (b ∷ bytes) (suc i) = byte_at bytes i

abbrev pub set_byte : List ℕ → ℕ → ℕ → List ℕ
set_byte [] i v = []
set_byte (b ∷ bytes) zero v = v ∷ bytes
set_byte (b ∷ bytes) (suc i) v = b ∷ set_byte bytes i v

-- `i32::from_ne_bytes`, and `to_ne_bytes`.
unfoldable pub from_ne_bytes : ℕ → ℕ → ℕ → ℕ → ℕ
from_ne_bytes a b c d = a + 256 * b + 65_536 * c + 16_777_216 * d

pub to_ne_bytes : ℕ → List ℕ
to_ne_bytes v = (v % 256) ∷ (v / 256 % 256) ∷ (v / 65_536 % 256) ∷ (v / 16_777_216 % 256) ∷ []

unfoldable pub copy_word : List ℕ → ℕ → ℕ
copy_word bytes at =
    from_ne_bytes (byte_at bytes at) (byte_at bytes (at + 1)) (byte_at bytes (at + 2))
      (byte_at bytes (at + 3))

pub write_word : List ℕ → ℕ → ℕ → List ℕ
write_word bytes at v =
    set_byte
      (set_byte (set_byte (set_byte bytes at (v % 256)) (at + 1) (v / 256 % 256)) (at + 2)
        (v / 65_536 % 256))
      (at + 3) (v / 16_777_216 % 256)

-- The data segment: `amx->data` when set, otherwise `amx->base + header->dat`; none where there is
-- no base, or where `dat` is negative.
unfoldable pub segment : Vm → Option (List ℕ)
segment vm = elim vm.base [
  | none ↦ none
  | some base ↦ elim vm.data_block [
    | some block ↦ some block
    | none ↦ if slt vm.dat 0 then none else some (drop vm.dat base)
  ]
]

unfoldable pub inaccessible : Vm → ℕ → Bool
inaccessible vm addr = sle vm.hea addr && slt addr vm.stk || slt addr 0 || sle vm.stp addr

-- The block that the pointer is into, and the offset there.
unfoldable pub data_ptr : Vm → ℕ → Option (List ℕ × ℕ)
data_ptr vm addr = elim (segment vm) [
  | none ↦ none
  | some bytes ↦ if inaccessible vm addr then none else some (bytes, addr)
]

unfoldable pub read_cell : Vm → ℕ → Option ℕ
read_cell vm addr = elim (data_ptr vm addr) [
  | none ↦ none
  | some (bytes, at) ↦ some (copy_word bytes at)
]

-- The segment is replaced by `bytes`, in the block that it lies in.
pub with_segment : Vm → List ℕ → Vm
with_segment vm bytes = elim vm.data_block [
  | some block ↦ record vm { data_block = some bytes }
  | none ↦ elim vm.base [
    | none ↦ vm
    | some base ↦ record vm { base = some (take vm.dat base ++ bytes) }
  ]
]

pub write_cell : Vm → ℕ → ℕ → Vm × Bool
write_cell vm addr value = elim (data_ptr vm addr) [
  | none ↦ (vm, false)
  | some (bytes, at) ↦ (with_segment vm (write_word bytes at value), true)
]

-- `i32::checked_add` of a number that is not negative.
unfoldable pub checked_add : ℕ → ℕ → Option ℕ
checked_add addr offset =
    if slt addr 0
    then (if ltb (addr + offset) (u32_mod + sign_bit)
        then some ((addr + offset) % u32_mod)
        else none)
    else if ltb (addr + offset) sign_bit
    then some (addr + offset)
    else none

-- `i32::try_from(i.checked_mul(4)?)`, then `checked_add`.
pub cell_addr : ℕ → ℕ → Option ℕ
cell_addr addr i = if ltb (i * 4) sign_bit then checked_add addr (i * 4) else none

-- The loop of `read_cells`, from its `i`-th round on, `n` rounds.
pub read_from : Vm → ℕ → ℕ → ℕ → List ℕ → Option (List ℕ)
read_from vm addr i zero out = some out
read_from vm addr i (suc n) out = elim (cell_addr addr i) [
  | none ↦ none
  | some at ↦ elim (read_cell vm at) [
    | none ↦ some out
    | some cell ↦ read_from vm addr (i + 1) n (out ++ cell ∷ [])
  ]
]

pub read_cells : Vm → ℕ → ℕ → Option (List ℕ)
read_cells vm addr count = elim (read_cell vm addr) [
  | none ↦ none
  | some first ↦ read_from vm addr 1 (count - 1) (first ∷ [])
]

pub cell_bytes : List ℕ → List ℕ
cell_bytes [] = []
cell_bytes (cell ∷ cells) = to_ne_bytes cell ++ cell_bytes cells

-- `addr & !3` and `addr - aligned`; `usize` holds `skip + len`.
pub read_bytes : Vm → ℕ → ℕ → Option (List ℕ)
read_bytes vm addr len =
    let aligned = addr - addr % 4 in
    let skip = addr % 4 in
    elim (read_cells vm aligned ((skip + len + 3) / 4)) [
      | none ↦ none
      | some cells ↦
          let bytes = cell_bytes cells in
          let end = min (skip + len) (length bytes) in some (take (end - skip) (drop skip bytes))
    ]

-- The code segment spans `[cod, dat)`; both are not negative in a loaded program.
pub read_code : Vm → ℕ → Option ℕ
read_code vm offset = elim vm.base [
  | none ↦ none
  | some base ↦
      if ltb vm.dat vm.cod
      then none
      else if leb (vm.dat - vm.cod) offset
      then none
      else some (copy_word base (vm.cod + offset))
]
