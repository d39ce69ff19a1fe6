-- ===== src/Cell/Buffer.antt =====
-- crates/samp-sdk/src/cell/buffer.rs: `Buffer` and `UnsizedBuffer`. The memory that a buffer refers to
-- is the list of its cells, bit patterns of 32 bits; a buffer is the only view of its cells.
pub mod Bounds
mod Tests
use rust_samp.Base.{
  ℕ, zero, suc, ◌-◌, ◌/◌, Bool, true, false, Option, none, some, List, [], ◌∷◌, length, take,
  get_elem?, min, ltb, leb, ◌%◌, not, ◌||◌, ◌==◌, if◌then◌else◌,
}
use rust_samp.Base.Words.{sign_bit, bias, slt}
use rust_samp.Cell.Error.{AmxError, from_code, not_found, memory_access}
use rust_samp.Amx.Scope.{Result, ok, err}

abbrev pub max_buffer_cells : ℕ
max_buffer_cells = 1_048_576

-- `UnsizedBuffer`: the cells from the argument's address on, and how many of them are inside the
-- data region. `none` is `usize::MAX`, where the virtual machine gives no bound.
pub record UnsizedBuffer : Type 0 where
  pub cells : List ℕ
  pub max_cells : Option ℕ

-- `(stp - cell).max(0) / 4` on 32-bit integers, with `stp` and `cell` as `amx_GetAddr` admits them:
-- neither negative, so the difference does not overflow.
pub cells_below : ℕ → ℕ → ℕ
cells_below stp cell = (stp - cell) / 4

-- `get_ref` (amx.rs), as far as buffers use it: the memory from the address on. `amx_GetAddr` gives a
-- code and a pointer with the memory behind it, `none` where it is null; it is `none` where its slot of
-- the table is empty.
unfoldable pub get_ref : Option (ℕ → ℕ × Option (ℕ × List ℕ)) → ℕ → Result (List ℕ)
get_ref none address = err not_found
get_ref (some get_addr) address =
    let (code, dest) = get_addr address in
    if slt 0 code then err (from_code code) else elim dest [
      | none ↦ err memory_access
      | some (dest_addr, memory) ↦
          if not (address % 4 == 0) || not (dest_addr % 4 == 0)
          then err memory_access
          else ok memory
    ]

pub with_bound : Option ℕ → ℕ → List ℕ → UnsizedBuffer
with_bound none cell memory = record { cells = memory; max_cells = none }
with_bound (some stp) cell memory = record {
  cells = memory;
  max_cells = some (cells_below stp cell);
}

pub bounded : Option ℕ → ℕ → Result (List ℕ) → Result UnsizedBuffer
bounded stp cell (err e) = err e
bounded stp cell (ok memory) = ok (with_bound stp cell memory)

-- `stp` is `none` where the machine is null.
pub from_raw : Option (ℕ → ℕ × Option (ℕ × List ℕ)) → Option ℕ → ℕ → Result UnsizedBuffer
from_raw get_addr stp cell = bounded stp cell (get_ref get_addr cell)

-- `len.min(self.max_cells)`.
pub clamp : ℕ → Option ℕ → ℕ
clamp len none = len
clamp len (some n) = min len n

-- `into_sized_buffer`: the buffer's length, and its cells.
pub sized_len : UnsizedBuffer → ℕ → ℕ
sized_len b len = min (clamp len b.max_cells) max_buffer_cells

pub into_sized_buffer : UnsizedBuffer → ℕ → List ℕ
into_sized_buffer b len = take (sized_len b len) b.cells

pub get_as : {T : Type 0} → (ℕ → T) → List ℕ → ℕ → Option T
get_as from_cell buffer index = elim (get_elem? buffer index) [
  | none ↦ none
  | some raw ↦ some (from_cell raw)
]

-- A write past the end changes nothing and says so.
pub set_as : {T : Type 0} → (T → ℕ) → List ℕ → ℕ → T → List ℕ × Bool
set_as into_cell [] index value = ([], false)
set_as into_cell (c ∷ buffer) zero value = (into_cell value ∷ buffer, true)
set_as into_cell (c ∷ buffer) (suc index) value =
    let (rest, done) = set_as into_cell buffer index value in (c ∷ rest, done)
