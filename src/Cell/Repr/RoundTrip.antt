-- ===== src/Cell/Repr/RoundTrip.antt =====
-- Primitive values survive a cell (crates/samp-sdk/src/cell/repr.rs).
use rust_samp.Base.{ℕ, ◌≤◌, ◌<◌, ◌≡◌, refl, ◌⊎◌, inl, inr, Bool, true, false, arith}
use rust_samp.Base.Words.{u32_mod}
use rust_samp.Cell.Repr.{
  Primitive, i8, u8, i16, u16, i32, u32, usize, isize, modulus, is_signed, cast, from_cell,
  into_cell, bool_from_cell, bool_into_cell,
}

-- Extension and then truncation, for a type that is not wider than a cell.
narrow :
    (m : ℕ) (signed : Bool) (value : ℕ)
    → (m ≡ 0x100) ⊎ (m ≡ 0x1_0000) ⊎ (m ≡ u32_mod)
    → value < m
    → cast u32_mod true m (cast m signed u32_mod value) ≡ value
unfolding cast
narrow m true value h bound = ground arith
narrow m false value h bound = ground arith

-- A value of an integer type of at most 32 bits is read back from the cell that it is written to;
-- `usize` and `isize` are of this kind where they have 32 bits.
pub from_cell-into_cell :
    (word : ℕ) (p : Primitive) (value : ℕ)
    → value < modulus word p
    → modulus word p ≤ u32_mod
    → (word ≡ u32_mod) ⊎ (word ≡ 0x1_0000_0000_0000_0000)
    → from_cell word p (into_cell word p value) ≡ value
unfolding from_cell into_cell modulus is_signed
from_cell-into_cell word i8 value h k w = narrow _ true value (inl refl) h
from_cell-into_cell word u8 value h k w = narrow _ false value (inl refl) h
from_cell-into_cell word i16 value h k w = narrow _ true value (inr (inl refl)) h
from_cell-into_cell word u16 value h k w = narrow _ false value (inr (inl refl)) h
from_cell-into_cell word i32 value h k w = narrow _ true value (inr (inr refl)) h
from_cell-into_cell word u32 value h k w = narrow _ false value (inr (inr refl)) h
from_cell-into_cell word usize value h k w = narrow word false value (inr (inr (omega arith))) h
from_cell-into_cell word isize value h k w = narrow word true value (inr (inr (omega arith))) h

-- A truth value is read back from the cell that it is written to.
bool_from_cell-bool_into_cell : (value : Bool) → bool_from_cell (bool_into_cell value) ≡ value
unfolding bool_from_cell bool_into_cell
bool_from_cell-bool_into_cell true = refl
bool_from_cell-bool_into_cell false = refl
