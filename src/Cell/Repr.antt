-- ===== src/Cell/Repr.antt =====
-- crates/samp-sdk/src/cell/repr.rs: conversions between a cell and the primitive types. A value of an
-- integer type is its bit pattern, a number below the type's modulus.
pub mod RoundTrip
mod Tests
use rust_samp.Base.{ℕ, ◌+◌, ◌-◌, ◌/◌, ◌%◌, Bool, true, false, not, leb, ◌==◌, ◌&&◌, if◌then◌else◌}
use rust_samp.Base.Words.{u32_mod}

pub data Primitive : Type 0 where
  i8 : Primitive
  u8 : Primitive
  i16 : Primitive
  u16 : Primitive
  i32 : Primitive
  u32 : Primitive
  usize : Primitive
  isize : Primitive

-- `word` is the modulus of `usize`.
pub modulus : ℕ → Primitive → ℕ
modulus word i8 = 0x100
modulus word u8 = 0x100
modulus word i16 = 0x1_0000
modulus word u16 = 0x1_0000
modulus word i32 = u32_mod
modulus word u32 = u32_mod
modulus word usize = word
modulus word isize = word

pub is_signed : Primitive → Bool
is_signed i8 = true
is_signed u8 = false
is_signed i16 = true
is_signed u16 = false
is_signed i32 = true
is_signed u32 = false
is_signed usize = false
is_signed isize = true

-- `as` between integer types: to a type not wider it truncates; to a wider one it extends by the
-- sign of the type that it comes from.
pub cast : ℕ → Bool → ℕ → ℕ → ℕ
cast from signed to value =
    if leb to from
    then value % to
    else if signed && leb (from / 2) value
    then value + to - from
    else value

pub from_cell : ℕ → Primitive → ℕ → ℕ
from_cell word p raw = cast u32_mod true (modulus word p) raw

pub into_cell : ℕ → Primitive → ℕ → ℕ
into_cell word p value = cast (modulus word p) (is_signed p) u32_mod value

pub bool_from_cell : ℕ → Bool
bool_from_cell raw = not (raw == 0)

pub bool_into_cell : Bool → ℕ
bool_into_cell value = if value then 1 else 0
