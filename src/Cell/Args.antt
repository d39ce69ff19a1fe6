-- ===== src/Cell/Args.antt =====
-- crates/samp-sdk/src/args.rs: the arguments of a native call. `params` is the memory at the pointer
-- that the virtual machine gives: the size of the arguments in bytes, as a 32-bit pattern, and then
-- a cell for each. The conversion `T::from_raw` is a parameter, `none` where it fails.
pub mod Order
mod Tests
use rust_samp.Base.{
  ℕ, zero, suc, ◌+◌, ◌/◌, Bool, true, false, Option, none, some, List, [], ◌∷◌, get_elem?, leb,
  if◌then◌else◌,
}
use rust_samp.Base.Words.{sign_bit, bias, sle}

pub record Args : Type 0 where
  pub params : List ℕ
  pub offset : ℕ

pub new : List ℕ → Args
new params = record { params = params; offset = 0 }

-- `raw as usize / 4` of a positive `i32`.
pub count_bytes : ℕ → ℕ
count_bytes raw = if sle raw 0 then 0 else raw / 4

-- There is always a first cell.
pub count : Args → ℕ
count args = elim args.params [ [] ↦ 0 | raw ∷ cells ↦ count_bytes raw ]

pub get : {T : Type 0} → (ℕ → Option T) → Args → ℕ → Option T
get from_raw args offset =
    if leb (count args) offset
    then none
    else elim (get_elem? args.params (offset + 1)) [ none ↦ none | some cell ↦ from_raw cell ]

-- The offset is a count of calls and does not overflow.
pub next_arg : {T : Type 0} → (ℕ → Option T) → Args → Option T × Args
next_arg from_raw args =
    let result = get from_raw args args.offset in (result, record args { offset = args.offset + 1 })

pub reset : Args → Args
reset args = record args { offset = 0 }

-- The results of `n` calls of `next_arg`.
pub next_args : {T : Type 0} → (ℕ → Option T) → ℕ → Args → List (Option T)
next_args from_raw zero args = []
next_args from_raw (suc n) args =
    let (result, args') = next_arg from_raw args in result ∷ next_args from_raw n args'

-- The arguments after `n` calls of `next_arg`.
pub after_args : {T : Type 0} → (ℕ → Option T) → ℕ → Args → Args
after_args from_raw zero args = args
after_args from_raw (suc n) args = after_args from_raw n (next_arg from_raw args).1
