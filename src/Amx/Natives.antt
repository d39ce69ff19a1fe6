-- ===== src/Amx/Natives.antt =====
-- crates/samp-sdk/src/amx.rs: `call_native`, which finds the entry of a native in the table between
-- the header's fields `natives` and `libraries`, and calls it with a block of parameters. Numbers of
-- the header are not negative, except that `index` and `defsize` may be, as bit patterns of 32 bits;
-- `find_native` and the native itself are the server's.
pub mod Table
mod Tests
use rust_samp.Base.{
  ℕ, ◌+◌, ◌-◌, ◌*◌, ◌/◌, ◌%◌, Bool, true, false, Option, none, some, List, [], ◌∷◌, ◌||◌, length,
  ltb, leb, ◌==◌, if◌then◌else◌,
}
use rust_samp.Base.Words.{u32_mod, slt, sle}
use rust_samp.Cell.Error.{AmxError, from_code, not_found, memory_access, index}
use rust_samp.Amx.Memory.{copy_word}
use rust_samp.Amx.Scope.{Result, ok, err}

pub record Header : Type 0 where
  pub natives : ℕ
  pub libraries : ℕ
  pub defsize : ℕ

-- The checks before the entry is read; what is left is its offset from the base.
pub entry_offset : Header → ℕ → Result ℕ
entry_offset h native_index =
    if slt native_index 0
    then err not_found
    else if sle h.defsize 0 || ltb h.libraries h.natives
    then err memory_access
    else if sle ((h.libraries - h.natives) / h.defsize) native_index
    then err index
    else ok (h.natives + native_index * h.defsize)

-- The function's address in the entry.
pub read_entry : Option (List ℕ) → ℕ → Result ℕ
read_entry none entry = err memory_access
read_entry (some base) entry =
    let address = copy_word base entry in if address == 0 then err not_found else ok address

-- `[argc * sizeof(cell), arg0, arg1, ...]`.
pub params_block : List ℕ → List ℕ
params_block params = (length params * 4 % u32_mod) ∷ params

-- The native gives its value and leaves `amx.error`.
pub run_native : (ℕ → List ℕ → ℕ × ℕ) → List ℕ → Result ℕ → Result ℕ
run_native native params (err e) = err e
run_native native params (ok address) =
    let (retval, error) = native address (params_block params) in
    if slt 0 error then err (from_code error) else ok retval

pub locate : Header → Option (List ℕ) → Result ℕ → Result ℕ
locate h base (err e) = err e
locate h base (ok entry) = read_entry base entry

pub entry_of : Header → Result ℕ → Result ℕ
entry_of h (err e) = err e
entry_of h (ok native_index) = entry_offset h native_index

pub call_native : (ℕ → List ℕ → ℕ × ℕ) → Header → Option (List ℕ) → Result ℕ → List ℕ → Result ℕ
call_native native h base found params = run_native native params (locate h base (entry_of h found))
