-- ===== src/Amx/Scope/Call.antt =====
-- crates/samp-sdk/src/call.rs and amx.rs: `call_public`, with the arguments that it pushes. The functions
-- of the server's table are a parameter, `none` where a slot is empty; a machine without a table has
-- only empty slots. What is written to the cells that were allotted is left out.
pub mod Balanced
mod Tests
use rust_samp.Base.{
  ℕ, zero, suc, ◌+◌, Bool, true, false, Option, none, some, List, [], ◌∷◌, length, leb, ◌==◌,
  if◌then◌else◌,
}
use rust_samp.Base.Words.{sign_bit, slt}
use rust_samp.Base.Search.{any}
use rust_samp.Cell.Error.{AmxError, from_code, not_found, memory}
use rust_samp.Amx.Scope.{Registers, Result, ok, err, restore}

-- `amx_FindPublic`, `amx_Push`, `amx_Allot` and `amx_Exec`: a code, and what they write.
pub record FnTable : Type 0 where
  pub find_public_fn : Option (List ℕ → ℕ × ℕ)
  pub push_fn : Option (ℕ → Registers → ℕ × Registers)
  -- The address in the machine and the physical one.
  pub allot_fn : Option (ℕ → Registers → (ℕ × ℕ × ℕ) × Registers)
  pub exec_fn : Option (ℕ → Registers → (ℕ × ℕ) × Registers)

-- What is pushed for an argument: a cell, or the address of a copy on the heap. A text is given by its
-- encoded bytes.
pub data PublicArg : Type 0 where
  cell : ℕ → PublicArg
  string : List ℕ → PublicArg
  array : List ℕ → PublicArg

-- `amx_try!`.
pub amx_try : {A : Type 0} → ℕ → A → Result A
amx_try code a = if slt 0 code then err (from_code code) else ok a

module _ (table : FnTable) where
  pub find_public : List ℕ → Result ℕ
  find_public name = elim table.find_public_fn [
    | none ↦ err not_found
    | some f ↦
        if any (λ c. c == 0) name
        then err not_found
        else (let (code, index) = f name in amx_try code index)
  ]

  pub push : ℕ → Registers → Result (Unit {0}) × Registers
  push value amx = elim table.push_fn [
    | none ↦ (err not_found, amx)
    | some f ↦ let (code, after) = f value amx in (amx_try code tt, after)
  ]

  allotted : ℕ × ℕ × ℕ → Result ℕ
  allotted (code, amx_addr, phys_addr) =
      if slt 0 code
      then err (from_code code)
      else if phys_addr == 0
      then err memory
      else ok amx_addr

  -- The address of that many cells.
  pub allot : ℕ → Registers → Result ℕ × Registers
  unfolding allotted
  allot cells amx = if leb sign_bit cells then (err memory, amx) else elim table.allot_fn [
    | none ↦ (err not_found, amx)
    | some f ↦ let (answer, after) = f cells amx in (allotted answer, after)
  ]

  pub push_address : Result ℕ × Registers → Result (Unit {0}) × Registers
  push_address (err e, amx) = (err e, amx)
  push_address (ok address, amx) = push address amx

  -- A text has a terminator behind it.
  pub push_to : PublicArg → Registers → Result (Unit {0}) × Registers
  push_to (cell value) amx = push value amx
  push_to (string bytes) amx = push_address (allot (length bytes + 1) amx)
  push_to (array cells) amx = push_address (allot (length cells) amx)

  pub push_next : PublicArg → Result (Unit {0}) × Registers → Result (Unit {0}) × Registers
  push_next arg (err e, amx) = (err e, amx)
  push_next arg (ok u, amx) = push_to arg amx

  -- The last one first.
  pub push_all : List PublicArg → Registers → Result (Unit {0}) × Registers
  push_all [] amx = (ok tt, amx)
  push_all (arg ∷ args) amx = push_next arg (push_all args amx)

  pub exec : ℕ → Registers → Result ℕ × Registers
  exec index amx = elim table.exec_fn [
    | none ↦ (err not_found, amx)
    | some f ↦ let ((code, retval), after) = f index amx in (amx_try code retval, after)
  ]

  -- Whatever happens, the allocator is dropped where the call returns.
  pub run_pushed : ℕ → Registers → Result (Unit {0}) × Registers → Result ℕ × Registers
  run_pushed index before (err e, amx) = (err e, restore before amx)
  run_pushed index before (ok u, amx) =
      let (ret, after) = exec index amx in (ret, restore before after)

  pub call_found : List PublicArg → Registers → Result ℕ → Result ℕ × Registers
  call_found args amx (err e) = (err e, amx)
  call_found args amx (ok index) = run_pushed index amx (push_all args amx)

  pub call_public : List ℕ → List PublicArg → Registers → Result ℕ × Registers
  call_public name args amx = call_found args amx (find_public name)
