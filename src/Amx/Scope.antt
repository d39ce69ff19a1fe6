-- ===== src/Amx/Scope.antt =====
-- crates/samp-sdk/src/amx.rs: `Allocator`, which restores the tops of heap and stack where a call
-- ends. Registers are the bit patterns of 32-bit integers.
pub mod Call
pub mod Restore
use rust_samp.Base.{ℕ, Bool, true, false, Option, none, some, ◌&&◌, if◌then◌else◌}
use rust_samp.Base.Words.{slt, sle}
use rust_samp.Cell.Error.{AmxError}

pub record Registers : Type 0 where
  pub hea : ℕ
  pub stk : ℕ
  pub stp : ℕ
  pub paramcount : ℕ

-- The registers' values that an allocator restores.
pub record Allocator : Type 0 where
  pub release_hea : ℕ
  pub release_stk : ℕ

-- `none` is a null machine.
pub new : Option Registers → Allocator
new none = record { release_hea = 0; release_stk = 0 }
new (some amx) = record { release_hea = amx.hea; release_stk = amx.stk }

pub release_hea : ℕ → Registers → Registers
release_hea hea amx = if sle 0 hea && slt hea amx.hea then record amx { hea = hea } else amx

pub release_stk : ℕ → Registers → Registers
release_stk stk amx =
    if sle 0 stk && (sle stk amx.stp && slt amx.stk stk) then record amx { stk = stk } else amx

pub release_scope : ℕ → ℕ → Option Registers → Option Registers
release_scope hea stk none = none
release_scope hea stk (some amx) = some (release_stk stk (release_hea hea amx))

-- `drop`.
pub drop_allocator : Allocator → Option Registers → Option Registers
drop_allocator a amx = release_scope a.release_hea a.release_stk amx

pub data Result (A : Type 0) : Type 0 where
  ok : A → Result A
  err : AmxError → Result A

-- The machine after the allocator that was made `before` is dropped.
pub restore : Registers → Registers → Registers
restore before after = elim (drop_allocator (new (some before)) (some after)) [
  | none ↦ after
  | some amx ↦ amx
]
