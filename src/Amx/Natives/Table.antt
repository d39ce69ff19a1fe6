-- ===== src/Amx/Natives/Table.antt =====
-- The entry of a native lies in the table, and its parameters are read back by `Args`
-- (crates/samp-sdk/src/amx.rs, args.rs).
use rust_samp.Base.{
  ℕ, ◌+◌, ◌-◌, ◌*◌, ◌/◌, ◌%◌, ◌≤◌, ◌<◌, ◌≡◌, refl, true, false, List, ◌++◌, map, ◌||◌, length, ltb,
  leb, if◌then◌else◌, arith, Option, inl, inr, Bool-cases, leb→le,
}
use rust_samp.Base.Words.{u32_mod, sign_bit, slt, sle}
use rust_samp.Cell.Args.{next_args, new}
use rust_samp.Cell.Args.Order.{nothing, next_args-new}
use rust_samp.Cell.Error.{index}
use rust_samp.Amx.Scope.{ok, err}
use rust_samp.Amx.Natives.{Header, entry_offset, params_block}

div_le : (a d i : ℕ) → 0 < d → a / d ≤ i → a < (i + 1) * d
div_le a d i pos h = grind arith

div_gt : (a d i : ℕ) → 0 < d → i < a / d → (i + 1) * d ≤ a
div_gt a d i pos h = grind arith

div_self_le : (a d : ℕ) → 0 < d → a / d ≤ a
div_self_le a d pos = grind arith

-- For a table that the header describes, an index, not negative, is refused unless its whole entry
-- lies between `natives` and `libraries`; then its entry is the one at that index.
pub entry_offset_lem :
    (h : Header) (i : ℕ)
    → 0 < h.defsize
    → h.defsize < 0x8000
    → h.natives ≤ h.libraries
    → h.libraries < sign_bit
    → i < sign_bit
    → entry_offset h i ≡ (
        if leb (h.natives + (i + 1) * h.defsize) h.libraries
        then ok (h.natives + i * h.defsize)
        else err index)
unfolding entry_offset
entry_offset_lem h i pos small order top word =
    let n₀ : slt i 0 ≡ false = ground arith in
    let n₁ : (sle h.defsize 0 || ltb h.libraries h.natives) ≡ false = ground arith in
    let q = (h.libraries - h.natives) / h.defsize in
    let q_le : q ≤ h.libraries - h.natives = div_self_le (h.libraries - h.natives) h.defsize pos in
    elim (Bool-cases (leb q i)) [
      | inl past ↦
          let out : sle q i ≡ true = ground arith in
          let lt = div_le (h.libraries - h.natives) h.defsize i pos (leb→le q i past) in
          let room : leb (h.natives + (i + 1) * h.defsize) h.libraries ≡ false = ground arith in
          rw (n₀, n₁, out, room) refl
      | inr inside ↦
          let out : sle q i ≡ false = ground arith in
          let le = div_gt (h.libraries - h.natives) h.defsize i pos (ground arith) in
          let room : leb (h.natives + (i + 1) * h.defsize) h.libraries ≡ true = ground arith in
          rw (n₀, n₁, out, room) refl
    ]

-- A native that reads its arguments from the block that `call_native` builds gets the parameters, in
-- order, and after the last one nothing.
pub next_args-params_block :
    {T : Type 0} (from_raw : ℕ → Option T) (params : List ℕ) (n : ℕ)
    → length params < 0x2000_0000
    → next_args from_raw (length params + n) (new (params_block params))
      ≡ map from_raw params ++ nothing n
unfolding params_block
next_args-params_block from_raw params n h =
    let size : length params * 4 % u32_mod ≡ 4 * length params = omega arith in
    rw size (next_args-new from_raw params n h)
