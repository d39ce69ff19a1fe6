-- ===== src/Amx/Scope/Restore.antt =====
-- Dropping an allocator gives heap and stack back (crates/samp-sdk/src/amx.rs).
use rust_samp.Base.{
  ℕ, ◌≤◌, ◌<◌, ◌≡◌, refl, ap, ◌∙◌, inl, inr, some, ◌&&◌, min, max, arith, Bool-cases,
}
use rust_samp.Base.Words.{sign_bit, slt, sle}
use rust_samp.Amx.Scope.{
  Registers, new, release_hea, release_stk, release_scope, drop_allocator, restore,
}

-- Registers as the virtual machine keeps them: not negative, the stack below its top.
pub record IsLoaded (amx : Registers) : Type 0 where
  pub heap_pos : amx.hea < sign_bit
  pub stack_top : amx.stk ≤ amx.stp
  pub top_pos : amx.stp < sign_bit

-- What was allotted and pushed since `before` is still there, or was taken off again.
pub record Within (before after : Registers) : Type 0 where
  pub heap : before.hea ≤ after.hea
  pub heap_pos : after.hea < sign_bit
  pub stack : after.stk ≤ before.stk
  pub top : after.stp ≡ before.stp

release_hea_min :
    (h : ℕ) (amx : Registers)
    → h < sign_bit
    → amx.hea < sign_bit
    → release_hea h amx ≡ record amx { hea = min h amx.hea }
unfolding release_hea
release_hea_min h amx p q = elim (Bool-cases (sle 0 h && slt h amx.hea)) [
  | inl lower ↦ let e : min h amx.hea ≡ h = ground arith in rw (lower, e) refl
  | inr stays ↦ let e : min h amx.hea ≡ amx.hea = ground arith in rw (stays, e) refl
]

release_stk_max :
    (k : ℕ) (amx : Registers)
    → k ≤ amx.stp
    → amx.stp < sign_bit
    → amx.stk < sign_bit
    → release_stk k amx ≡ record amx { stk = max k amx.stk }
unfolding release_stk
release_stk_max k amx p q r = elim (Bool-cases (sle 0 k && (sle k amx.stp && slt amx.stk k))) [
  | inl higher ↦ let e : max k amx.stk ≡ k = ground arith in rw (higher, e) refl
  | inr stays ↦ let e : max k amx.stk ≡ amx.stk = ground arith in rw (stays, e) refl
]

-- Dropping the allocator made where the machine was `before` frees all that was allotted and pushed
-- since, and nothing else: the heap's top is lowered to where it was, and not raised; the stack's is
-- raised to where it was, and not lowered.
pub drop_allocator-new :
    (before after : Registers)
    → IsLoaded before
    → after.hea < sign_bit
    → after.stk < sign_bit
    → after.stp ≡ before.stp
    → drop_allocator (new (some before)) (some after)
      ≡ some (record {
        hea = min before.hea after.hea;
        stk = max before.stk after.stk;
        stp = after.stp;
        paramcount = after.paramcount;
      })
unfolding drop_allocator new release_scope
drop_allocator-new before after l h k t =
    let a = release_hea_min before.hea after l.heap_pos h in
    ap some (
      ap (release_stk before.stk) a
      ∙ release_stk_max before.stk (record after { hea = min before.hea after.hea })
          (omega (arith, l.stack_top)) (omega (arith, l.top_pos)) k)

pub restore-Within :
    (before after : Registers)
    → IsLoaded before
    → Within before after
    → restore before after ≡ record before { paramcount = after.paramcount }
unfolding restore
restore-Within before after l w =
    let e =
      drop_allocator-new before after l w.heap_pos (omega (arith, l.stack_top, l.top_pos, w.stack))
        w.top in
    let h : min before.hea after.hea ≡ before.hea = omega (arith, w.heap) in
    let s : max before.stk after.stk ≡ before.stk = omega (arith, w.stack) in
    rw (restore, e, h, s, w.top) refl
