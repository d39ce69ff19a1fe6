-- ===== src/Amx/Scope/Call/Tests.antt =====
-- A table whose push fails while two arguments are on the stack.
use rust_samp.Base.{
  ℕ, ◌+◌, ◌-◌, ◌<◌, ◌≡◌, refl, ap, subst, ◌⊎◌, inl, inr, some, none, List, [], ◌∷◌, Bool, false,
  ltb, leb, if◌then◌else◌, arith, Bool-cases,
}
use rust_samp.Base.Words.{sign_bit, slt}
use rust_samp.Base.Search.{any}
use rust_samp.Cell.Error.{from_code}
use rust_samp.Amx.Scope.{
  Registers, err, new, restore, drop_allocator, release_scope, release_hea, release_stk,
}
use rust_samp.Amx.Scope.Call.{
  FnTable, PublicArg, cell, string, array, call_public, call_found, run_pushed, push_all, push_next,
  push_to, push_address, push, allot, allotted, find_public, amx_try,
}
use rust_samp.Amx.Scope.Call.Balanced.{
  Allots, Pushes, Runs, Refused, IsDocumented, Restored, call_public-restores,
}

-- A stack with room for two arguments, up to 400.
abbrev has_room : Registers → Bool
has_room r = leb 396 r.stk

abbrev find_in_table : List ℕ → ℕ × ℕ
find_in_table name = (0, 3)

abbrev push_fn : ℕ → Registers → ℕ × Registers
push_fn value r =
    if has_room r then (0, record r { stk = r.stk - 4; paramcount = r.paramcount + 1 }) else (3, r)

abbrev allot_fn : ℕ → Registers → (ℕ × ℕ × ℕ) × Registers
allot_fn cells r = ((0, r.hea, 1), record r { hea = if ltb r.hea 200 then r.hea + 8 else r.hea })

abbrev exec_fn : ℕ → Registers → (ℕ × ℕ) × Registers
exec_fn index r = ((20, 0), r)

abbrev table : FnTable
table = record {
  find_public_fn = some find_in_table;
  push_fn = some push_fn;
  allot_fn = some allot_fn;
  exec_fn = some exec_fn;
}

taken : {A : Type 0} (f g : A) → some f ≡ some g → f ≡ g
taken f g e = ap (λ o. elim o [ none ↦ f | some h ↦ h ]) e

allot_fn-Allots : (cells : ℕ) (r : Registers) → r.hea < sign_bit → Allots r (allot_fn cells r).1
allot_fn-Allots cells r h = record {
  heap = ground arith;
  heap_pos = ground (arith, h);
  rest = refl;
}

push_fn-Pushes :
    (value : ℕ) (r : Registers)
    → Refused (push_fn value r).0 r (push_fn value r).1
      ⊎ ((slt 0 (push_fn value r).0 ≡ false) × Pushes r (push_fn value r).1)
push_fn-Pushes value r = elim (Bool-cases (has_room r)) [
  | inl room ↦
      let enough : r.stk - 4 + 4 ≡ r.stk = ground (arith, room) in
      rw room (inr (refl, record { stack = enough; rest = refl }))
  | inr full ↦ rw full (inl (refl, refl))
]

table-IsDocumented : IsDocumented table
table-IsDocumented = record {
  allots = λ f e.
      subst
        (λ (g : ℕ → Registers → (ℕ × ℕ × ℕ) × Registers).
          (cells : ℕ) (r : Registers) → r.hea < sign_bit → Allots r (g cells r).1)
        (taken allot_fn f e) allot_fn-Allots;
  pushes = λ f e.
      subst
        (λ (g : ℕ → Registers → ℕ × Registers).
          (value : ℕ) (r : Registers)
          → Refused (g value r).0 r (g value r).1
            ⊎ ((slt 0 (g value r).0 ≡ false) × Pushes r (g value r).1))
        (taken push_fn f e) push_fn-Pushes;
  runs = λ f e.
      subst
        (λ (g : ℕ → Registers → (ℕ × ℕ) × Registers).
          (index : ℕ) (r : Registers)
          → r.hea < sign_bit
          → Refused (g index r).0.0 r (g index r).1 ⊎ Runs r (g index r).1)
        (taken exec_fn f e) (λ index r h. inl (refl, refl));
}

abbrev amx : Registers
amx = record { hea = 100; stk = 400; stp = 500; paramcount = 0 }

abbrev args : List PublicArg
args = cell 7 ∷ string (97 ∷ []) ∷ array (1 ∷ 2 ∷ []) ∷ []

-- The push of the first argument fails, and the two others stay counted.
stays_counted :
    call_public table (97 ∷ []) args amx ≡ (err (from_code 3), record amx { paramcount = 2 })
unfolding call_public call_found run_pushed push_all push_next push_to push_address push allot
    allotted find_public amx_try any restore drop_allocator new release_scope release_hea
    release_stk
stays_counted = refl

call_public-restores_example : Restored amx 3 (call_public table (97 ∷ []) args amx)
call_public-restores_example =
    call_public-restores table (97 ∷ []) args amx table-IsDocumented
      (record { heap_pos = omega arith; stack_top = omega arith; top_pos = omega arith }) refl
