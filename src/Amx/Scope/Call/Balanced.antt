-- ===== src/Amx/Scope/Call/Balanced.antt =====
-- A call leaves heap and stack as it found them (crates/samp-sdk/src/call.rs and amx.rs).
use rust_samp.Base.{
  ℕ, suc, ◌+◌, ◌*◌, ◌≤◌, ◌<◌, ◌≡◌, refl, ap, sym, ◌∙◌, inl, inr, ◌⊎◌, true, false, some, List, [],
  ◌∷◌, length, leb, arith, Bool-cases, Option-cases,
}
use rust_samp.Base.Words.{sign_bit, slt}
use rust_samp.Cell.Error.{AmxError, from_code, not_found}
use rust_samp.Amx.Scope.{Registers, Result, ok, err, restore}
use rust_samp.Amx.Scope.Restore.{IsLoaded, Within, restore-Within}
use rust_samp.Amx.Scope.Call.{
  FnTable, PublicArg, cell, string, array, amx_try, push, allot, push_address, push_to, push_next,
  push_all, find_public, exec, run_pushed, call_found, call_public,
}

-- Allotting raises the heap's top, or fails.
pub record Allots (before after : Registers) : Type 0 where
  pub heap : before.hea ≤ after.hea
  pub heap_pos : after.hea < sign_bit
  pub rest : after ≡ record before { hea = after.hea }

-- A push puts a cell on the stack and counts it.
pub record Pushes (before after : Registers) : Type 0 where
  pub stack : after.stk + 4 ≡ before.stk
  pub rest : after ≡ record before { stk = after.stk; paramcount = before.paramcount + 1 }

-- A public that runs uses up the arguments that were pushed, and may leave cells on heap and stack.
pub record Runs (before after : Registers) : Type 0 where
  pub heap : before.hea ≤ after.hea
  pub heap_pos : after.hea < sign_bit
  pub stack : after.stk ≤ before.stk + 4 * before.paramcount
  pub top : after.stp ≡ before.stp
  pub used_up : after.paramcount ≡ 0

-- With a code above zero nothing changed.
abbrev pub Refused : ℕ → Registers → Registers → Type 0
Refused code before after = (slt 0 code ≡ true) × (after ≡ before)

-- What the functions of the server do.
pub record IsDocumented (table : FnTable) : Type 0 where
  pub allots :
      (f : ℕ → Registers → (ℕ × ℕ × ℕ) × Registers)
      → table.allot_fn ≡ some f
      → (cells : ℕ) (amx : Registers) → amx.hea < sign_bit
      → Allots amx (f cells amx).1
  pub pushes :
      (f : ℕ → Registers → ℕ × Registers)
      → table.push_fn ≡ some f
      → (value : ℕ) (amx : Registers)
      → Refused (f value amx).0 amx (f value amx).1
        ⊎ ((slt 0 (f value amx).0 ≡ false) × Pushes amx (f value amx).1)
  pub runs :
      (f : ℕ → Registers → (ℕ × ℕ) × Registers)
      → table.exec_fn ≡ some f
      → (index : ℕ) (amx : Registers) → amx.hea < sign_bit
      → Refused (f index amx).0.0 amx (f index amx).1 ⊎ Runs amx (f index amx).1

-- The machine with `n` arguments on its stack, seen from before the first.
pub record Pushed (before : Registers) (n : ℕ) (after : Registers) : Type 0 where
  pub heap : before.hea ≤ after.hea
  pub heap_pos : after.hea < sign_bit
  pub stack : after.stk + 4 * n ≡ before.stk
  pub top : after.stp ≡ before.stp
  pub count : after.paramcount ≡ n

-- All of them were pushed, or only some.
abbrev After : Registers → ℕ → Result (Unit {0}) × Registers → Type 0
After before n (ok u, amx) = Pushed before n amx
After before n (err e, amx) = (j : ℕ) × (j ≤ n) × Pushed before j amx

Allots-Pushed :
    (before amx after : Registers) (n : ℕ)
    → Pushed before n amx
    → Allots amx after
    → Pushed before n after
Allots-Pushed before amx after n p a = record {
  heap = omega (arith, p.heap, a.heap);
  heap_pos = a.heap_pos;
  stack = ap (λ (r : Registers). r.stk + 4 * n) a.rest ∙ p.stack;
  top = ap (λ (r : Registers). r.stp) a.rest ∙ p.top;
  count = ap (λ (r : Registers). r.paramcount) a.rest ∙ p.count;
}

Pushes-Pushed :
    (before amx after : Registers) (n : ℕ)
    → Pushed before n amx
    → Pushes amx after
    → Pushed before (suc n) after
Pushes-Pushed before amx after n p s =
    let h : after.hea ≡ amx.hea = ap (λ (r : Registers). r.hea) s.rest in
    record {
      heap = omega (arith, p.heap, h);
      heap_pos = omega (arith, p.heap_pos, h);
      stack = omega (arith, p.stack, s.stack);
      top = ap (λ (r : Registers). r.stp) s.rest ∙ p.top;
      count = ap (λ (r : Registers). r.paramcount) s.rest ∙ omega (arith, p.count);
    }

module _ (table : FnTable) (d : IsDocumented table) (before : Registers) where
  push-After :
      (value n : ℕ) (amx : Registers)
      → Pushed before n amx
      → After before (suc n) (push table value amx)
  unfolding push amx_try
  push-After value n amx p = elim (Option-cases table.push_fn) [
    | inl e ↦ rw (push, e) (n, omega arith, p)
    | inr (f, e) ↦ elim (d.pushes f e value amx) [
      | inl (failed, same) ↦ rw (push, e, amx_try, failed, same) (n, omega arith, p)
      | inr (done, s) ↦ rw (push, e, amx_try, done) (Pushes-Pushed before amx (f value amx).1 n p s)
    ]
  ]

  allot-Pushed :
      (cells n : ℕ) (amx : Registers)
      → Pushed before n amx
      → Pushed before n (allot table cells amx).1
  unfolding allot
  allot-Pushed cells n amx p = elim (Bool-cases (leb sign_bit cells)) [
    | inl large ↦ rw (allot, large) p
    | inr fits ↦ elim (Option-cases table.allot_fn) [
      | inl e ↦ rw (allot, fits, e) p
      | inr (f, e) ↦
          rw (allot, fits, e)
            (Allots-Pushed before amx (f cells amx).1 n p (d.allots f e cells amx p.heap_pos))
    ]
  ]

  push_address-After :
      (r : Result ℕ × Registers) (n : ℕ)
      → Pushed before n r.1
      → After before (suc n) (push_address table r)
  unfolding push_address
  push_address-After (err e, amx) n p = (n, omega arith, p)
  push_address-After (ok address, amx) n p = push-After address n amx p

  push_to-After :
      (arg : PublicArg) (n : ℕ) (amx : Registers)
      → Pushed before n amx
      → After before (suc n) (push_to table arg amx)
  unfolding push_to
  push_to-After (cell value) n amx p = push-After value n amx p
  push_to-After (string bytes) n amx p =
      push_address-After (allot table (length bytes + 1) amx) n
        (allot-Pushed (length bytes + 1) n amx p)
  push_to-After (array cells) n amx p =
      push_address-After (allot table (length cells) amx) n (allot-Pushed (length cells) n amx p)

  push_next-After :
      (arg : PublicArg) (n : ℕ) (r : Result (Unit {0}) × Registers)
      → After before n r
      → After before (suc n) (push_next table arg r)
  unfolding push_next
  push_next-After arg n (err e, amx) (j, le, p) = (j, omega (arith, le), p)
  push_next-After arg n (ok u, amx) p = push_to-After arg n amx p

  push_all-After :
      (args : List PublicArg)
      → Pushed before 0 before
      → After before (length args) (push_all table args before)
  unfolding push_all
  push_all-After [] p = p
  push_all-After (arg ∷ args) p =
      push_next-After arg (length args) (push_all table args before) (push_all-After args p)

  Pushed-Within : (n : ℕ) (after : Registers) → Pushed before n after → Within before after
  Pushed-Within n after p = record {
    heap = p.heap;
    heap_pos = p.heap_pos;
    stack = omega (arith, p.stack);
    top = p.top;
  }

  -- The public ran, or the call failed with the arguments still on the stack.
  abbrev Ran : ℕ → Result ℕ × Registers → Type 0
  Ran n (ret, after) =
      (Within before after × (after.paramcount ≡ 0))
      ⊎ ((e : AmxError) × (ret ≡ err e) × Pushed before n after)

  exec-Ran : (index n : ℕ) (amx : Registers) → Pushed before n amx → Ran n (exec table index amx)
  unfolding exec amx_try
  exec-Ran index n amx p = elim (Option-cases table.exec_fn) [
    | inl e ↦ rw (exec, e) (inr (not_found, refl, p))
    | inr (f, e) ↦ elim (d.runs f e index amx p.heap_pos) [
      | inl (failed, same) ↦
          rw (exec, e, amx_try, failed, same) (inr (from_code (f index amx).0.0, refl, p))
      | inr r ↦
          rw (exec, e)
            (inl (
              record {
                heap = omega (arith, p.heap, r.heap);
                heap_pos = r.heap_pos;
                stack = omega (arith, p.stack, p.count, r.stack);
                top = r.top ∙ p.top;
              },
              r.used_up,
            ))
    ]
  ]

-- What a call with `n` arguments leaves: the registers as they were, but that a call that fails may leave arguments counted, none of which is on the stack any more.
abbrev pub Restored : Registers → ℕ → Result ℕ × Registers → Type 0
Restored before n (ret, after) =
    (after ≡ before)
    ⊎ ((e : AmxError) × (ret ≡ err e)
        × (k : ℕ) × (k ≤ n)
        × (after ≡ record before { paramcount = k }))

module _ (table : FnTable) (d : IsDocumented table) (before : Registers) (l : IsLoaded before)
    (nothing_pushed : before.paramcount ≡ 0) where
  restore-count :
      (after : Registers) (k : ℕ)
      → Within before after
      → after.paramcount ≡ k
      → restore before after ≡ record before { paramcount = k }
  restore-count after k w e =
      restore-Within before after l w ∙ ap (λ c. record before { paramcount = c }) e

  run_ended :
      (n : ℕ) (ret : Result ℕ) (after : Registers)
      → Ran table d before n (ret, after)
      → Restored before n (ret, restore before after)
  run_ended n ret after (inl (w, used_up)) =
      inl (restore-count after before.paramcount w (used_up ∙ sym nothing_pushed))
  run_ended n ret after (inr (e, failed, p)) = inr (
    e,
    failed,
    n,
    omega arith,
    restore-count after n (Pushed-Within table d before n after p) p.count,
  )

  run_pushed-Restored :
      (index n : ℕ) (r : Result (Unit {0}) × Registers)
      → After before n r
      → Restored before n (run_pushed table index before r)
  unfolding run_pushed
  run_pushed-Restored index n (err e, amx) (j, le, p) =
      inr (e, refl, j, le, restore-count amx j (Pushed-Within table d before j amx p) p.count)
  run_pushed-Restored index n (ok u, amx) p =
      run_ended n (exec table index amx).0 (exec table index amx).1
        (exec-Ran table d before index n amx p)

  call_found-Restored :
      (args : List PublicArg) (found : Result ℕ)
      → Restored before (length args) (call_found table args before found)
  unfolding call_found
  call_found-Restored args (err e) = inl refl
  call_found-Restored args (ok index) =
      run_pushed-Restored index (length args) (push_all table args before) (
        push_all-After table d before args (record {
          heap = omega arith;
          heap_pos = l.heap_pos;
          stack = omega arith;
          top = refl;
          count = nothing_pushed;
        }))

-- Where the server's functions do what is documented and no argument was pushed before, a call of a public leaves the tops of heap and stack where they were on every path: the public is not found, an allotment or a push fails part-way, the public is refused, or it runs, with success or with an error. On success the count of pushed arguments is as before too; a call that fails may leave it above zero, at most the number of the call's arguments, since what restores the stack does not reset it.
pub call_public-restores :
    (table : FnTable) (name : List ℕ) (args : List PublicArg) (amx : Registers)
    → IsDocumented table
    → IsLoaded amx
    → amx.paramcount ≡ 0
    → Restored amx (length args) (call_public table name args amx)
unfolding call_public
call_public-restores table name args amx d l none_pushed =
    call_found-Restored table d amx l none_pushed args (find_public table name)
