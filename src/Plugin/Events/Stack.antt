-- ===== src/Plugin/Events/Stack.antt =====
-- The arguments of a public on the script's stack (crates/samp/src/events.rs).
use rust_samp.Base.{ℕ, ◌+◌, ◌*◌, ◌<◌, ◌≡◌, refl, ap, false, some, List, [], ◌∷◌, length, arith}
use rust_samp.Base.Words.{sign_bit, slt}
use rust_samp.Amx.Memory.{Vm, read_cell, checked_add}
use rust_samp.Cell.Args.{Args}
use rust_samp.Cell.Args
use rust_samp.Plugin.Events.{Machine, read_params, checked_bytes, read_stack_params}

-- The cells lie one after another from the address.
abbrev pub OnStack : Vm → ℕ → List ℕ → Type 0
OnStack vm addr [] = Unit
OnStack vm addr (cell ∷ cells) = (read_cell vm addr ≡ some cell) × OnStack vm (addr + 4) cells

positive : (n : ℕ) → n < sign_bit → slt n 0 ≡ false
positive n h = ground (arith, h)

checked_add-small : (addr n : ℕ) → addr + n < sign_bit → checked_add addr n ≡ some (addr + n)
unfolding checked_add
checked_add-small addr n h = rw (checked_add, positive addr (omega (arith, h))) (ground (arith, h))

read_params-OnStack :
    (vm : Vm) (addr : ℕ) (cells : List ℕ)
    → addr + 4 * length cells < sign_bit
    → OnStack vm addr cells
    → read_params vm (length cells) addr ≡ some cells
unfolding read_params
read_params-OnStack vm addr [] h on = refl
read_params-OnStack vm addr (cell ∷ cells) h (here, on) =
    rw
      (
        read_params,
        here,
        checked_add-small addr 4 (omega (arith, h)),
        read_params-OnStack vm (addr + 4) cells (omega (arith, h)) on,
      )
      refl

checked_bytes-small : (n : ℕ) → n * 4 < sign_bit → checked_bytes n ≡ some (4 * n)
unfolding checked_bytes
checked_bytes-small n h = ground (arith, h)

pub read_stack_params-OnStack :
    (m : Machine) (cells : List ℕ)
    → m.paramcount ≡ length cells
    → m.vm.stk + 4 * length cells < sign_bit
    → OnStack m.vm m.vm.stk cells
    → read_stack_params m ≡ some (4 * length cells ∷ cells)
unfolding read_stack_params
read_stack_params-OnStack m cells count h on =
    rw
      (
        read_stack_params,
        positive m.paramcount (omega (arith, h, count)),
        checked_bytes-small m.paramcount (omega (arith, h, count)),
        count,
        read_params-OnStack m.vm m.vm.stk cells h on,
      )
      (ap (λ n. some (4 * n ∷ cells)) count)

-- The machine with its arguments off the stack.
abbrev pub popped : Machine → Machine
popped m = record { vm = record m.vm { stk = m.vm.stk + 4 * m.paramcount }; paramcount = 0 }
