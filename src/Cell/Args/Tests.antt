-- ===== src/Cell/Args/Tests.antt =====
-- Three arguments of a call, read again after a reset.
use rust_samp.Base.{ℕ, ◌≡◌, ◌*◌, ◌+◌, some, List, [], ◌∷◌, ◌++◌, length, map, arith}
use rust_samp.Cell.Args.{next_args, reset}
use rust_samp.Cell.Args.Order.{nothing, next_args-reset}

abbrev three : List ℕ
three = 100 ∷ 200 ∷ 300 ∷ []

next_args-reset_example :
    next_args some
      (length three + 2)
      (reset (record { params = 4 * length three ∷ (three ++ 7 ∷ []); offset = 5 }))
    ≡ map some three ++ nothing 2
next_args-reset_example = next_args-reset some three (7 ∷ []) 5 2 (omega arith)
