-- ===== src/Debug/Stack/Tests.antt =====
-- A stack of two calls for crates/samp-sdk/src/debug/stack.rs.
use rust_samp.Base.{
  ℕ, ◌≤◌, ◌≡◌, refl, Option, none, some, List, [], ◌∷◌, length, ◌==◌, if◌then◌else◌,
}
use rust_samp.Debug.Stack.{Frame, max_depth, walk, walk_from, outside, read_header}
use rust_samp.Debug.Stack.Chain.{IsChain, walk-IsChain}

-- The frame at 100 returns to 64 in the frame at 200, which the server entered.
abbrev cells : ℕ → Option ℕ
cells a =
    if a == 100
    then some 200
    else if a == 104
    then some 64
    else if a == 200
    then some 0
    else if a == 204
    then some 0
    else none

walk-cells : walk 1_000 cells 16 100 ≡ (16, 100) ∷ (64, 200) ∷ []
unfolding walk walk_from outside read_header
walk-cells = refl

walk-IsChain_example :
    (rest : List Frame) × (walk 1_000 cells 16 100 ≡ (16, 100) ∷ rest)
    × (length rest ≤ max_depth)
    × IsChain 1_000 cells 100 rest
walk-IsChain_example = walk-IsChain 1_000 cells 16 100
