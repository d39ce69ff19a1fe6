-- ===== src/Debug/Stack.antt =====
-- crates/samp-sdk/src/debug/stack.rs: the walk over the chain of call frames. Addresses and cells are
-- the bit patterns of 32-bit integers, compared as signed ones; `frm + CELL` wraps, as it does where
-- overflow checks are off.
pub mod Chain
mod Tests
use rust_samp.Base.{ℕ, zero, suc, Bool, true, false, Option, none, some, List, [], ◌∷◌, ◌||◌}
use rust_samp.Base.Words.{wrapping_add, sle}

abbrev pub cell_size : ℕ
cell_size = 4

abbrev pub max_depth : ℕ
max_depth = 128

-- A return address, and the frame it returns to.
abbrev pub Frame : Type 0
Frame = ℕ × ℕ

module _ (stp : ℕ) (read_cell : ℕ → Option ℕ) where
  -- The frame header does not fit inside the stack.
  pub outside : ℕ → Bool
  outside frm = sle frm 0 || sle stp (wrapping_add frm cell_size)

  -- The two cells of a frame's header, where both can be read.
  pub read_header : ℕ → Option Frame
  read_header frm = elim (read_cell (wrapping_add frm cell_size)) [
    | none ↦ none
    | some ret ↦ elim (read_cell frm) [ none ↦ none | some prev ↦ some (ret, prev) ]
  ]

  -- The frames that the loop pushes, from the frame `frm`, in at most `n` rounds.
  pub walk_from : ℕ → ℕ → List Frame
  walk_from zero frm = []
  walk_from (suc n) frm = elim (outside frm) [
    | true ↦ []
    | false ↦ elim (read_header frm) [
      | none ↦ []
      | some (ret, prev) ↦ elim (sle ret 0) [
        | true ↦ []
        | false ↦ elim (sle prev frm || sle stp prev) [
          | true ↦ (ret, prev) ∷ []
          | false ↦ (ret, prev) ∷ walk_from n prev
        ]
      ]
    ]
  ]

  pub walk : ℕ → ℕ → List Frame
  walk top_cip top_frm = (top_cip, top_frm) ∷ walk_from max_depth top_frm
