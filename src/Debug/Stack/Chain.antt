-- ===== src/Debug/Stack/Chain.antt =====
-- What crates/samp-sdk/src/debug/stack.rs returns: a chain of frames, read from the stack.
use rust_samp.Base.{
  ℕ, zero, suc, ◌≤◌, ◌<◌, ◌≡◌, refl, ◌⊎◌, inl, inr, false, Option, some, List, [], ◌∷◌, ◌||◌,
  length, arith, Bool-cases, Option-cases,
}
use rust_samp.Base.Words.{wrapping_add, sle, bias}
use rust_samp.Debug.Stack.{cell_size, max_depth, Frame, outside, read_header, walk_from, walk}

module _ (stp : ℕ) (read_cell : ℕ → Option ℕ) where
  -- Each frame but the first is the header of the one before it, which lies inside the stack and
  -- has a positive return address; and each frame that has another after it lies above the one
  -- before it and below the top of the stack.
  abbrev pub IsChain : ℕ → List Frame → Type 0
  IsChain frm [] = Unit
  IsChain frm ((ret, prev) ∷ rest) =
      (bias 0 < bias frm)
      × (bias (wrapping_add frm cell_size) < bias stp)
      × (read_cell (wrapping_add frm cell_size) ≡ some ret)
      × (read_cell frm ≡ some prev)
      × (bias 0 < bias ret)
      × ((rest ≡ []) ⊎ ((bias frm < bias prev) × (bias prev < bias stp)))
      × IsChain prev rest

  read_header-cells :
      (frm ret prev : ℕ)
      → read_header stp read_cell frm ≡ some (ret, prev)
      → (read_cell (wrapping_add frm cell_size) ≡ some ret) × (read_cell frm ≡ some prev)
  unfolding read_header
  read_header-cells frm ret prev e = ground arith

  inside :
      (frm : ℕ)
      → outside stp read_cell frm ≡ false
      → (bias 0 < bias frm) × (bias (wrapping_add frm cell_size) < bias stp)
  unfolding outside
  inside frm e = ground arith

  walk_from-IsChain : (n frm : ℕ) → IsChain frm (walk_from stp read_cell n frm)
  unfolding walk_from
  walk_from-IsChain zero frm = tt
  walk_from-IsChain (suc n) frm = elim (Bool-cases (outside stp read_cell frm)) [
    | inl out ↦ rw (out, walk_from) tt
    | inr fits ↦ elim (Option-cases (read_header stp read_cell frm)) [
      | inl unread ↦ rw (fits, unread, walk_from) tt
      | inr ((ret, prev), read) ↦ elim (Bool-cases (sle ret 0)) [
        | inl bottom ↦ rw (fits, read, bottom, walk_from) tt
        | inr call ↦
            let cells = read_header-cells frm ret prev read in
            let room = inside frm fits in
            elim (Bool-cases (sle prev frm || sle stp prev)) [
              | inl last ↦
                  rw (fits, read, call, last, walk_from)
                    (room.0, room.1, cells.0, cells.1, ground arith, inl refl, tt)
              | inr more ↦
                  rw (fits, read, call, more, walk_from)
                    (
                      room.0,
                      room.1,
                      cells.0,
                      cells.1,
                      ground arith,
                      inr (ground arith, ground arith),
                      walk_from-IsChain n prev,
                    )
            ]
      ]
    ]
  ]

  length-walk_from : (n frm : ℕ) → length (walk_from stp read_cell n frm) ≤ n
  unfolding walk_from
  length-walk_from zero frm = omega arith
  length-walk_from (suc n) frm = grind (arith, λ (p : ℕ). length-walk_from n p)

  -- The call stack starts with the frame given, has at most 129 frames, and is a chain.
  pub walk-IsChain :
      (top_cip top_frm : ℕ)
      → (rest : List Frame) × (walk stp read_cell top_cip top_frm ≡ (top_cip, top_frm) ∷ rest)
        × (length rest ≤ max_depth)
        × IsChain top_frm rest
  unfolding walk
  walk-IsChain top_cip top_frm = (
    walk_from stp read_cell max_depth top_frm,
    refl,
    length-walk_from max_depth top_frm,
    walk_from-IsChain max_depth top_frm,
  )
