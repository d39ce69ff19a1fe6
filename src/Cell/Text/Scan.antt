-- ===== src/Cell/Text/Scan.antt =====
-- The search for the end of a string in blocks of cells, in crates/samp-sdk/src/cell/string.rs.
use rust_samp.Base.Slices.{drop-add}
use rust_samp.Base.{
  ℕ, zero, suc, ◌+◌, ◌*◌, ◌≤◌, ◌≡◌, refl, ap, sym, ◌∙◌, inl, inr, Bool, true, false, arith,
  Bool-cases, Option-cases, Option, none, some, List, [], ◌∷◌, take, drop, length, length-drop,
}
use rust_samp.Base.Search.{position}
use rust_samp.Cell.Text.{block_size, chunks, block_ends, find_cell}

abbrev pub shift : ℕ → Option ℕ → Option ℕ
shift n none = none
shift n (some i) = some (n + i)

pub shift-shift : (m n k : ℕ) (o : Option ℕ) → k ≡ m + n → shift m (shift n o) ≡ shift k o
shift-shift m n k none e = refl
shift-shift m n k (some i) e = ap some (omega arith)

pub shift_zero : (o : Option ℕ) → shift 0 o ≡ o
shift_zero none = refl
shift_zero (some i) = ap some (omega arith)

module _ {A : Type 0} (p : A → Bool) where
  pub position-cons :
      (x : A) (xs : List A) → p x ≡ false → position p (x ∷ xs) ≡ shift 1 (position p xs)
  unfolding position
  position-cons x xs miss = elim (Option-cases (position p xs)) [
    | inl e ↦ rw (miss, e) refl
    | inr (i, e) ↦ rw (miss, e) (ap some (omega arith))
  ]

  pub position_nil : position p [] ≡ none
  unfolding position
  position_nil = refl

  pub position_hit : (x : A) (xs : List A) → p x ≡ true → position p (x ∷ xs) ≡ some 0
  unfolding position
  position_hit x xs hit = rw hit refl

module _ (p : ℕ → Bool) where
  -- What a search skips that finds nothing in the first `n`.
  position-drop :
      (n : ℕ) (xs : List ℕ)
      → position p (take n xs) ≡ none
      → position p xs ≡ shift n (position p (drop n xs))
  unfolding position
  position-drop zero xs e = sym (shift_zero _)
  position-drop (suc n) [] e = refl
  position-drop (suc n) (x ∷ xs) e = elim (Bool-cases (p x)) [
    | inl hit ↦ absurd (ground arith)
    | inr miss ↦
        let inner : position p (take n xs) ≡ none = ground arith in
        position-cons p x xs miss
        ∙ rw (position-drop n xs inner) (shift-shift 1 n (suc n) _ (omega arith))
  ]

  block_ends-true : (block : List ℕ) → block_ends p true block ≡ true
  unfolding block_ends
  block_ends-true [] = refl
  block_ends-true (x ∷ xs) = block_ends-true xs

  -- A block of which no cell ends the string has none to find.
  block_ends-none : (block : List ℕ) → block_ends p false block ≡ false → position p block ≡ none
  unfolding block_ends position
  block_ends-none [] e = refl
  block_ends-none (x ∷ xs) e = elim (Bool-cases (p x)) [
    | inl hit ↦ absurd (ground (arith, block_ends-true xs))
    | inr miss ↦ rw (miss, block_ends-none xs (ground arith)) refl
  ]

  -- The search from the start of a block.
  abbrev from_block : List ℕ → Option ℕ → Option ℕ
  from_block cells none = none
  from_block cells (some block) =
      shift (block * block_size) (position p (drop (block * block_size) cells))

  abbrev scan : List (List ℕ) → List ℕ → Option ℕ
  scan blocks cells = from_block cells (position (block_ends p false) blocks)

  from_block-shift :
      (cells : List ℕ) (o : Option ℕ)
      → from_block cells (shift 1 o) ≡ shift block_size (from_block (drop block_size cells) o)
  from_block-shift cells none = refl
  from_block-shift cells (some i) =
      let e : (1 + i) * block_size ≡ block_size + i * block_size = omega arith in
      rw (e, drop-add (i * block_size) block_size cells)
        (sym (shift-shift block_size (i * block_size) _ _ refl))

  scan-chunks :
      (fuel : ℕ) (cells : List ℕ)
      → length cells ≤ fuel
      → scan (chunks fuel cells) cells ≡ position p cells
  unfolding chunks
  scan-chunks zero [] h = rw (position_nil p, position_nil (block_ends p false)) refl
  scan-chunks zero (c ∷ cells) h = absurd (omega arith)
  scan-chunks (suc fuel) [] h = rw (position_nil p, position_nil (block_ends p false)) refl
  scan-chunks (suc fuel) (c ∷ cells) h =
      let block = take block_size (c ∷ cells) in
      let later = chunks fuel (drop block_size (c ∷ cells)) in
      elim (Bool-cases (block_ends p false block)) [
        | inl e ↦ rw (position_hit (block_ends p false) block later e) (shift_zero _)
        | inr e ↦
            rw (position-cons (block_ends p false) block later e)
              (from_block-shift (c ∷ cells) (position (block_ends p false) later))
            ∙ ap (shift block_size) (
                scan-chunks fuel (drop block_size (c ∷ cells))
                  (omega (arith, length-drop block_size (c ∷ cells))))
            ∙ sym (position-drop block_size (c ∷ cells) (block_ends-none block e))
      ]

  find_cell-scan : (cells : List ℕ) → find_cell cells p ≡ scan (chunks (length cells) cells) cells
  unfolding find_cell
  find_cell-scan cells =
      elim (Option-cases (position (block_ends p false) (chunks (length cells) cells))) [
        | inl e ↦ rw (find_cell, e) refl
        | inr (i, e) ↦ elim (Option-cases (position p (drop (i * block_size) cells))) [
          | inl k ↦ rw (find_cell, e, k) refl
          | inr (j, k) ↦ rw (find_cell, e, k) refl
        ]
      ]

-- `find_cell`, the search in blocks of 16, gives the position of the first cell that ends the
-- string, and none where no cell does.
pub find_cell-position :
    (cells : List ℕ) (ends : ℕ → Bool) → find_cell cells ends ≡ position ends cells
find_cell-position cells ends =
    find_cell-scan ends cells ∙ scan-chunks ends (length cells) cells (omega arith)
