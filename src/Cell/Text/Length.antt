-- ===== src/Cell/Text/Length.antt =====
-- The length of a string, in crates/samp-sdk/src/cell/string.rs, against the units that a
-- string is read in: the bytes of its cells if it is packed, its cells if not.
use rust_samp.Base.{
  ℕ, suc, ◌+◌, ◌*◌, ◌<◌, ◌≡◌, refl, ap, sym, ◌∙◌, inl, inr, Bool, true, false, ◌++◌, arith,
  Bool-cases, Option-cases, Option, none, some, List, [], ◌∷◌, length, if◌then◌else◌, All,
}
use rust_samp.Base.Words.{u32_mod}
use rust_samp.Base.Search.{position, any}
use rust_samp.Cell.Text.{be_bytes, bounded_strlen, cell_at, has_zero_byte, is_packed, is_zero}
use rust_samp.Cell.Text.ZeroByte.{has_zero_byte-any}
use rust_samp.Cell.Text.Scan.{
  find_cell-position, position-cons, position_hit, position_nil, shift, shift-shift, shift_zero,
}

abbrev pub IsWord : ℕ → Type 0
IsWord c = c < u32_mod

abbrev pub flat : List ℕ → List ℕ
flat [] = []
flat (c ∷ cells) = be_bytes c ++ flat cells

abbrev pub units : List ℕ → List ℕ
units [] = []
units (first ∷ cells) = if is_packed first then flat (first ∷ cells) else first ∷ cells

-- The first zero byte of the cells stands in the first cell that has one.
abbrev packed_len : List ℕ → Option ℕ → Option ℕ
packed_len cells none = none
packed_len cells (some at) = shift (at * 4) (position is_zero (be_bytes (cell_at cells at)))

position-any :
    (p : ℕ → Bool) (xs ys : List ℕ) → any p xs ≡ true → position p (xs ++ ys) ≡ position p xs
unfolding any
position-any p [] ys e = cc
position-any p (x ∷ xs) ys e = elim (Bool-cases (p x)) [
  | inl hit ↦ position_hit p x _ hit ∙ sym (position_hit p x _ hit)
  | inr miss ↦
      let inner : any p xs ≡ true = ground arith in
      position-cons p x _ miss
      ∙ ap (shift 1) (position-any p xs ys inner)
      ∙ sym (position-cons p x _ miss)
]

position-any_not :
    (p : ℕ → Bool) (xs ys : List ℕ)
    → any p xs ≡ false
    → position p (xs ++ ys) ≡ shift (length xs) (position p ys)
unfolding any
position-any_not p [] ys e = sym (shift_zero _)
position-any_not p (x ∷ xs) ys e = elim (Bool-cases (p x)) [
  | inl hit ↦ absurd (ground arith)
  | inr miss ↦
      let inner : any p xs ≡ false = ground arith in
      position-cons p x _ miss
      ∙ ap (shift 1) (position-any_not p xs ys inner)
      ∙ shift-shift 1 (length xs) _ (position p ys) (omega arith)
]

pub length-be_bytes : (c : ℕ) → length (be_bytes c) ≡ 4
unfolding be_bytes
length-be_bytes c = refl

position-be_bytes :
    (c : ℕ) (ys : List ℕ)
    → any is_zero (be_bytes c) ≡ false
    → position is_zero (be_bytes c ++ ys) ≡ shift 4 (position is_zero ys)
position-be_bytes c ys e =
    position-any_not is_zero (be_bytes c) ys e
    ∙ ap (λ n. shift n (position is_zero ys)) (length-be_bytes c)

packed_len-shift :
    (c : ℕ) (cells : List ℕ) (o : Option ℕ)
    → packed_len (c ∷ cells) (shift 1 o) ≡ shift 4 (packed_len cells o)
unfolding cell_at
packed_len-shift c cells none = refl
packed_len-shift c cells (some at) =
    let e : 1 + at ≡ suc at = omega arith in
    rw e (
      sym (shift-shift 4 (at * 4) _ (position is_zero (be_bytes (cell_at cells at))) (omega arith)))

packed_len-flat :
    (cells : List ℕ)
    → All IsWord cells
    → packed_len cells (position has_zero_byte cells) ≡ position is_zero (flat cells)
unfolding cell_at
packed_len-flat [] h = rw (position_nil has_zero_byte, position_nil is_zero) refl
packed_len-flat (c ∷ cells) h = elim (Bool-cases (has_zero_byte c)) [
  | inl hit ↦ rw (position_hit has_zero_byte c cells hit) (
      shift_zero (position is_zero (be_bytes c))
      ∙ sym (position-any is_zero (be_bytes c) (flat cells) (sym (has_zero_byte-any c h.0) ∙ hit)))
  | inr miss ↦
      rw (position-cons has_zero_byte c cells miss)
        (packed_len-shift c cells (position has_zero_byte cells))
      ∙ ap (shift 4) (packed_len-flat cells h.1)
      ∙ sym (position-be_bytes c (flat cells) (sym (has_zero_byte-any c h.0) ∙ miss))
]

bounded_strlen-packed_len :
    (first : ℕ) (cells : List ℕ)
    → is_packed first ≡ true
    → bounded_strlen (first ∷ cells)
      ≡ packed_len (first ∷ cells) (position has_zero_byte (first ∷ cells))
unfolding bounded_strlen position
bounded_strlen-packed_len first cells packed =
    let all = first ∷ cells in
    elim (Option-cases (position has_zero_byte all)) [
      | inl e ↦ rw (bounded_strlen, packed, find_cell-position all has_zero_byte, e) refl
      | inr (at, e) ↦ elim (Option-cases (position is_zero (be_bytes (cell_at all at)))) [
        | inl k ↦ rw (bounded_strlen, packed, find_cell-position all has_zero_byte, e, k) refl
        | inr (lead, k) ↦
            rw (bounded_strlen, packed, find_cell-position all has_zero_byte, e, k) refl
      ]
    ]

-- `bounded_strlen` gives the position of the first zero among the units of the cells, which are
-- 32-bit words, and none where no unit is zero.
pub bounded_strlen-units :
    (cells : List ℕ) → All IsWord cells → bounded_strlen cells ≡ position is_zero (units cells)
unfolding bounded_strlen
bounded_strlen-units [] h = sym (position_nil is_zero)
bounded_strlen-units (first ∷ cells) h = elim (Bool-cases (is_packed first)) [
  | inl packed ↦
      bounded_strlen-packed_len first cells packed
      ∙ packed_len-flat (first ∷ cells) h
      ∙ ap (λ b. position is_zero (if b then flat (first ∷ cells) else first ∷ cells)) (sym packed)
  | inr plain ↦ rw plain (find_cell-position (first ∷ cells) is_zero)
]
