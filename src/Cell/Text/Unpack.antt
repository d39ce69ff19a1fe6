-- ===== src/Cell/Text/Unpack.antt =====
-- The bytes that the loop of `to_bytes` gathers, in crates/samp-sdk/src/cell/string.rs.
use rust_samp.Base.Slices.{take-append_long, take-append_short, take-nil}
use rust_samp.Base.{
  ℕ, suc, ◌+◌, ◌-◌, ◌<◌, ◌≤◌, ◌≡◌, refl, ap, sym, subst, leb, leb→le, ◌∙◌, inl, inr, Bool, true,
  false, not, ◌++◌, append_assoc, append-nil, arith, Bool-cases, Option-cases, some, List, [], ◌∷◌,
  take, length, length-append, All,
}
use rust_samp.Base.Words.{u32_mod}
use rust_samp.Base.Search.{position, any, take_while}
use rust_samp.Cell.Text.{be_bytes, has_zero_byte, is_zero, unpack}
use rust_samp.Cell.Text.ZeroByte.{has_zero_byte-any}
use rust_samp.Cell.Text.Length.{IsWord, flat, length-be_bytes}
use rust_samp.Cell.Text.Scan.{position_hit}

abbrev pub nonzero : ℕ → Bool
nonzero c = not (is_zero c)

abbrev pub IsNonzero : ℕ → Type 0
IsNonzero c = nonzero c ≡ true

-- What stands before the first zero.
pub record UpTo (xs : List ℕ) (n : ℕ) : Type 0 where
  pub taken : take n xs ≡ take_while nonzero xs
  pub nonzeros : All IsNonzero (take n xs)
  pub inside : n < length xs

pub position-UpTo : (xs : List ℕ) (n : ℕ) → position is_zero xs ≡ some n → UpTo xs n
unfolding position take_while
position-UpTo [] n e = cc
position-UpTo (x ∷ xs) n e = elim (Bool-cases (is_zero x)) [
  | inl hit ↦
      let z : 0 ≡ n = ground (arith, position_hit is_zero x xs hit) in
      subst (UpTo (x ∷ xs)) z (record { taken = rw hit refl; nonzeros = tt; inside = omega arith })
  | inr miss ↦ elim (Option-cases (position is_zero xs)) [
    | inl k ↦ absurd (ground arith)
    | inr (i, k) ↦
        let z : suc i ≡ n = ground arith in
        let t = position-UpTo xs i k in
        subst (UpTo (x ∷ xs)) z (record {
          taken = rw miss (ap (◌∷◌ x) t.taken);
          nonzeros = (ap not miss, t.nonzeros);
          inside = omega (arith, t.inside);
        })
  ]
]

pub take_while-All : (xs : List ℕ) → All IsNonzero xs → take_while nonzero xs ≡ xs
unfolding take_while
take_while-All [] h = refl
take_while-All (x ∷ xs) h = rw h.0 (ap (◌∷◌ x) (take_while-All xs h.1))

any-All : (xs : List ℕ) → All IsNonzero xs → any is_zero xs ≡ false
unfolding any
any-All [] h = refl
any-All (x ∷ xs) h = ground (arith, h.0, any-All xs h.1)

All-left : (xs ys : List ℕ) → All IsNonzero (xs ++ ys) → All IsNonzero xs
All-left [] ys h = tt
All-left (x ∷ xs) ys h = (h.0, All-left xs ys h.1)

-- The last cell read: the bytes asked for are within it.
last_cell :
    (k c : ℕ) (rest : List ℕ)
    → k ≤ 4
    → All IsNonzero (take k (be_bytes c ++ rest))
    → take_while nonzero (take k (be_bytes c)) ≡ take k (be_bytes c ++ rest)
last_cell k c rest h nz =
    let e = take-append_short k (be_bytes c) rest (omega (arith, length-be_bytes c)) in
    take_while-All _ (subst (All IsNonzero) e nz) ∙ sym e

-- A cell with a zero byte is the last one read.
ends_within :
    (k c : ℕ) (rest : List ℕ)
    → c < u32_mod
    → has_zero_byte c ≡ true
    → All IsNonzero (take k (be_bytes c ++ rest))
    → k ≤ 4
ends_within k c rest w hit nz = elim (Bool-cases (leb k 4)) [
  | inl short ↦ leb→le k 4 short
  | inr long ↦
      let e = take-append_long k (be_bytes c) rest (ground (arith, length-be_bytes c)) in
      let none_zero = any-All (be_bytes c) (All-left _ _ (subst (All IsNonzero) e nz)) in
      let some_zero = has_zero_byte-any c w in absurd (ground arith)
]

All-right : (xs ys : List ℕ) → All IsNonzero (xs ++ ys) → All IsNonzero ys
All-right [] ys h = h
All-right (x ∷ xs) ys h = All-right xs ys h.1

-- A whole cell is gathered, and then what is gathered from the others.
one_more :
    (len c : ℕ) (cells vec : List ℕ) {result : List ℕ}
    → length vec + 4 ≤ len
    → All IsNonzero (take (len - length vec) (be_bytes c ++ flat cells))
    → (length (vec ++ be_bytes c) ≤ len
        → All IsNonzero (take (len - length (vec ++ be_bytes c)) (flat cells))
        → result ≡ (vec ++ be_bytes c) ++ take (len - length (vec ++ be_bytes c)) (flat cells))
    → result ≡ vec ++ take (len - length vec) (be_bytes c ++ flat cells)
one_more len c cells vec h nz step =
    let gathered : length (vec ++ be_bytes c) ≡ length vec + 4 =
      length-append vec (be_bytes c) ∙ ap (λ n. length vec + n) (length-be_bytes c) in
    let left : len - length vec - length (be_bytes c) ≡ len - length (vec ++ be_bytes c) =
      omega (arith, gathered, length-be_bytes c) in
    let e : take (len - length vec) (be_bytes c ++ flat cells)
        ≡ be_bytes c ++ take (len - length (vec ++ be_bytes c)) (flat cells) =
      take-append_long (len - length vec) (be_bytes c) (flat cells)
        (omega (arith, length-be_bytes c))
      ∙ ap (λ k. be_bytes c ++ take k (flat cells)) left in
    step (omega (arith, gathered)) (All-right (be_bytes c) _ (subst (All IsNonzero) e nz))
    ∙ append_assoc vec (be_bytes c) _
    ∙ ap (λ l. vec ++ l) (sym e)

-- The bytes gathered, where those asked for are there and none is zero.
unpack-take :
    (len : ℕ) (cells vec : List ℕ)
    → All IsWord cells
    → length vec ≤ len
    → All IsNonzero (take (len - length vec) (flat cells))
    → unpack len cells vec ≡ vec ++ take (len - length vec) (flat cells)
unfolding unpack
unpack-take len [] vec w h nz =
    sym (ap (λ l. vec ++ l) (take-nil (len - length vec)) ∙ append-nil vec)
unpack-take len (c ∷ cells) vec w h nz = elim (Bool-cases (has_zero_byte c)) [
  | inl hit ↦ rw hit (
      ap (λ l. vec ++ l)
        (last_cell (len - length vec) c (flat cells) (ends_within _ c (flat cells) w.0 hit nz) nz))
  | inr miss ↦ elim (Bool-cases (leb (length vec + 4) len)) [
    | inl fits ↦
        rw (miss, fits)
          (one_more len c cells vec (leb→le _ _ fits) nz
            (unpack-take len cells (vec ++ be_bytes c) w.1))
    | inr short ↦
        rw (miss, short)
          (ap (λ l. vec ++ l) (last_cell (len - length vec) c (flat cells) (ground arith) nz))
  ]
]

pub unpack-All :
    (len : ℕ) (cells : List ℕ)
    → All IsWord cells
    → All IsNonzero (take len (flat cells))
    → unpack len cells [] ≡ take len (flat cells)
unpack-All len cells w nz =
    let e : len - 0 ≡ len = omega arith in
    unpack-take len cells [] w (omega arith)
      (subst (λ k. All IsNonzero (take k (flat cells))) (sym e) nz)
    ∙ ap (λ k. take k (flat cells)) e
