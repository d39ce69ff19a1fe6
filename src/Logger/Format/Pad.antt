-- ===== src/Logger/Format/Pad.antt =====
-- Padding keeps the value (crates/samp/src/logger.rs).
use rust_samp.Base.{
  ℕ, zero, suc, ◌-◌, ◌/◌, ◌≡◌, refl, ap, sym, ◌++◌, length, length-append, append-nil, max, arith,
}
use rust_samp.Base.Text.{Text}
use rust_samp.Logger.Format.{Alignment, left, right, center, spaces, pad}

length-spaces : (n : ℕ) → length (spaces n) ≡ n
unfolding spaces
length-spaces zero = refl
length-spaces (suc n) = ap suc (length-spaces n)

-- The value with spaces before and after it.
pub record Padded (value text : Text) : Type 0 where
  pub before : ℕ
  pub after : ℕ
  pub joined : text ≡ spaces before ++ (value ++ spaces after)

-- A value padded to a width is the value with spaces before or after it, as long as the width or, if
-- that is more, as the value.
pub pad-Padded :
    (alignment : Alignment) (width : ℕ) (value : Text)
    → Padded value (pad alignment width value)
      × (length (pad alignment width value) ≡ max width (length value))
unfolding pad spaces
pad-Padded left width value = (
  record { before = 0; after = width - length value; joined = refl },
  omega (
    arith,
    length-append value (spaces (width - length value)),
    length-spaces (width - length value),
  ),
)
pad-Padded right width value = (
  record {
    before = width - length value;
    after = 0;
    joined = ap (λ t. spaces (width - length value) ++ t) (sym (append-nil value));
  },
  omega (
    arith,
    length-append (spaces (width - length value)) value,
    length-spaces (width - length value),
  ),
)
pad-Padded center width value =
    let missing = width - length value in
    let lo = missing / 2 in
    let hi = missing - lo in
    (
      record { before = lo; after = hi; joined = refl },
      omega (
        arith,
        length-append (spaces lo) (value ++ spaces hi),
        length-append value (spaces hi),
        length-spaces lo,
        length-spaces hi,
      ),
    )
