-- ===== src/Base/Bits.antt =====
-- `&` on numbers, eight binary digits at a time.
use Prim.Native.Nat.{
  ℕ, zero, suc, ◌+◌, ◌-◌, ◌*◌, ◌/◌, ◌%◌, ◌≤◌, min, bit_and, digits, bit_and-bitwise,
}
use mathlib.Core.Path.{◌≡◌, refl, sym, ap₂, ◌∙◌}
use native.Mathlib.Omega.{arith}

-- `a & b` with room for `n` digits.
abbrev and_within : ℕ → ℕ → ℕ → ℕ
and_within n a b = digits (λ _. zero) min n a b

-- Room for one digit more changes nothing where there is room already.
and_within-suc : (n a b : ℕ) → a ≤ n → and_within (suc n) a b ≡ and_within n a b
and_within-suc zero zero b h = refl
and_within-suc zero (suc a) b h = absurd (omega arith)
and_within-suc (suc n) zero b h = refl
and_within-suc (suc n) (suc a) b h =
    omega (arith, and_within-suc n (suc a / 2) (b / 2) (omega arith))

and_within-add : (k n a b : ℕ) → n ≡ a + k → and_within n a b ≡ bit_and a b
and_within-add zero n a b e = let e' : n ≡ a = omega arith in rw e' (sym (bit_and-bitwise a b))
and_within-add (suc k) n a b e =
    let e' : n ≡ suc (a + k) = omega arith in
    rw e' (and_within-suc (a + k) a b (omega arith) ∙ and_within-add k (a + k) a b refl)

-- The last digit of `a & b`, and the rest.
and_digit : (a b : ℕ) → bit_and a b ≡ 2 * bit_and (a / 2) (b / 2) + min (a % 2) (b % 2)
and_digit zero b = omega (arith, bit_and-bitwise 0 b, bit_and-bitwise 0 (b / 2))
and_digit (suc a) b = omega (
  arith,
  bit_and-bitwise (suc a) b,
  and_within-add (a - suc a / 2) a (suc a / 2) (b / 2) (omega arith),
)

eight_halves : (a : ℕ) → a / 2 / 2 / 2 / 2 / 2 / 2 / 2 / 2 ≡ a / 256
eight_halves a = omega arith

-- The low four digits and the high four of a byte, and the byte.
and_nibble :
    (a b : ℕ)
    → (bit_and a b / 16 ≡ bit_and (a / 2 / 2 / 2 / 2) (b / 2 / 2 / 2 / 2))
      × (bit_and a b / 8 % 2 ≡ min (a / 8 % 2) (b / 8 % 2))
and_nibble a b = (
  omega (
    arith,
    and_digit a b,
    and_digit (a / 2) (b / 2),
    and_digit (a / 2 / 2) (b / 2 / 2),
    and_digit (a / 2 / 2 / 2) (b / 2 / 2 / 2),
  ),
  omega (
    arith,
    and_digit a b,
    and_digit (a / 2) (b / 2),
    and_digit (a / 2 / 2) (b / 2 / 2),
    and_digit (a / 2 / 2 / 2) (b / 2 / 2 / 2),
  ),
)

-- `(a & b) >> 8`, and the top digit of the low byte of `a & b`.
pub and_byte :
    (a b : ℕ)
    → (bit_and a b / 256 ≡ bit_and (a / 256) (b / 256))
      × (bit_and a b / 128 % 2 ≡ min (a / 128 % 2) (b / 128 % 2))
and_byte a b =
    let lo = and_nibble a b in
    let hi = and_nibble (a / 2 / 2 / 2 / 2) (b / 2 / 2 / 2 / 2) in
    (
      omega (arith, lo.0, hi.0, ap₂ bit_and (eight_halves a) (eight_halves b)),
      omega (arith, lo.0, hi.1),
    )

and_low_three : (a b : ℕ) → b % 8 ≡ 0 → bit_and a b % 8 ≡ 0
and_low_three a b h =
    omega (arith, and_digit a b, and_digit (a / 2) (b / 2), and_digit (a / 2 / 2) (b / 2 / 2))

and_low_four : (a b : ℕ) → b % 16 ≡ 0 → bit_and a b % 16 ≡ 0
and_low_four a b h = omega (arith, and_digit a b, and_low_three (a / 2) (b / 2) (omega arith))

-- A mask without the seven low digits leaves none of them.
pub and_low_seven : (a b : ℕ) → b % 128 ≡ 0 → bit_and a b % 128 ≡ 0
and_low_seven a b h = omega (
  arith,
  and_nibble a b,
  and_low_four a b (omega arith),
  and_low_three (a / 2 / 2 / 2 / 2) (b / 2 / 2 / 2 / 2) (omega arith),
)

and_zero_within : (n a : ℕ) → a ≤ n → bit_and a 0 ≡ 0
and_zero_within n zero h = bit_and-bitwise 0 0
and_zero_within zero (suc a) h = absurd (omega arith)
and_zero_within (suc n) (suc a) h =
    omega (arith, and_digit (suc a) 0, and_zero_within n (suc a / 2) (omega arith))

pub bit_and-zero : (a : ℕ) → bit_and a 0 ≡ 0
bit_and-zero a = and_zero_within a a (omega arith)
