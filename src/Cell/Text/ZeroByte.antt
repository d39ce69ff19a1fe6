-- ===== src/Cell/Text/ZeroByte.antt =====
-- The test for a zero byte by one subtraction, in crates/samp-sdk/src/cell/string.rs.
use Prim.Native.Nat.{bit_and}
use rust_samp.Base.{
  ℕ, zero, suc, ◌+◌, ◌-◌, ◌*◌, ◌/◌, ◌%◌, ◌<◌, ◌≡◌, refl, ◌∙◌, ◌≢◌, ◌⊎◌, ◌↔◌, inl, inr, true, false,
  min, arith,
}
use rust_samp.Base.Words.{u32_mod, wrapping_sub}
use rust_samp.Base.Bits.{and_byte, and_low_seven, bit_and-zero}
use rust_samp.Base.Search.{any}
use rust_samp.Cell.Text.{be_bytes, complement, has_zero_byte, is_zero}

-- The low byte of `y & m`, where `m` has none but the top digit of its low byte.
masked_byte :
    (y m : ℕ)
    → m % 256 ≡ 128
    → bit_and y m ≡ 256 * bit_and (y / 256) (m / 256) + 128 * (y / 128 % 2)
masked_byte y m h = let b = and_byte y m in omega (arith, b.0, b.1, and_low_seven y m (omega arith))

abbrev top_bits : ℕ → ℕ
top_bits y =
    y / 128 % 2 + y / 256 / 128 % 2 + y / 256 / 256 / 128 % 2 + y / 256 / 256 / 256 / 128 % 2

-- `y & 0x80808080` is zero if and only if no byte of `y` has its top digit.
masked : (y : ℕ) → (bit_and y 0x8080_8080 ≡ 0) ↔ (top_bits y ≡ 0)
masked y =
    let e₀ : bit_and y 0x8080_8080 ≡ 256 * bit_and (y / 256) 0x80_8080 + 128 * (y / 128 % 2) =
      masked_byte y _ refl in
    let e₁ : bit_and (y / 256) 0x80_8080
        ≡ 256 * bit_and (y / 256 / 256) 0x8080 + 128 * (y / 256 / 128 % 2) =
      masked_byte _ _ refl in
    let e₂ : bit_and (y / 256 / 256) 0x8080
        ≡ 256 * bit_and (y / 256 / 256 / 256) 0x80 + 128 * (y / 256 / 256 / 128 % 2) =
      masked_byte _ _ refl in
    let e₃ : bit_and (y / 256 / 256 / 256) 0x80
        ≡ 256 * bit_and (y / 256 / 256 / 256 / 256) 0 + 128 * (y / 256 / 256 / 256 / 128 % 2) =
      masked_byte _ _ refl in
    let e₄ = bit_and-zero (y / 256 / 256 / 256 / 256) in (λ h. omega arith, λ h. omega arith)

-- The top digits of `t & n`, byte by byte.
top_bits-and :
    (t n : ℕ)
    → top_bits (bit_and t n)
      ≡ min (t / 128 % 2) (n / 128 % 2)
        + min (t / 256 / 128 % 2) (n / 256 / 128 % 2)
        + min (t / 256 / 256 / 128 % 2) (n / 256 / 256 / 128 % 2)
        + min (t / 256 / 256 / 256 / 128 % 2) (n / 256 / 256 / 256 / 128 % 2)
top_bits-and t n =
    let b₀ = and_byte t n in
    let b₁ = and_byte (t / 256) (n / 256) in
    let b₂ = and_byte (t / 256 / 256) (n / 256 / 256) in
    let b₃ = and_byte (t / 256 / 256 / 256) (n / 256 / 256 / 256) in
    rw (b₀.0, b₁.0, b₂.0) (omega (arith, b₀.1, b₁.1, b₂.1, b₃.1))

-- A byte of `cell - 0x01010101` under which no byte is zero, and the byte of the complement.
module _ (cell : ℕ) (word : cell < u32_mod) where
  sub_byte₀ : wrapping_sub cell 0x0101_0101 % 256 ≡ (cell % 256 + 255) % 256
  sub_byte₀ = omega arith

  sub_byte₁ :
      cell % 256 ≢ 0 → wrapping_sub cell 0x0101_0101 / 256 % 256 ≡ (cell / 256 % 256 + 255) % 256
  sub_byte₁ h₀ = omega arith

  sub_byte₂ :
      cell % 256 ≢ 0
      → cell / 256 % 256 ≢ 0
      → wrapping_sub cell 0x0101_0101 / 256 / 256 % 256 ≡ (cell / 65_536 % 256 + 255) % 256
  sub_byte₂ h₀ h₁ = omega arith

  sub_byte₃ :
      cell % 256 ≢ 0
      → cell / 256 % 256 ≢ 0
      → cell / 65_536 % 256 ≢ 0
      → wrapping_sub cell 0x0101_0101 / 256 / 256 / 256 % 256
        ≡ (cell / 16_777_216 % 256 + 255) % 256
  sub_byte₃ h₀ h₁ h₂ = omega arith

-- A byte, one less than it, and its complement: they share a top digit only if the byte is zero.
byte_zero :
    (b t n : ℕ)
    → b ≡ 0
    → t % 256 ≡ (b + 255) % 256
    → n % 256 ≡ 255 - b
    → min (t / 128 % 2) (n / 128 % 2) ≡ 1
byte_zero b t n z ht hn = omega arith

byte_nonzero :
    (b t n : ℕ)
    → b < 256
    → b ≢ 0
    → t % 256 ≡ (b + 255) % 256
    → n % 256 ≡ 255 - b
    → min (t / 128 % 2) (n / 128 % 2) ≡ 0
byte_nonzero b t n bound z ht hn = omega arith

complement_bytes :
    (cell : ℕ)
    → cell < u32_mod
    → (complement cell % 256 ≡ 255 - cell % 256)
      × (complement cell / 256 % 256 ≡ 255 - cell / 256 % 256)
      × (complement cell / 256 / 256 % 256 ≡ 255 - cell / 65_536 % 256)
      × (complement cell / 256 / 256 / 256 % 256 ≡ 255 - cell / 16_777_216 % 256)
unfolding complement
complement_bytes cell word = (omega arith, omega arith, omega arith, omega arith)

zero_or_not : (b : ℕ) → (b ≡ 0) ⊎ (b ≢ 0)
zero_or_not zero = inl refl
zero_or_not (suc b) = inr (omega arith)

abbrev marks : ℕ → ℕ
marks cell = top_bits (bit_and (wrapping_sub cell 0x0101_0101) (complement cell))

has_zero_byte-marks : (cell : ℕ) → marks cell ≢ 0 → has_zero_byte cell ≡ true
unfolding has_zero_byte
has_zero_byte-marks cell h =
    let m = masked (bit_and (wrapping_sub cell 0x0101_0101) (complement cell)) in
    let nonzero : bit_and (bit_and (wrapping_sub cell 0x0101_0101) (complement cell)) 0x8080_8080
        ≢ 0 =
      λ e. h (m.0 e) in
    ground arith

has_zero_byte-no_marks : (cell : ℕ) → marks cell ≡ 0 → has_zero_byte cell ≡ false
unfolding has_zero_byte
has_zero_byte-no_marks cell h =
    let m = masked (bit_and (wrapping_sub cell 0x0101_0101) (complement cell)) in rw (m.1 h) refl

-- Some byte is zero: the lowest of them leaves a mark.
module _ (cell : ℕ) (word : cell < u32_mod) where
  some_mark :
      (cell % 256 ≡ 0)
        ⊎ (cell / 256 % 256 ≡ 0)
        ⊎ (cell / 65_536 % 256 ≡ 0)
        ⊎ (cell / 16_777_216 % 256 ≡ 0)
      → marks cell ≢ 0
  some_mark h =
      let t = wrapping_sub cell 0x0101_0101 in
      let n = complement cell in
      let c = complement_bytes cell word in
      let e = top_bits-and t n in
      elim (zero_or_not (cell % 256)) [
        | inl z ↦ let m = byte_zero _ t n z (sub_byte₀ cell word) c.0 in omega arith
        | inr h₀ ↦ elim (zero_or_not (cell / 256 % 256)) [
          | inl z ↦
              let m = byte_zero _ (t / 256) (n / 256) z (sub_byte₁ cell word h₀) c.1 in omega arith
          | inr h₁ ↦ elim (zero_or_not (cell / 65_536 % 256)) [
            | inl z ↦
                let m =
                  byte_zero _ (t / 256 / 256) (n / 256 / 256) z (sub_byte₂ cell word h₀ h₁) c.2 in
                omega arith
            | inr h₂ ↦
                let z : cell / 16_777_216 % 256 ≡ 0 = omega arith in
                let m =
                  byte_zero _ (t / 256 / 256 / 256) (n / 256 / 256 / 256) z
                    (sub_byte₃ cell word h₀ h₁ h₂) c.3 in
                omega arith
          ]
        ]
      ]

  no_mark :
      cell % 256 ≢ 0
      → cell / 256 % 256 ≢ 0
      → cell / 65_536 % 256 ≢ 0
      → cell / 16_777_216 % 256 ≢ 0
      → marks cell ≡ 0
  no_mark h₀ h₁ h₂ h₃ =
      let t = wrapping_sub cell 0x0101_0101 in
      let n = complement cell in
      let c = complement_bytes cell word in
      let m₀ = byte_nonzero (cell % 256) t n (omega arith) h₀ (sub_byte₀ cell word) c.0 in
      let m₁ =
        byte_nonzero (cell / 256 % 256) (t / 256) (n / 256) (omega arith) h₁
          (sub_byte₁ cell word h₀) c.1 in
      let m₂ =
        byte_nonzero (cell / 65_536 % 256) (t / 256 / 256) (n / 256 / 256) (omega arith) h₂
          (sub_byte₂ cell word h₀ h₁) c.2 in
      let m₃ =
        byte_nonzero (cell / 16_777_216 % 256) (t / 256 / 256 / 256) (n / 256 / 256 / 256)
          (omega arith) h₃ (sub_byte₃ cell word h₀ h₁ h₂) c.3 in
      top_bits-and t n ∙ rw (m₀, m₁, m₂, m₃) refl

-- `has_zero_byte`, the test by one subtraction, agrees with a test of each of the cell's four
-- bytes, for every 32-bit cell.
pub has_zero_byte-any :
    (cell : ℕ) → cell < u32_mod → has_zero_byte cell ≡ any is_zero (be_bytes cell)
unfolding be_bytes any is_zero
has_zero_byte-any cell word = elim (zero_or_not (cell % 256)) [
  | inl z ↦ rw (has_zero_byte-marks cell (some_mark cell word (inl z))) (ground arith)
  | inr h₀ ↦ elim (zero_or_not (cell / 256 % 256)) [
    | inl z ↦ rw (has_zero_byte-marks cell (some_mark cell word (inr (inl z)))) (ground arith)
    | inr h₁ ↦ elim (zero_or_not (cell / 65_536 % 256)) [
      | inl z ↦
          rw (has_zero_byte-marks cell (some_mark cell word (inr (inr (inl z))))) (ground arith)
      | inr h₂ ↦ elim (zero_or_not (cell / 16_777_216 % 256)) [
        | inl z ↦
            rw (has_zero_byte-marks cell (some_mark cell word (inr (inr (inr z))))) (ground arith)
        | inr h₃ ↦ rw (has_zero_byte-no_marks cell (no_mark cell word h₀ h₁ h₂ h₃)) (ground arith)
      ]
    ]
  ]
]
