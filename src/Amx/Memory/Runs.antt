-- ===== src/Amx/Memory/Runs.antt =====
-- Reading runs of cells and of bytes (crates/samp-sdk/src/amx.rs).
use rust_samp.Base.{
  ℕ, zero, suc, ◌+◌, ◌-◌, ◌*◌, ◌/◌, ◌%◌, ◌≤◌, ◌<◌, ◌≡◌, inl, inr, refl, ap, sym, ◌∙◌, false, none,
  some, List, [], ◌∷◌, ◌++◌, append-nil, append_assoc, length, drop, max, arith, Bool-cases,
  Option-cases, All,
}
use rust_samp.Base.Words.{u32_mod, sign_bit}
use rust_samp.Amx.Memory.{
  Vm, segment, inaccessible, read_cell, cell_addr, checked_add, read_from, read_cells, cell_bytes,
  byte_at, copy_word, from_ne_bytes, to_ne_bytes,
}
use rust_samp.Amx.Memory.Cells.{inaccessible-lt, read_cell-segment, read_cell_null}

-- At most `n` cells from `addr` on, up to the first address that is inaccessible.
abbrev pub readable : Vm → ℕ → ℕ → List ℕ
readable vm zero addr = []
readable vm (suc n) addr = elim (read_cell vm addr) [
  | none ↦ []
  | some cell ↦ cell ∷ readable vm n (addr + 4)
]

readable_stops : (vm : Vm) (n addr : ℕ) → read_cell vm addr ≡ none → readable vm (suc n) addr ≡ []
readable_stops vm n addr e = rw (readable, e) refl

readable_more :
    (vm : Vm) (n addr cell : ℕ)
    → read_cell vm addr ≡ some cell
    → readable vm (suc n) addr ≡ cell ∷ readable vm n (addr + 4)
readable_more vm n addr cell e = rw (readable, e) refl

read_cell-lt :
    (vm : Vm) (addr cell : ℕ)
    → vm.stp < sign_bit
    → addr < u32_mod
    → read_cell vm addr ≡ some cell
    → addr < vm.stp
read_cell-lt vm addr cell top word h = elim (Option-cases (segment vm)) [
  | inl e ↦ absurd (ground (arith, read_cell_null vm addr e))
  | inr (bytes, e) ↦ elim (Bool-cases (inaccessible vm addr)) [
    | inl out ↦ absurd (ground (arith, read_cell-segment vm bytes addr e))
    | inr inside ↦ inaccessible-lt vm addr top word inside
  ]
]

cell_addr-add : (addr i : ℕ) → addr + i * 4 < sign_bit → cell_addr addr i ≡ some (addr + i * 4)
unfolding cell_addr checked_add
cell_addr-add addr i h = ground arith

read_from-readable :
    (vm : Vm) (addr i n : ℕ) (out : List ℕ)
    → vm.stp + 4 ≤ sign_bit
    → addr + i * 4 < sign_bit
    → read_from vm addr i n out ≡ some (out ++ readable vm n (addr + i * 4))
unfolding read_from
read_from-readable vm addr i zero out top h = ap some (sym (append-nil out))
read_from-readable vm addr i (suc n) out top h = elim (Option-cases (read_cell vm (addr + i * 4))) [
  | inl e ↦
      rw (read_from, cell_addr-add addr i h, e, readable_stops vm n (addr + i * 4) e)
        (ap some (sym (append-nil out)))
  | inr (cell, e) ↦
      let lt = read_cell-lt vm (addr + i * 4) cell (omega arith) (omega arith) e in
      let next : addr + (i + 1) * 4 ≡ addr + i * 4 + 4 = omega arith in
      rw (read_from, cell_addr-add addr i h, e, readable_more vm n (addr + i * 4) cell e)
        (read_from-readable vm addr (i + 1) n (out ++ cell ∷ []) top (omega (arith, lt))
          ∙ rw next (ap some (append_assoc out (cell ∷ []) (readable vm n (addr + i * 4 + 4)))))
]

-- Reading a run of cells is refused exactly where its first cell cannot be read; otherwise it gives
-- the cells up to the first that cannot, at most `count` of them, but always the first.
pub read_cells-readable :
    (vm : Vm) (addr count : ℕ)
    → vm.stp + 4 ≤ sign_bit
    → addr < u32_mod
    → read_cells vm addr count ≡ (elim (read_cell vm addr) [
      | none ↦ none
      | some cell ↦ some (readable vm (max 1 count) addr)
    ])
unfolding read_cells
read_cells-readable vm addr count top word = elim (Option-cases (read_cell vm addr)) [
  | inl e ↦ rw (read_cells, e) refl
  | inr (cell, e) ↦
      let lt = read_cell-lt vm addr cell (omega arith) word e in
      let n : max 1 count ≡ suc (count - 1) = omega arith in
      let next : addr + 1 * 4 ≡ addr + 4 = omega arith in
      rw (read_cells, e, n, readable_more vm (count - 1) addr cell e)
        (read_from-readable vm addr 1 (count - 1) (cell ∷ []) top (omega (arith, lt))
          ∙ rw next refl)
]

byte_drop :
    (bytes : List ℕ) (at : ℕ)
    → at < length bytes
    → drop at bytes ≡ byte_at bytes at ∷ drop (at + 1) bytes
byte_drop [] at h = absurd (omega arith)
byte_drop (b ∷ bytes) zero h = refl
byte_drop (b ∷ bytes) (suc at) h =
    let e : suc at + 1 ≡ suc (at + 1) = omega arith in rw e (byte_drop bytes at (omega arith))

abbrev pub IsByte : ℕ → Type 0
IsByte b = b < 256

byte_at-IsByte : (bytes : List ℕ) (at : ℕ) → All IsByte bytes → IsByte (byte_at bytes at)
byte_at-IsByte [] at h = omega arith
byte_at-IsByte (b ∷ bytes) zero h = h.0
byte_at-IsByte (b ∷ bytes) (suc at) h = byte_at-IsByte bytes at h.1

-- A word copied out and taken apart again is the four bytes.
to_ne_bytes-from_ne_bytes :
    (a b c d : ℕ)
    → a < 256
    → b < 256
    → c < 256
    → d < 256
    → to_ne_bytes (from_ne_bytes a b c d) ≡ a ∷ b ∷ c ∷ d ∷ []
unfolding to_ne_bytes from_ne_bytes
to_ne_bytes-from_ne_bytes a b c d ha hb hc hd =
    let e₀ : (a + 256 * b + 65_536 * c + 16_777_216 * d) % 256 ≡ a = omega arith in
    let e₁ : (a + 256 * b + 65_536 * c + 16_777_216 * d) / 256 % 256 ≡ b = omega arith in
    let e₂ : (a + 256 * b + 65_536 * c + 16_777_216 * d) / 65_536 % 256 ≡ c = omega arith in
    let e₃ : (a + 256 * b + 65_536 * c + 16_777_216 * d) / 16_777_216 % 256 ≡ d = omega arith in
    rw (e₀, e₁, e₂, e₃) refl

drop_word :
    (bytes : List ℕ) (at : ℕ)
    → All IsByte bytes
    → at + 4 ≤ length bytes
    → drop at bytes ≡ to_ne_bytes (copy_word bytes at) ++ drop (at + 4) bytes
unfolding copy_word
drop_word bytes at h room =
    let byte = λ (i : ℕ). byte_at-IsByte bytes i h in
    let n₁ : at + 1 + 1 ≡ at + 2 = omega arith in
    let n₂ : at + 2 + 1 ≡ at + 3 = omega arith in
    let n₃ : at + 3 + 1 ≡ at + 4 = omega arith in
    rw (to_ne_bytes-from_ne_bytes _ _ _ _ (byte at) (byte (at + 1)) (byte (at + 2)) (byte (at + 3)))
      (byte_drop bytes at (omega arith)
        ∙ ap (◌∷◌ (byte_at bytes at)) (
            byte_drop bytes (at + 1) (omega arith)
            ∙ rw n₁ (
                ap (◌∷◌ (byte_at bytes (at + 1))) (
                  byte_drop bytes (at + 2) (omega arith)
                  ∙ rw n₂ (
                      ap (◌∷◌ (byte_at bytes (at + 2)))
                        (byte_drop bytes (at + 3) (omega arith) ∙ rw n₃ refl))))))

length-to_ne_bytes : (v : ℕ) → length (to_ne_bytes v) ≡ 4
unfolding to_ne_bytes
length-to_ne_bytes v = refl

-- The first `n` addresses from `addr` on, a cell apart, can all be read.
abbrev pub Readable : Vm → ℕ → ℕ → Type 0
Readable vm zero addr = Unit
Readable vm (suc n) addr = (inaccessible vm addr ≡ false) × Readable vm n (addr + 4)

pub cell_bytes-readable :
    (vm : Vm) (bytes : List ℕ) (n addr : ℕ)
    → segment vm ≡ some bytes
    → All IsByte bytes
    → addr + 4 * n ≤ length bytes
    → Readable vm n addr
    → cell_bytes (readable vm n addr) ++ drop (addr + 4 * n) bytes ≡ drop addr bytes
unfolding cell_bytes
cell_bytes-readable vm bytes zero addr h b room r = ap (λ k. drop k bytes) (omega arith)
cell_bytes-readable vm bytes (suc n) addr h b room r =
    let e : read_cell vm addr ≡ some (copy_word bytes addr) =
      read_cell-segment vm bytes addr h ∙ rw (r.0) refl in
    let next : addr + 4 * suc n ≡ addr + 4 + 4 * n = omega arith in
    rw (readable_more vm n addr (copy_word bytes addr) e, next)
      (append_assoc (to_ne_bytes (copy_word bytes addr)) (cell_bytes (readable vm n (addr + 4)))
          (drop (addr + 4 + 4 * n) bytes)
        ∙ ap (λ l. to_ne_bytes (copy_word bytes addr) ++ l)
            (cell_bytes-readable vm bytes n (addr + 4) h b (omega arith) r.1)
        ∙ sym (drop_word bytes addr b (omega arith)))
