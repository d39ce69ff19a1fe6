-- ===== src/Amx/Memory/Cells.antt =====
-- Writing a cell and reading it back (crates/samp-sdk/src/amx.rs).
use rust_samp.Base.{
  ℕ, ◌+◌, ◌≤◌, ◌<◌, ◌≡◌, ◌⊎◌, inl, inr, refl, ap, sym, ◌∙◌, true, false, not, Option, none, some,
  List, ◌&&◌, length, drop, ◌==◌, if◌then◌else◌, arith, Bool-cases,
}
use rust_samp.Base.Words.{u32_mod, sign_bit, slt}
use rust_samp.Amx.Memory.{
  Vm, segment, inaccessible, data_ptr, read_cell, with_segment, write_cell, copy_word, write_word,
}
use rust_samp.Amx.Memory.Bytes.{
  length-write_word, copy_word-write_word, copy_word-write_word_other, drop-take-append,
}

-- An accessible address lies below the data top.
pub inaccessible-lt :
    (vm : Vm) (addr : ℕ)
    → vm.stp < sign_bit
    → addr < u32_mod
    → inaccessible vm addr ≡ false
    → addr < vm.stp
unfolding inaccessible
inaccessible-lt vm addr top word h = ground arith

segment-with_fields :
    (base block : Option (List ℕ)) (cod dat hea stk stp : ℕ) (old bytes : List ℕ)
    → let vm : Vm = record {
      base = base;
      data_block = block;
      cod = cod;
      dat = dat;
      hea = hea;
      stk = stk;
      stp = stp;
    } in
      segment vm ≡ some old
      → length bytes ≡ length old
      → segment (with_segment vm bytes) ≡ some bytes
unfolding segment with_segment
segment-with_fields none block cod dat hea stk stp old bytes h l = cc
segment-with_fields (some b) (some d) cod dat hea stk stp old bytes h l = refl
segment-with_fields (some b) none cod dat hea stk stp old bytes h l =
    elim (Bool-cases (slt dat 0)) [
      | inl negative ↦ absurd (ground arith)
      | inr inside ↦
          let e : drop dat b ≡ old = ground arith in
          rw inside (ap some (drop-take-append dat b bytes (l ∙ ap length (sym e))))
    ]

segment-with_segment :
    (vm : Vm) (old bytes : List ℕ)
    → segment vm ≡ some old
    → length bytes ≡ length old
    → segment (with_segment vm bytes) ≡ some bytes
segment-with_segment vm =
    segment-with_fields vm.base vm.data_block vm.cod vm.dat vm.hea vm.stk vm.stp

-- Memory is replaced, registers are not.
inaccessible-with_fields :
    (base block : Option (List ℕ)) (cod dat hea stk stp : ℕ) (bytes : List ℕ) (addr : ℕ)
    → let vm : Vm = record {
      base = base;
      data_block = block;
      cod = cod;
      dat = dat;
      hea = hea;
      stk = stk;
      stp = stp;
    } in
      inaccessible (with_segment vm bytes) addr ≡ inaccessible vm addr
unfolding with_segment inaccessible
inaccessible-with_fields base (some d) cod dat hea stk stp bytes addr = refl
inaccessible-with_fields none none cod dat hea stk stp bytes addr = refl
inaccessible-with_fields (some b) none cod dat hea stk stp bytes addr = refl

inaccessible-with_segment :
    (vm : Vm) (bytes : List ℕ) (addr : ℕ)
    → inaccessible (with_segment vm bytes) addr ≡ inaccessible vm addr
inaccessible-with_segment vm =
    inaccessible-with_fields vm.base vm.data_block vm.cod vm.dat vm.hea vm.stk vm.stp

data_ptr-segment :
    (vm : Vm) (bytes : List ℕ) (addr : ℕ)
    → segment vm ≡ some bytes
    → data_ptr vm addr ≡ (if inaccessible vm addr then none else some (bytes, addr))
unfolding data_ptr
data_ptr-segment vm bytes addr h = rw (data_ptr, h) refl

pub read_cell_null : (vm : Vm) (addr : ℕ) → segment vm ≡ none → read_cell vm addr ≡ none
unfolding read_cell data_ptr
read_cell_null vm addr h = rw (read_cell, data_ptr, h) refl

pub read_cell-segment :
    (vm : Vm) (bytes : List ℕ) (addr : ℕ)
    → segment vm ≡ some bytes
    → read_cell vm addr ≡ (if inaccessible vm addr then none else some (copy_word bytes addr))
unfolding read_cell
read_cell-segment vm bytes addr h = elim (Bool-cases (inaccessible vm addr)) [
  | inl out ↦ rw (read_cell, data_ptr-segment vm bytes addr h, out) refl
  | inr inside ↦ rw (read_cell, data_ptr-segment vm bytes addr h, inside) refl
]

write_cell-segment :
    (vm : Vm) (bytes : List ℕ) (addr value : ℕ)
    → segment vm ≡ some bytes
    → write_cell vm addr value ≡ (
        if inaccessible vm addr
        then (vm, false)
        else (with_segment vm (write_word bytes addr value), true))
unfolding write_cell
write_cell-segment vm bytes addr value h = elim (Bool-cases (inaccessible vm addr)) [
  | inl out ↦ rw (write_cell, data_ptr-segment vm bytes addr h, out) refl
  | inr inside ↦ rw (write_cell, data_ptr-segment vm bytes addr h, inside) refl
]

-- Where the machine's data segment reaches three bytes past its data top at least: a write succeeds
-- exactly at an accessible address; after it the cell there reads as the value, and a cell that does
-- not overlap it reads as before; after a write that fails nothing has changed.
pub read_cell-write_cell :
    (vm : Vm) (bytes : List ℕ) (addr at value : ℕ)
    → segment vm ≡ some bytes
    → vm.stp < sign_bit
    → vm.stp + 3 ≤ length bytes
    → addr < u32_mod
    → value < u32_mod
    → (at ≡ addr) ⊎ (at + 4 ≤ addr) ⊎ (addr + 4 ≤ at)
    → let (vm', done) = write_cell vm addr value in
      (done ≡ not (inaccessible vm addr))
      × (read_cell vm' at ≡ (if done && at == addr then some value else read_cell vm at))
      × ((done ≡ false) → vm' ≡ vm)
read_cell-write_cell vm bytes addr at value h top room word bound apart =
    elim (Bool-cases (inaccessible vm addr)) [
      | inl out ↦ rw (write_cell-segment vm bytes addr value h, out) (refl, refl, λ e. refl)
      | inr inside ↦
          let bytes' = write_word bytes addr value in
          let h' = segment-with_segment vm bytes bytes' h (length-write_word bytes addr value) in
          let lt = inaccessible-lt vm addr top word inside in
          rw
            (
              write_cell-segment vm bytes addr value h,
              inside,
              read_cell-segment (with_segment vm bytes') bytes' at h',
              read_cell-segment vm bytes at h,
              inaccessible-with_segment vm bytes' at,
            )
            (
              refl,
              ground (
                arith,
                lt,
                copy_word-write_word bytes addr value bound (omega arith),
                copy_word-write_word_other bytes addr at value,
              ),
              λ e. absurd (ground arith),
            )
    ]
