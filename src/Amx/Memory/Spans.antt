-- ===== src/Amx/Memory/Spans.antt =====
-- Reading bytes at any address (crates/samp-sdk/src/amx.rs).
use rust_samp.Base.{
  ℕ, zero, suc, ◌+◌, ◌-◌, ◌*◌, ◌/◌, ◌%◌, ◌≤◌, ◌<◌, ◌≡◌, refl, ap, sym, subst, ◌∙◌, some, List, ◌++◌,
  length, length-append, length-drop, take, drop, min, max, All, arith,
}
use rust_samp.Base.Slices.{drop-add, drop-append_short, take-append_short}
use rust_samp.Base.Words.{u32_mod, sign_bit}
use rust_samp.Amx.Memory.{Vm, segment, read_cell, read_bytes, cell_bytes, copy_word}
use rust_samp.Amx.Memory.Cells.{inaccessible-lt, read_cell-segment}
use rust_samp.Amx.Memory.Runs.{IsByte, Readable, readable, read_cells-readable, cell_bytes-readable}

-- The last cell that can be read begins below the data top.
Readable-lt :
    (vm : Vm) (n addr : ℕ)
    → vm.stp + 4 ≤ sign_bit
    → addr < u32_mod
    → Readable vm (suc n) addr
    → addr + 4 * n < vm.stp
Readable-lt vm zero addr top word r = omega (arith, inaccessible-lt vm addr (omega arith) word r.0)
Readable-lt vm (suc n) addr top word r =
    let lt = inaccessible-lt vm addr (omega arith) word r.0 in
    omega (arith, Readable-lt vm n (addr + 4) top (omega (arith, lt)) r.1)

-- What is left of the bytes gathered, without the `skip` first.
part :
    (bytes gathered rest : List ℕ) (at skip len : ℕ)
    → gathered ++ rest ≡ drop at bytes
    → skip + len ≤ length gathered
    → take (min (skip + len) (length gathered) - skip) (drop skip gathered)
      ≡ take len (drop (at + skip) bytes)
part bytes gathered rest at skip len e h =
    let n : min (skip + len) (length gathered) - skip ≡ len = omega arith in
    let d : drop (at + skip) bytes ≡ drop skip gathered ++ rest =
      drop-add skip at bytes
      ∙ ap (drop skip) (sym e)
      ∙ drop-append_short skip gathered rest (omega arith) in
    rw (n, d)
      (sym (
        take-append_short len (drop skip gathered) rest (omega (arith, length-drop skip gathered))))

-- The cells that hold `len` bytes from `addr` on.
abbrev pub cells_over : ℕ → ℕ → ℕ
cells_over addr len = (addr % 4 + len + 3) / 4

-- Where every cell that holds one of the bytes can be read, and the data segment reaches three bytes
-- past the data top at least, reading `len` bytes, one or more, gives the bytes of the segment from
-- `addr` on, whether or not `addr` is the address of a cell.
pub read_bytes-drop :
    (vm : Vm) (bytes : List ℕ) (addr len : ℕ)
    → segment vm ≡ some bytes
    → All IsByte bytes
    → vm.stp + 4 ≤ sign_bit
    → vm.stp + 3 ≤ length bytes
    → addr < u32_mod
    → 0 < len
    → Readable vm (cells_over addr len) (addr - addr % 4)
    → read_bytes vm addr len ≡ some (take len (drop addr bytes))
unfolding read_bytes
read_bytes-drop vm bytes addr len h b top room word pos r =
    let k : cells_over addr len ≡ suc (cells_over addr len - 1) = omega arith in
    let r' = subst (λ n. Readable vm n (addr - addr % 4)) k r in
    let start = addr - addr % 4 in
    let lt = Readable-lt vm (cells_over addr len - 1) start top (omega arith) r' in
    let fits : start + 4 * cells_over addr len ≤ length bytes = omega (arith, lt) in
    let gathered = cell_bytes (readable vm (cells_over addr len) start) in
    let e = cell_bytes-readable vm bytes (cells_over addr len) start h b fits r in
    let size : length gathered ≡ 4 * cells_over addr len = omega (
      arith,
      ap length e,
      length-append gathered (drop (start + 4 * cells_over addr len) bytes),
      length-drop start bytes,
      length-drop (start + 4 * cells_over addr len) bytes,
    ) in
    let first : read_cell vm start ≡ some (copy_word bytes start) =
      read_cell-segment vm bytes start h ∙ rw (r'.0) refl in
    let most : max 1 (cells_over addr len) ≡ cells_over addr len = omega arith in
    let at : start + addr % 4 ≡ addr = omega arith in
    rw
      (
        read_bytes,
        read_cells-readable vm start (cells_over addr len) top (omega arith),
        first,
        most,
      )
      (ap some (part bytes gathered _ start (addr % 4) len e (omega (arith, size)) ∙ rw at refl))
