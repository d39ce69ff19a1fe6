-- ===== src/Amx/Memory/Tests.antt =====
-- A machine of sixteen bytes of data, with the gap between heap and stack at 4 to 7.
use rust_samp.Base.{
  ℕ, ◌≡◌, inr, refl, false, not, none, some, List, [], ◌∷◌, ◌&&◌, ◌==◌, if◌then◌else◌, arith,
}
use rust_samp.Amx.Memory.{
  Vm, segment, inaccessible, read_cell, write_cell, read_code, data_ptr, copy_word, from_ne_bytes,
}
use rust_samp.Amx.Memory.Cells.{read_cell-write_cell}

abbrev bytes : List ℕ
bytes = 1 ∷ 2 ∷ 3 ∷ 4 ∷ 5 ∷ 6 ∷ 7 ∷ 8 ∷ 9 ∷ 10 ∷ 11 ∷ 12 ∷ 13 ∷ 14 ∷ 15 ∷ 16 ∷ []

abbrev vm : Vm
vm = record {
  base = some [];
  data_block = some bytes;
  cod = 0;
  dat = 0;
  hea = 4;
  stk = 8;
  stp = 12;
}

read_gap : read_cell vm 4 ≡ none
unfolding read_cell data_ptr segment inaccessible
read_gap = refl

read_above_gap : read_cell vm 8 ≡ some 0x0c0b_0a09
unfolding read_cell data_ptr segment inaccessible copy_word from_ne_bytes
read_above_gap = refl

read_past_code : read_code (record vm { base = some bytes; dat = 8 }) 8 ≡ none
unfolding read_code
read_past_code = refl

read_cell-write_cell_example :
    let (vm', done) = write_cell vm 0 77 in
    (done ≡ not (inaccessible vm 0))
    × (read_cell vm' 8 ≡ (if done && 8 == 0 then some 77 else read_cell vm 8))
    × ((done ≡ false) → vm' ≡ vm)
unfolding segment
read_cell-write_cell_example =
    read_cell-write_cell vm bytes 0 8 77 refl (omega arith) (omega arith) (omega arith)
      (omega arith) (inr (inr (omega arith)))
