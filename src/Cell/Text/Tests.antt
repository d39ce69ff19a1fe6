-- ===== src/Cell/Text/Tests.antt =====
-- Strings written, read and measured, on the inputs of the tests of crates/samp-sdk/src/cell/string.rs.
use mathlib.Core.Option
use rust_samp.Base.{ℕ, ◌≡◌, refl, Bool, true, Option, some, List, [], ◌∷◌, take, length, arith}
use rust_samp.Base.Search.{any, position}
use rust_samp.Cell.Text.{
  be_bytes, block_ends, cell_at, chunks, complement, is_packed, has_zero_byte, is_zero, find_cell,
  bounded_strlen, of_buffer, from_raw, to_bytes, put_in_buffer_checked, max_string_cells,
  max_string_len,
}
use rust_samp.Cell.Text.ZeroByte.{has_zero_byte-any}
use rust_samp.Cell.Text.Length.{units, bounded_strlen-units}
use rust_samp.Cell.Text.Decode.{text, decoded, map_ok, to_bytes-from_raw}
use rust_samp.Cell.Error.{not_found}
use rust_samp.Amx.Scope.{Result, ok, err}
use rust_samp.Cell.Buffer.{cells_below, get_ref}
use rust_samp.Cell.Text.Write.{put_in_buffer_checked-from_raw}

-- "Hell" "o" packed, and "Hi" unpacked.
abbrev hello : List ℕ
hello = 0x4865_6c6c ∷ 0x6f00_0000 ∷ 0x0101_0101 ∷ []

abbrev hi : List ℕ
hi = 72 ∷ 105 ∷ []

abbrev junk : List ℕ
junk = 9 ∷ 0xffff_ffff ∷ 9 ∷ 9 ∷ []

strlen-hello : bounded_strlen hello ≡ some 5
unfolding bounded_strlen find_cell position is_packed chunks block_ends has_zero_byte complement
    be_bytes is_zero cell_at
strlen-hello = refl

has_zero_byte-any_example : has_zero_byte 0x6f00_0000 ≡ any is_zero (be_bytes 0x6f00_0000)
has_zero_byte-any_example = has_zero_byte-any 0x6f00_0000 (omega arith)

bounded_strlen-units_example : bounded_strlen hello ≡ position is_zero (units hello)
bounded_strlen-units_example =
    bounded_strlen-units hello (omega arith, (omega arith, (omega arith, tt)))

-- The machine gives the text for every address, and no server's length.
abbrev get_addr : ℕ → ℕ × Option (ℕ × List ℕ)
get_addr address = (0, some (0, hello))

abbrev no_strlen : List ℕ → Result ℕ
no_strlen cells = err not_found

found : get_ref (some get_addr) 40 ≡ ok hello
unfolding get_ref
found = refl

to_bytes-from_raw_example :
    let cells = take (cells_below 52 40) hello in
    map_ok to_bytes (from_raw (some get_addr) no_strlen (some 52) 40)
    ≡ decoded (
        Option.map
          (λ n. text max_string_cells max_string_len cells)
          (position is_zero (units (take max_string_cells cells))))
to_bytes-from_raw_example =
    to_bytes-from_raw (some get_addr) no_strlen 52 40 hello found
      (omega arith, (omega arith, (omega arith, tt)))

put_in_buffer_checked-from_raw_example :
    Option.map {B = Bool × Result (List ℕ)}
      (λ r. (
        r.1,
        map_ok to_bytes
            (of_buffer no_strlen (ok (record { cells = r.0; max_cells = some (length r.0) }))),
      ))
      (put_in_buffer_checked junk (hi, true))
    ≡ some (true, ok hi)
unfolding is_zero
put_in_buffer_checked-from_raw_example =
    put_in_buffer_checked-from_raw no_strlen junk hi true
      (omega arith, (omega arith, (omega arith, (omega arith, tt))))
      ((omega arith, refl), ((omega arith, refl), tt)) (omega arith) (omega arith)
