-- ===== src/Cell/Text.antt =====
-- crates/samp-sdk/src/cell/string.rs: AMX strings. A cell is its bit pattern; a string is a list of
-- cells ended by a zero cell (unpacked, a byte in each) or a zero byte (packed, four bytes in each,
-- the first in the high byte). The text's encoding is not the file's: writing takes the encoded
-- bytes and whether a character was lost.
pub mod ZeroByte
pub mod Scan
pub mod Length
pub mod Unpack
pub mod Decode
pub mod Write
mod Tests
use Prim.Native.Nat.{bit_and}
use rust_samp.Base.{
  ℕ, zero, suc, ◌+◌, ◌-◌, ◌*◌, ◌/◌, ◌%◌, Bool, true, false, Option, none, some, List, [], ◌∷◌, ◌++◌,
  ◌&&◌, ◌||◌, not, map, length, take, drop, min, ltb, leb, ◌==◌, if◌then◌else◌,
}
use rust_samp.Base.Words.{wrapping_sub}
use rust_samp.Base.Search.{position, take_while}
use rust_samp.Cell.Error.{memory_access}
use rust_samp.Cell.Buffer
use rust_samp.Cell.Buffer.{UnsizedBuffer, into_sized_buffer}
use rust_samp.Amx.Scope.{Result, ok, err}

abbrev pub max_unpacked : ℕ
max_unpacked = 0x00ff_ffff

abbrev pub max_string_cells : ℕ
max_string_cells = 1_048_576

abbrev pub max_string_len : ℕ
max_string_len = 1_048_576

pub is_packed : ℕ → Bool
is_packed first = ltb max_unpacked first

-- `to_be_bytes`.
pub be_bytes : ℕ → List ℕ
be_bytes cell =
    (cell / 16_777_216 % 256) ∷ (cell / 65_536 % 256) ∷ (cell / 256 % 256) ∷ (cell % 256) ∷ []

-- `!bits`.
pub complement : ℕ → ℕ
complement bits = 0xffff_ffff - bits

pub has_zero_byte : ℕ → Bool
has_zero_byte cell =
    not (bit_and (bit_and (wrapping_sub cell 0x0101_0101) (complement cell)) 0x8080_8080 == 0)

abbrev pub block_size : ℕ
block_size = 16

-- `cells.chunks(BLOCK)`, in at most `fuel` blocks.
pub chunks : ℕ → List ℕ → List (List ℕ)
chunks zero cells = []
chunks (suc fuel) [] = []
chunks (suc fuel) (c ∷ cells) =
    take block_size (c ∷ cells) ∷ chunks fuel (drop block_size (c ∷ cells))

-- `block.iter().fold(false, |found, &cell| found | ends(cell))`.
pub block_ends : (ℕ → Bool) → Bool → List ℕ → Bool
block_ends ends found [] = found
block_ends ends found (c ∷ block) = block_ends ends (found || ends c) block

-- A block holds a cell, so as many blocks as cells are enough.
pub find_cell : List ℕ → (ℕ → Bool) → Option ℕ
find_cell cells ends = elim (position (block_ends ends false) (chunks (length cells) cells)) [
  | none ↦ none
  | some block ↦
      let start = block * block_size in
      elim (position ends (drop start cells)) [ none ↦ none | some at ↦ some (start + at) ]
]

pub is_zero : ℕ → Bool
is_zero c = c == 0

-- `cells[at]`; `find_cell` gives an index inside.
pub cell_at : List ℕ → ℕ → ℕ
cell_at [] i = 0
cell_at (c ∷ cells) zero = c
cell_at (c ∷ cells) (suc i) = cell_at cells i

pub bounded_strlen : List ℕ → Option ℕ
bounded_strlen [] = none
bounded_strlen (first ∷ cells) =
    if is_packed first
    then (elim (find_cell (first ∷ cells) has_zero_byte) [
      | none ↦ none
      | some at ↦ elim (position is_zero (be_bytes (cell_at (first ∷ cells) at))) [
        | none ↦ none
        | some lead ↦ some (at * 4 + lead)
      ]
    ])
    else find_cell (first ∷ cells) is_zero

-- The cells that the string may use, and its length in bytes.
pub record AmxString : Type 0 where
  pub inner : List ℕ
  pub len : ℕ

-- The loop of `to_bytes` over packed cells: `vec` is what it has gathered.
pub unpack : ℕ → List ℕ → List ℕ → List ℕ
unpack len [] vec = vec
unpack len (cell ∷ cells) vec =
    let rest = unpack len cells (vec ++ be_bytes cell) in
    if not (has_zero_byte cell) && leb (length vec + 4) len
    then rest
    else vec ++ take_while (λ b. not (is_zero b)) (take (len - length vec) (be_bytes cell))

pub to_bytes : AmxString → List ℕ
to_bytes s = elim s.inner [
  | [] ↦ []
  | first ∷ cells ↦
      let len = min s.len max_string_len in
      if is_packed first
      then unpack len (first ∷ cells) []
      else map (λ c. c % 256) (take len (first ∷ cells))
]

-- The length in bytes. `strlen` is `amx_StrLen`, which is asked where the machine is null.
pub str_len : (List ℕ → Result ℕ) → UnsizedBuffer → Result ℕ
str_len strlen buffer = elim buffer.max_cells [
  | none ↦ strlen buffer.cells
  | some max_cells ↦ elim (bounded_strlen (take (min max_cells max_string_cells) buffer.cells)) [
    | none ↦ err memory_access
    | some len ↦ ok len
  ]
]

pub with_len : UnsizedBuffer → Result ℕ → Result AmxString
with_len buffer (err e) = err e
with_len buffer (ok len) = ok (record { inner = into_sized_buffer buffer (len + 1); len = len })

pub of_buffer : (List ℕ → Result ℕ) → Result UnsizedBuffer → Result AmxString
of_buffer strlen (err e) = err e
of_buffer strlen (ok buffer) = with_len buffer (str_len strlen buffer)

pub from_raw :
    Option (ℕ → ℕ × Option (ℕ × List ℕ)) → (List ℕ → Result ℕ) → Option ℕ → ℕ → Result AmxString
from_raw get_addr strlen stp cell = of_buffer strlen (Buffer.from_raw get_addr stp cell)

-- The cells of `buffer` after the bytes are written over them and a zero behind them.
pub write_bytes : List ℕ → List ℕ → List ℕ
write_bytes [] bytes = []
write_bytes (c ∷ buffer) [] = 0 ∷ buffer
write_bytes (c ∷ buffer) (b ∷ bytes) = b ∷ write_bytes buffer bytes

-- `none` is `AmxError::General`; otherwise the buffer, and whether a character was lost.
pub put_in_buffer_checked : List ℕ → List ℕ × Bool → Option (List ℕ × Bool)
put_in_buffer_checked buffer (bytes, had_unmappable) =
    if leb (length buffer) (length bytes)
    then none
    else some (write_bytes buffer bytes, had_unmappable)
