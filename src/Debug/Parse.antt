-- ===== src/Debug/Parse.antt =====
-- `parse` and `read_line_table` of crates/samp-sdk/src/debug/parse.rs. `Vec::with_capacity` only
-- reserves memory, so `safe_cap` bounds no result; it is modelled for its bound alone.
pub mod Capacity
mod Tests
pub mod Print
pub mod RoundTrip
pub mod Total
use rust_samp.Base.{
  ℕ, zero, suc, ◌+◌, ◌-◌, ◌*◌, ◌/◌, ◌%◌, Bool, true, false, Option, none, some, List, [], ◌∷◌, ◌++◌,
  length, ltb, leb, ◌==◌, if◌then◌else◌, min, max,
}
use rust_samp.Base.Words.{u32_mod, sign_bit}
use rust_samp.Debug.Types.{
  DbgFile, DbgLine, DbgSymDim, DbgSymbol, DbgTag, AmxDbg, bad_magic, ident_from_byte,
  vclass_from_byte,
}
use rust_samp.Debug.Reader.{
  Result, ok, err, out_of_fuel, Reader, M, ◌>>=◌, ◌>>◌, pure, fail, u8, u16, i16, count, u32, i32,
  peek_u32, remaining, cstr, repeat,
}

abbrev pub amx_dbg_magic : ℕ
amx_dbg_magic = 0xf1ef

abbrev pub line_size : ℕ
line_size = 8

pub safe_cap : ℕ → ℕ → ℕ → ℕ
safe_cap count entry_min remaining = min count (remaining / max entry_min 1)

-- `saturating_add(1)` on the bit pattern of an `i32`.
unfoldable pub next_line : ℕ → ℕ
next_line w = if w == 0x7fff_ffff then w else (w + 1) % u32_mod

-- The table read so far, and the address of its last line.
pub record Lines : Type 0 where
  pub table : List DbgLine
  pub last_addr : Option ℕ

-- `for _ in 0..to_read`, with its break at `max_lines`.
pub read_block : ℕ → ℕ → Lines → M Lines
read_block max_lines zero t = pure t
read_block max_lines (suc to_read) t =
    let one_more = do
      address ← u32
      line ← i32
      let entry : DbgLine = record { address = address; line = next_line line }
      read_block max_lines to_read
          (record { table = t.table ++ entry ∷ []; last_addr = some address })
    in if leb max_lines (length t.table) then pure t else one_more

abbrev pub block_lines : ℕ
block_lines = 65_536

-- What the loop does after a block: read `block_lines` more where the addresses keep growing.
pub grows : ℕ → Lines → Reader → Bool
grows max_lines t r = elim t.last_addr [
  | none ↦ false
  | some prev ↦
      if leb max_lines (length t.table)
      then false
      else elim (peek_u32 r) [ none ↦ false | some next_addr ↦ ltb prev next_addr ]
]

pub read_blocks : ℕ → Bool → ℕ → ℕ → Lines → M Lines
read_blocks zero overflow_possible max_lines to_read t r = out_of_fuel
read_blocks (suc fuel) overflow_possible max_lines to_read t r =
    (read_block max_lines to_read t >>= λ t' r'.
    let more = read_blocks fuel overflow_possible max_lines block_lines t' r' in
    if overflow_possible
    then (if grows max_lines t' r' then more else ok (t', r'))
    else ok (t', r'))
      r

-- Each block but the first reads a line, so `max_lines + 2` rounds are enough.
pub read_line_table : ℕ → M (List DbgLine)
read_line_table lines r =
    let max_lines = remaining r / line_size in
    (do
      t ←
          read_blocks (max_lines + 2) (ltb 32_767 lines) max_lines lines
            (record { table = []; last_addr = none })
      pure t.table)
      r

pub file_entry : M DbgFile
file_entry = do address ← u32; name ← cstr; pure (record { address = address; name = name })

pub dim_entry : M DbgSymDim
dim_entry = do tag ← i16; size ← u32; pure (record { tag = tag; size = size })

pub symbol_entry : M DbgSymbol
symbol_entry = do
  address ← u32
  tag ← i16
  codestart ← u32
  codeend ← u32
  ident ← u8
  vclass ← u8
  dim ← count
  name ← cstr
  dims ← repeat dim dim_entry
  pure (record {
    address = address;
    tag = tag;
    codestart = codestart;
    codeend = codeend;
    ident = ident_from_byte ident;
    vclass = vclass_from_byte vclass;
    name = name;
    dims = dims;
  })

pub tag_entry : M DbgTag
tag_entry = do tag ← i16; name ← cstr; pure (record { tag = tag; name = name })

-- Automatons and states are read to move on, and dropped.
pub automaton_entry : M (Unit {0})
automaton_entry = do i16; u32; cstr; pure tt

pub state_entry : M (Unit {0})
state_entry = do i16; i16; cstr; pure tt

pub tables : ℕ → ℕ → ℕ → ℕ → ℕ → ℕ → ℕ → ℕ → M AmxDbg
tables file_version amx_version files lines symbols tags automatons states = do
  file_tbl ← repeat files file_entry
  line_tbl ← read_line_table lines
  sym_tbl ← repeat symbols symbol_entry
  tag_tbl ← repeat tags tag_entry
  repeat automatons automaton_entry
  repeat states state_entry
  pure (record {
    file_version = file_version;
    amx_version = amx_version;
    files = file_tbl;
    lines = line_tbl;
    symbols = sym_tbl;
    tags = tag_tbl;
  })

pub header : M AmxDbg
header = do
  size ← i32
  magic ← u16
  (if magic == amx_dbg_magic then pure tt else fail (bad_magic magic))
  file_version ← u8
  amx_version ← u8
  flags ← i16
  files ← count
  lines ← count
  symbols ← count
  tags ← count
  automatons ← count
  states ← count
  tables file_version amx_version files lines symbols tags automatons states

pub value : {A : Type 0} → Result (A × Reader) → Result A
value (ok (a, r)) = ok a
value (err e) = err e
value out_of_fuel = out_of_fuel

pub parse : List ℕ → Result AmxDbg
parse bytes = value (header (record { buf = bytes; pos = 0 }))
