-- ===== src/Debug/Parse/Tests.antt =====
-- Concrete debug blocks for crates/samp-sdk/src/debug/parse.rs.
use rust_samp.Base.{◌≤◌, ◌≡◌, ◌⊎◌, refl, [], ◌∷◌, ◌++◌, ◌/◌, ◌-◌, length, arith}
use rust_samp.Debug.Types.{
  AmxDbg, DbgError, function, array, global, local, truncated, bad_magic, ident_from_byte,
  vclass_from_byte,
}
use rust_samp.Debug.Reader.{
  ok, err, Reader, u8, u16, i16, u32, i32, count, cstr, take_bytes, le_bytes, find_zero, repeat,
  remaining, peek_u32, ◌>>=◌, pure, fail,
}
use rust_samp.Debug.Reader.Safe.{Within}
use rust_samp.Debug.Parse.{
  parse, value, header, tables, file_entry, read_line_table, read_blocks, read_block, grows,
  next_line, symbol_entry, dim_entry, tag_entry, automaton_entry, state_entry,
}
use rust_samp.Debug.Parse.Print.{print, Skipped, IsBlock}
use rust_samp.Debug.Parse.RoundTrip.{parse-print}
use rust_samp.Debug.Parse.Total.{parse_total, read_line_table-Within}

-- A file `a.pwn`, a function `main` of two lines and a local array `buf`.
abbrev script : AmxDbg
script = record {
  file_version = 8;
  amx_version = 10;
  files = record { address = 0; name = b'a' ∷ b'.' ∷ b'p' ∷ b'w' ∷ b'n' ∷ [] } ∷ [];
  lines = record { address = 8; line = 3 } ∷ record { address = 20; line = 4 } ∷ [];
  symbols =
      record {
        address = 8;
        tag = 0;
        codestart = 8;
        codeend = 40;
        ident = function;
        vclass = global;
        name = b'm' ∷ b'a' ∷ b'i' ∷ b'n' ∷ [];
        dims = [];
      }
      ∷ record {
        address = 0xffff_fff8;
        tag = 1;
        codestart = 8;
        codeend = 40;
        ident = array;
        vclass = local;
        name = b'b' ∷ b'u' ∷ b'f' ∷ [];
        dims = record { tag = 0; size = 32 } ∷ [];
      }
      ∷ [];
  tags = record { tag = 1; name = b'F' ∷ b'l' ∷ [] } ∷ [];
}

abbrev extras : Skipped
extras = record {
  size = 200;
  flags = 0;
  automatons = (1, 0, b'x' ∷ []) ∷ [];
  states = (0, 1, b'y' ∷ []) ∷ [];
}

script-IsBlock : IsBlock script extras
script-IsBlock = record {
  files = omega arith;
  lines = omega arith;
  few_lines = omega arith;
  symbols = omega arith;
  tags = omega arith;
  automatons = omega arith;
  states = omega arith;
}

parse-print_example : parse (print script extras ++ 7 ∷ 7 ∷ []) ≡ ok script
parse-print_example = parse-print script extras (7 ∷ 7 ∷ []) script-IsBlock

-- The same by evaluation.
parse-script : parse (print script extras) ≡ ok script
unfolding parse value header tables file_entry read_line_table read_blocks read_block grows
    next_line symbol_entry dim_entry tag_entry automaton_entry state_entry u8 u16 i16 u32 i32 count
    cstr take_bytes le_bytes find_zero repeat remaining ◌>>=◌ pure fail ident_from_byte
    vclass_from_byte peek_u32
parse-script = refl

-- A cut block, and one with the wrong magic.
parse_cut : parse (200 ∷ 0 ∷ 0 ∷ []) ≡ err truncated
unfolding parse value header i32 take_bytes ◌>>=◌
parse_cut = refl

parse_magic : parse (0 ∷ 0 ∷ 0 ∷ 0 ∷ 1 ∷ 2 ∷ []) ≡ err (bad_magic 0x201)
unfolding parse value header i32 u16 take_bytes le_bytes ◌>>=◌ pure fail
parse_magic = refl

parse_total_example :
    ((d : AmxDbg) × (parse (print script extras) ≡ ok d))
    ⊎ ((e : DbgError) × (parse (print script extras) ≡ err e))
parse_total_example = parse_total (print script extras)

abbrev cut_table : Reader
cut_table = record { buf = 1 ∷ 8 ∷ 0 ∷ 0 ∷ 0 ∷ 2 ∷ 0 ∷ 0 ∷ 0 ∷ 9 ∷ 0 ∷ 0 ∷ []; pos = 1 }

-- The header counts more lines than the block holds: the loop stops at those that fit.
read_line_table-Within_example :
    Within
      (λ table. length table ≤ (length cut_table.buf - cut_table.pos) / 8)
      cut_table
      (read_line_table 40_000 cut_table)
read_line_table-Within_example = read_line_table-Within 40_000 cut_table (omega arith)
