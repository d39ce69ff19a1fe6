-- ===== src/Debug/Query/Tests.antt =====
-- Queries of crates/samp-sdk/src/debug/query.rs over a small debug block.
use mathlib.Core.Option
use rust_samp.Base.{ℕ, ◌≡◌, refl, Option, some, List, [], ◌∷◌, arith}
use rust_samp.Base.Search.{find, select, minimum, take_while, get_last?}
use rust_samp.Debug.Types.{AmxDbg, DbgLine, function, global}
use rust_samp.Debug.Query.{
  lookup_line, lookup_function, function_address, covers, is_named, is_function, text_eq,
  is_state_name, entry_address, code_lines,
}
use rust_samp.Debug.Query.Lookup.{IsLast, lookup_line-IsLast}
use rust_samp.Debug.Query.Functions.{lookup_function-function_address}

abbrev main_name : List ℕ
main_name = b'm' ∷ b'a' ∷ b'i' ∷ b'n' ∷ []

abbrev file_name : List ℕ
file_name = b'g' ∷ b'/' ∷ b'a' ∷ []

abbrev block : AmxDbg
block = record {
  file_version = 8;
  amx_version = 10;
  files = record { address = 0; name = file_name } ∷ record { address = 24; name = b'b' ∷ [] } ∷ [];
  lines =
      record { address = 8; line = 3 }
      ∷ record { address = 20; line = 4 }
      ∷ record { address = 28; line = 1 }
      ∷ [];
  symbols =
      record {
        address = 4;
        tag = 0;
        codestart = 4;
        codeend = 24;
        ident = function;
        vclass = global;
        name = main_name;
        dims = [];
      }
      ∷ [];
  tags = [];
}

lookup_line-IsLast_example :
    (r : Option DbgLine) × (lookup_line block 25 ≡ Option.map (λ (l : DbgLine). l.line) r)
    × IsLast (λ (l : DbgLine). l.address) 25 block.lines r
lookup_line-IsLast_example = lookup_line-IsLast block 25 (omega arith)

line_at : lookup_line block 25 ≡ some 4
unfolding lookup_line take_while get_last?
line_at = refl

lookup_function-function_address_example : lookup_function block 8 ≡ some main_name
unfolding covers is_named is_function is_state_name text_eq function_address find entry_address
    minimum code_lines select
lookup_function-function_address_example =
    lookup_function-function_address block main_name 8 refl ((λ _. refl), tt)
      ((λ _. omega arith), tt)
