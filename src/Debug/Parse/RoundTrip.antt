-- ===== src/Debug/Parse/RoundTrip.antt =====
-- Parsing the bytes of a debug block gives the block (crates/samp-sdk/src/debug/parse.rs).
use rust_samp.Base.{
  ℕ, suc, ◌+◌, ◌-◌, ◌*◌, ◌/◌, ◌%◌, ◌≤◌, ◌≡◌, refl, sym, subst, ap, ◌∙◌, false, none, some, List, [],
  ◌∷◌, ◌++◌, map, append-nil, append_assoc, length, length-append, All, arith, gt→leb, ge→ltb,
}
use rust_samp.Base.Search.{All-map}
use rust_samp.Base.Words.{u32_mod}
use rust_samp.Debug.Types.{
  Ident, variable, reference, array, ref_array, function, VClass, global, local, argument, DbgFile,
  DbgLine, DbgSymDim, DbgSymbol, DbgTag, AmxDbg, ident_from_byte, vclass_from_byte,
}
use rust_samp.Debug.Reader.{ok, Reader, M, pure, repeat, remaining}
use rust_samp.Debug.Reader.Reads.{
  Reads, bind-Reads, map-Reads, pure-Reads, bind-ok, fits, u8-Reads, u16-Reads, i16-Reads,
  count-Reads, u32-Reads, i32-Reads, cstr-Reads, repeat-Reads, IsName, print_all,
}
use rust_samp.Debug.Parse.{
  next_line, Lines, read_block, read_blocks, read_line_table, file_entry, dim_entry, symbol_entry,
  tag_entry, automaton_entry, state_entry, tables, header, value, parse, amx_dbg_magic,
}
use rust_samp.Debug.Parse.Print.{
  ident_byte, IsIdent, vclass_byte, IsVClass, print_file, print_line, IsLine, print_dim,
  print_symbol, IsSymbol, print_tag, Skipped, print_automaton, print_state, IsBlock, print_tables,
  print,
}

next_line-print : (l : DbgLine) → IsLine l → next_line ((l.line + u32_mod - 1) % u32_mod) ≡ l.line
unfolding next_line
next_line-print l h = ground arith

ident-print : (i : Ident) → IsIdent i → ident_from_byte (ident_byte i) ≡ i
unfolding ident_from_byte
ident-print variable h = refl
ident-print reference h = refl
ident-print array h = refl
ident-print ref_array h = refl
ident-print function h = refl
ident-print (Ident.other b) h = ground arith

vclass-print : (v : VClass) → IsVClass v → vclass_from_byte (vclass_byte v) ≡ v
unfolding vclass_from_byte
vclass-print global h = refl
vclass-print local h = refl
vclass-print argument h = refl
vclass-print (VClass.other b) h = ground arith

file-Reads : (f : DbgFile) → IsName f.name → Reads file_entry (print_file f) f
unfolding file_entry
file-Reads f h =
    bind-Reads _ (u32-Reads f.address) (map-Reads _ (cstr-Reads f.name h) (pure-Reads f))

dim-Reads : (d : DbgSymDim) → Reads dim_entry (print_dim d) d
unfolding dim_entry
dim-Reads d = bind-Reads _ (i16-Reads d.tag) (map-Reads _ (u32-Reads d.size) (pure-Reads d))

tag-Reads : (t : DbgTag) → IsName t.name → Reads tag_entry (print_tag t) t
unfolding tag_entry
tag-Reads t h = bind-Reads _ (i16-Reads t.tag) (map-Reads _ (cstr-Reads t.name h) (pure-Reads t))

automaton-Reads : (a : ℕ × ℕ × List ℕ) → IsName a.2 → Reads automaton_entry (print_automaton a) tt
unfolding automaton_entry
automaton-Reads a h =
    bind-Reads _ (i16-Reads a.0)
      (bind-Reads _ (u32-Reads a.1) (map-Reads _ (cstr-Reads a.2 h) (pure-Reads tt)))

state-Reads : (a : ℕ × ℕ × List ℕ) → IsName a.2 → Reads state_entry (print_state a) tt
unfolding state_entry
state-Reads a h =
    bind-Reads _ (i16-Reads a.0)
      (bind-Reads _ (i16-Reads a.1) (map-Reads _ (cstr-Reads a.2 h) (pure-Reads tt)))

All-total : {A : Type 0} {Q : A → Type 0} (xs : List A) → ((x : A) → Q x) → All Q xs
All-total [] f = tt
All-total (x ∷ xs) f = (f x, All-total xs f)

map-id : {A : Type 0} (xs : List A) → map (λ x. x) xs ≡ xs
map-id [] = refl
map-id (x ∷ xs) = ap (◌∷◌ x) (map-id xs)

-- A table whose entries are kept as they are read.
table-Reads :
    {A : Type 0} (m : M A) (print : A → List ℕ) (xs : List A)
    → All (λ x. Reads m (print x) x) xs
    → Reads (repeat (length xs) m) (print_all print xs) xs
table-Reads m print xs h =
    subst (Reads (repeat (length xs) m) (print_all print xs)) (map-id xs)
      (repeat-Reads m print (λ x. x) xs h)

symbol-Reads : (s : DbgSymbol) → IsSymbol s → Reads symbol_entry (print_symbol s) s
unfolding symbol_entry
symbol-Reads s (name, ident, vclass) =
    subst (Reads symbol_entry (print_symbol s))
      (λ i. record s {
        ident = ident-print s.ident ident i;
        vclass = vclass-print s.vclass vclass i;
      })
      (bind-Reads _ (u32-Reads s.address) (
        bind-Reads _ (i16-Reads s.tag) (
          bind-Reads _ (u32-Reads s.codestart) (
            bind-Reads _ (u32-Reads s.codeend) (
              bind-Reads _ (u8-Reads (ident_byte s.ident)) (
                bind-Reads _ (u8-Reads (vclass_byte s.vclass)) (
                  bind-Reads _ (count-Reads (length s.dims)) (
                    bind-Reads _ (cstr-Reads s.name name) (
                      map-Reads _
                        (table-Reads dim_entry print_dim s.dims (All-total s.dims dim-Reads))
                        (pure-Reads _))))))))))

-- The lines read so far, and then `ls`.
extend : Lines → List DbgLine → Lines
extend t [] = t
extend t (l ∷ ls) = extend (record { table = t.table ++ l ∷ []; last_addr = some l.address }) ls

table-extend : (t : Lines) (ls : List DbgLine) → (extend t ls).table ≡ t.table ++ ls
unfolding extend
table-extend t [] = sym (append-nil t.table)
table-extend t (l ∷ ls) = table-extend _ ls ∙ append_assoc t.table (l ∷ []) ls

block-Reads :
    (max_lines : ℕ) (ls : List DbgLine) (t : Lines)
    → length t.table + length ls ≤ max_lines
    → All IsLine ls
    → Reads (read_block max_lines (length ls) t) (print_all print_line ls) (extend t ls)
unfolding read_block extend
block-Reads max_lines [] t fit h = pure-Reads t
block-Reads max_lines (l ∷ ls) t fit h =
    let t' : Lines = record { table = t.table ++ l ∷ []; last_addr = some l.address } in
    let rest = block-Reads max_lines ls t' (omega (arith, length-append t.table (l ∷ []))) h.1 in
    rw (gt→leb max_lines (length t.table) (omega arith)) (
      bind-Reads _ (u32-Reads l.address) (
        bind-Reads _ (i32-Reads ((l.line + u32_mod - 1) % u32_mod)) (
          subst
            (λ w.
              Reads
                (read_block max_lines (length ls) (record {
                  table = t.table ++ record { address = l.address; line = w } ∷ [];
                  last_addr = some l.address;
                }))
                (print_all print_line ls) (extend t' ls))
            (sym (next_line-print l h.0)) rest)))

length-print_lines : (ls : List DbgLine) → length (print_all print_line ls) ≡ 8 * length ls
length-print_lines [] = omega arith
length-print_lines (l ∷ ls) = omega (arith, length-print_lines ls)

-- Without the overflow guess the loop ends after one block.
read_blocks-once :
    (fuel max_lines n : ℕ) (t t' : Lines) (r r' : Reader)
    → read_block max_lines n t r ≡ ok (t', r')
    → read_blocks (suc fuel) false max_lines n t r ≡ ok (t', r')
unfolding read_blocks
read_blocks-once fuel max_lines n t t' r r' e = bind-ok _ _ r r' t' e

lines-Reads :
    (ls : List DbgLine)
    → length ls ≤ 32_767
    → All IsLine ls
    → Reads (read_line_table (length ls)) (print_all print_line ls) ls
unfolding read_line_table remaining pure
lines-Reads ls few h = record {
  reads = λ r rest e.
      let start : Lines = record { table = []; last_addr = none } in
      let max_lines = (length r.buf - r.pos) / 8 in
      let r' : Reader = record r { pos = r.pos + length (print_all print_line ls) } in
      let two : max_lines + 2 ≡ suc (max_lines + 1) = omega arith in
      let fit : 0 + length ls ≤ max_lines =
        omega (arith, length-print_lines ls, fits (print_all print_line ls) rest r.buf r.pos e) in
      let block = (block-Reads max_lines ls start fit h).reads r rest e in
      rw (ge→ltb 32_767 (length ls) few, two)
        (bind-ok _ _ r r' (extend start ls) (read_blocks-once _ max_lines _ start _ r r' block)
          ∙ ap (λ t. ok (t, r')) (table-extend start ls));
}

tables-Reads :
    (d : AmxDbg) (k : Skipped)
    → IsBlock d k
    → Reads
        (tables d.file_version d.amx_version
          (length d.files)
          (length d.lines)
          (length d.symbols)
          (length d.tags)
          (length k.automatons)
          (length k.states))
        (print_tables d k)
        d
unfolding tables
tables-Reads d k h =
    bind-Reads _ (table-Reads file_entry print_file d.files (All-map d.files file-Reads h.files)) (
      bind-Reads _ (lines-Reads d.lines h.few_lines h.lines) (
        bind-Reads _
          (table-Reads symbol_entry print_symbol d.symbols
            (All-map d.symbols symbol-Reads h.symbols))
          (bind-Reads _ (table-Reads tag_entry print_tag d.tags (All-map d.tags tag-Reads h.tags)) (
            bind-Reads _
              (repeat-Reads automaton_entry print_automaton (λ a. tt) k.automatons
                (All-map k.automatons automaton-Reads h.automatons))
              (map-Reads _
                (repeat-Reads state_entry print_state (λ a. tt) k.states
                  (All-map k.states state-Reads h.states))
                (pure-Reads d))))))

header-Reads : (d : AmxDbg) (k : Skipped) → IsBlock d k → Reads header (print d k) d
unfolding header
header-Reads d k h = bind-Reads _ (i32-Reads k.size) (
    bind-Reads _ (u16-Reads amx_dbg_magic) (
      bind-Reads _ (pure-Reads tt) (
        bind-Reads _ (u8-Reads d.file_version) (
          bind-Reads _ (u8-Reads d.amx_version) (
            bind-Reads _ (i16-Reads k.flags) (
              bind-Reads _ (count-Reads (length d.files)) (
                bind-Reads _ (count-Reads (length d.lines)) (
                  bind-Reads _ (count-Reads (length d.symbols)) (
                    bind-Reads _ (count-Reads (length d.tags)) (
                      bind-Reads _ (count-Reads (length k.automatons)) (
                        bind-Reads _ (count-Reads (length k.states)) (tables-Reads d k h))))))))))))

-- Parsing the bytes of a well-formed debug block with fewer than 32,768 lines gives the block,
-- whatever stands in the fields that the parser skips and whatever bytes follow the block.
pub parse-print :
    (d : AmxDbg) (k : Skipped) (rest : List ℕ) → IsBlock d k → parse (print d k ++ rest) ≡ ok d
unfolding parse value
parse-print d k rest h =
    rw ((header-Reads d k h).reads (record { buf = print d k ++ rest; pos = 0 }) rest refl, value)
