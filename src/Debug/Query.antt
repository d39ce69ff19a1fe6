-- ===== src/Debug/Query.antt =====
-- crates/samp-sdk/src/debug/query.rs: what the virtual machine reports, addresses, as what the
-- developer sees, files, lines and symbols. A text is the list of its code points.
pub mod Lookup
pub mod Functions
mod Tests
use mathlib.Core.Option
use rust_samp.Base.{
  ℕ, zero, suc, ◌+◌, ◌-◌, ◌≡◌, Bool, true, false, Option, none, some, List, [], ◌∷◌, ◌&&◌, ◌||◌,
  not, map, length, take, drop, ltb, leb, ◌==◌, if◌then◌else◌,
}
use rust_samp.Base.Words.{sle}
use rust_samp.Base.Search.{take_while, get_last?, find, select, minimum}
use rust_samp.Debug.Types.{
  AmxDbg, DbgFile, DbgLine, DbgSymbol, DbgTag, Ident, function, VClass, global, DbgError, truncated,
}
use rust_samp.Debug.Reader.{Result, ok, err, le_bytes, slice}
use rust_samp.Debug.Parse.{parse}

-- `from_amx`: the block begins where the module's first four bytes say.
pub from_amx : List ℕ → Result AmxDbg
from_amx amx = elim (slice amx 0 4) [
  | none ↦ err truncated
  | some size ↦
      let offset = le_bytes size in
      if leb offset (length amx) then parse (drop offset amx) else err truncated
]

pub lookup_line : AmxDbg → ℕ → Option ℕ
lookup_line d addr =
    Option.map (λ (l : DbgLine). l.line)
      (get_last? (take_while (λ (l : DbgLine). leb l.address addr) d.lines))

pub lookup_file : AmxDbg → ℕ → Option (List ℕ)
lookup_file d addr =
    Option.map (λ (f : DbgFile). f.name)
      (get_last? (take_while (λ (f : DbgFile). leb f.address addr) d.files))

pub text_eq : List ℕ → List ℕ → Bool
text_eq [] [] = true
text_eq (x ∷ xs) (y ∷ ys) = (x == y) && text_eq xs ys
text_eq _ _ = false

-- `starts_with('@')`.
pub is_state_name : List ℕ → Bool
is_state_name [] = false
is_state_name (c ∷ name) = c == b'@'

pub is_function : Ident → Bool
is_function function = true
is_function _ = false

pub covers : ℕ → DbgSymbol → Bool
covers addr s =
    is_function s.ident && leb s.codestart addr && ltb addr s.codeend && not (is_state_name s.name)

pub lookup_function : AmxDbg → ℕ → Option (List ℕ)
lookup_function d addr = Option.map (λ (s : DbgSymbol). s.name) (find (covers addr) d.symbols)

pub is_named : List ℕ → DbgSymbol → Bool
is_named name s = is_function s.ident && text_eq s.name name && not (is_state_name s.name)

-- The addresses of the lines inside a function's code.
pub code_lines : DbgSymbol → List DbgLine → List ℕ
code_lines s lines =
    map (λ (l : DbgLine). l.address)
      (select (λ (l : DbgLine). leb s.codestart l.address && ltb l.address s.codeend) lines)

pub entry_address : DbgSymbol → List DbgLine → ℕ
entry_address s lines = elim (minimum (code_lines s lines)) [ none ↦ s.codestart | some a ↦ a ]

pub function_address : AmxDbg → List ℕ → Option ℕ
function_address d name = elim (find (is_named name) d.symbols) [
  | none ↦ none
  | some func ↦ some (entry_address func d.lines)
]

-- `replace('\\', "/")`.
pub slashes : List ℕ → List ℕ
slashes = map (λ c. if c == b'\\' then b'/' else c)

-- `strip_suffix`.
pub strip_suffix : List ℕ → List ℕ → Option (List ℕ)
strip_suffix text suffix =
    let head = length text - length suffix in
    if leb (length suffix) (length text) && text_eq (drop head text) suffix
    then some (take head text)
    else none

pub ends_with_slash : List ℕ → Bool
ends_with_slash text = elim (get_last? text) [ none ↦ false | some c ↦ c == b'/' ]

is_empty : List ℕ → Bool
is_empty [] = true
is_empty (c ∷ text) = false

pub suffix_at_boundary : List ℕ → List ℕ → Bool
unfolding is_empty
suffix_at_boundary a b = elim (strip_suffix b a) [
  | none ↦ false
  | some head ↦ is_empty head || ends_with_slash head
]

pub file_name_matches : List ℕ → List ℕ → Bool
file_name_matches tbl want =
    let t = slashes tbl in
    let w = slashes want in text_eq t w || (suffix_at_boundary t w || suffix_at_boundary w t)

-- `line >= line` on signed integers.
pub reaches : ℕ → DbgLine → Bool
reaches line l = sle line l.line

abbrev u32_max : ℕ
u32_max = 0xffff_ffff

pub next_address : List DbgFile → ℕ
next_address [] = u32_max
next_address (f ∷ files) = f.address

-- The instances of a file in the file table, from the first.
pub search_files : List DbgFile → List DbgLine → ℕ → List ℕ → Option ℕ
search_files [] lines line want = none
search_files (f ∷ files) lines line want =
    let rest = search_files files lines line want in
    if file_name_matches f.name want
    then (elim (find (reaches line) (
        select (λ (l : DbgLine). leb f.address l.address && ltb l.address (next_address files))
          lines)) [ none ↦ rest | some l ↦ some l.address ])
    else rest

pub line_to_address : AmxDbg → ℕ → Option (List ℕ) → Option ℕ
line_to_address d line none = Option.map (λ (l : DbgLine). l.address) (find (reaches line) d.lines)
line_to_address d line (some want) = search_files d.files d.lines line want

is_global : VClass → Bool
is_global global = true
is_global _ = false

pub symbols_in_scope : AmxDbg → ℕ → List DbgSymbol
unfolding is_global
symbols_in_scope d addr =
    select
      (λ s.
        not (is_function s.ident)
        && (is_global s.vclass || (leb s.codestart addr && ltb addr s.codeend)))
      d.symbols

pub tag_name : AmxDbg → ℕ → Option (List ℕ)
tag_name d tag = Option.map (λ (t : DbgTag). t.name) (find (λ (t : DbgTag). t.tag == tag) d.tags)
