-- ===== src/PawnInclude/Template/Tests.antt =====
-- Runs of the templates (crates/samp/src/pawn_include.rs), on ASCII letters and digits.
use rust_samp.Base.{ℕ, ◌↔◌, ◌≤◌, ◌≡◌, refl, false, none, List, [], ◌∷◌, ◌++◌, map}
use rust_samp.Base.Text.{
  Text, codes, eq_text, is_whitespace, trim, trim_start, strip_prefix, find_behind, split_once,
  rsplit_once, contains, to_ascii_lower, is_ascii_alphanumeric,
}
use rust_samp.Base.Search.{any, find, position}
use rust_samp.PawnInclude.Document.{is_empty, pawndoc}
use rust_samp.PawnInclude.Scan.{without_comments, strip, kept, next_mode, peeks}
use rust_samp.PawnInclude.Parse.{
  Unicode, parse, parse_declarations, rounds, round, declared_at, declaration, head_of, alias_of,
  tail_of, is_name, is_blank, parse_arguments, parse_argument, split_arguments, split_from, before,
  trim_start_matches, trim_prefixes, starts_with, untyped, shape_of, tag_and_rest, next_depth,
}
use rust_samp.PawnInclude.Template.{
  Template, ok, split_at, byte_length, join, guard_character, guard_symbol, alias_line, doc_at,
  contains_index, place, declare, collect, placed_natives, index_of, place_native, document,
  name_of, value_of, variable, version, expand_plain, expand, emit, take_in, fill, render_from,
  unplaced, conclude, render,
}
use rust_samp.PawnInclude.Template.Rendered.{Piece, print, IsTemplate, empty, filled, render-print}
use rust_samp.PawnInclude.Template.Unique.{Distinct, Expansions, declared, woven, render-Distinct}
use rust_samp.PawnInclude.Template.Guard.{IsWord, IsSymbol, guard_symbol-IsSymbol}

abbrev ascii : Unicode
ascii = record { to_lowercase = λ s. map to_ascii_lower s; is_alphanumeric = is_ascii_alphanumeric }

-- The guard and the natives.
abbrev pieces : List Piece
pieces = (codes "#", codes "GUARD") ∷ (codes " ", codes "NATIVES") ∷ []

abbrev template : Template
template = record {
  source = print pieces ([]);
  callbacks = [];
  docs = [];
  with_docs = false;
  natives = (codes "native f();", codes "f") ∷ [];
  vars = [];
  plugin_name = codes "-";
}

pieces-IsTemplate : IsTemplate pieces ([])
pieces-IsTemplate = (
  (refl, tt),
  (
    (refl, (refl, (refl, (refl, (refl, tt))))),
    ((refl, tt), ((refl, (refl, (refl, (refl, (refl, (refl, (refl, tt))))))), tt)),
  ),
)

rendered : render ascii none template ≡ ok (codes "#___included native f();")
unfolding is_empty pawndoc any position find render render_from conclude unplaced fill take_in emit
    expand expand_plain version variable value_of name_of document place_native index_of
    placed_natives collect declare place contains_index doc_at alias_line guard_symbol
    guard_character join byte_length split_at parse parse_declarations rounds round declared_at
    declaration head_of alias_of tail_of is_name is_blank parse_arguments parse_argument
    split_arguments split_from before trim_start_matches trim_prefixes starts_with untyped shape_of
    tag_and_rest next_depth without_comments strip kept next_mode peeks eq_text is_whitespace trim
    trim_start strip_prefix find_behind split_once rsplit_once contains to_ascii_lower
    is_ascii_alphanumeric
rendered = refl

render-print_example :
    render ascii none template
    ≡ conclude ascii none template (filled ascii none template pieces empty, [])
render-print_example = render-print ascii none template pieces [] pieces-IsTemplate refl

render-Distinct_example :
    (es : List Text) × (last : List ℕ) × Expansions ascii none template pieces [] es last
    × (codes "#___included native f();" ≡ woven ascii pieces es ++ [])
    × Distinct [] (declared ascii es)
    × (unplaced ascii none template 0 template.natives last ≡ [])
render-Distinct_example =
    render-Distinct ascii none template pieces [] (codes "#___included native f();")
      pieces-IsTemplate refl rendered

guard_symbol-IsSymbol_example :
    IsWord (guard_symbol (codes "a-b"))
    × (IsSymbol (guard_symbol (codes "a-b")) ↔ (3 ≤ 21))
    × ((rest : Text) × (guard_symbol (codes "a-b") ≡ b'_' ∷ rest))
guard_symbol-IsSymbol_example = guard_symbol-IsSymbol (codes "a-b")

-- The name of a native that stands in the keyword is replaced there.
alias_in_keyword :
    alias_line (codes "native at();") (codes "at") (codes "get") ≡ codes "ngetive at() = at;"
unfolding alias_line split_at strip_prefix rsplit_once split_once
alias_in_keyword = refl
