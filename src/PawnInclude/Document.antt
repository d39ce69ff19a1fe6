-- ===== src/PawnInclude/Document.antt =====
-- crates/samp/src/pawn_include.rs: `pawndoc`, which makes a Pawn documentation comment of a doc comment.
pub mod Escape
mod Tests
use mathlib.Core.List.{reverse}
use rust_samp.Base.{
  ℕ, Bool, true, false, not, Option, none, some, List, [], ◌∷◌, ◌++◌, ◌||◌, map, ◌==◌,
  if◌then◌else◌,
}
use rust_samp.Base.Text.{Text, codes, is_whitespace, trim, strip_prefix}

-- `str::replace` of a character.
pub replace : ℕ → Text → Text → Text
replace c by [] = []
replace c by (d ∷ text) = if d == c then by ++ replace c by text else d ∷ replace c by text

pub escape : Text → Text
escape text =
    replace b'>' (codes "&gt;") (replace b'<' (codes "&lt;") (replace b'&' (codes "&amp;") text))

push : ℕ → List Text → List Text
push c [] = (c ∷ []) ∷ []
push c (line ∷ rest) = (c ∷ line) ∷ rest

-- `str::lines`; a carriage return at the end of a line is trimmed with the line.
pub lines : Text → List Text
unfolding push
lines [] = []
lines (c ∷ text) = if c == b'\n' then [] ∷ lines text else push c (lines text)

unfoldable pub is_empty : Text → Bool
is_empty [] = true
is_empty (c ∷ text) = false

-- `split_once(char::is_whitespace)`, and the whole where there is none.
pub split_word : Text → Text × Text
split_word [] = ([], [])
split_word (c ∷ text) =
    let (name, rest) = split_word text in if is_whitespace c then ([], text) else (c ∷ name, rest)

pub param_tag : Text → Text
param_tag rest =
    let (name, text) = split_word rest in
    codes "<param name=\""
    ++ (escape name ++ (codes "\">" ++ (escape (trim text) ++ codes "</param>")))

-- The tag that a line is made into.
pub tag_of : Text → Option Text
tag_of [] = none
tag_of (c ∷ text) =
    if c == b'<' then some (c ∷ text) else elim (strip_prefix (codes "@param ") (c ∷ text)) [
      | some rest ↦ some (param_tag rest)
      | none ↦ elim (strip_prefix (codes "@returns ") (c ∷ text)) [
        | some rest ↦ some (codes "<returns>" ++ (escape (trim rest) ++ codes "</returns>"))
        | none ↦ elim (strip_prefix (codes "@remarks ") (c ∷ text)) [
          | some rest ↦ some (codes "<remarks>" ++ (escape (trim rest) ++ codes "</remarks>"))
          | none ↦ elim (strip_prefix (codes "@seealso ") (c ∷ text)) [
            | some rest ↦ some (codes "<seealso name=\"" ++ (escape (trim rest) ++ codes "\" />"))
            | none ↦ none
          ]
        ]
      ]
    ]

pub record Doc : Type 0 where
  pub summary : List Text
  pub tagged : List Text

pub no_summary : Doc → Bool
no_summary doc = elim doc.summary [ [] ↦ true | line ∷ rest ↦ false ]

pub add_line : Text → Doc → Doc
add_line line doc =
    let trimmed = trim line in
    elim (tag_of trimmed) [
      | some tag ↦ record doc { tagged = doc.tagged ++ tag ∷ [] }
      | none ↦
          if not (is_empty trimmed) || not (no_summary doc)
          then record doc { summary = doc.summary ++ escape trimmed ∷ [] }
          else doc
    ]

pub add_lines : List Text → Doc → Doc
add_lines [] doc = doc
add_lines (line ∷ rest) doc = add_lines rest (add_line line doc)

pub drop_empty : List Text → List Text
drop_empty [] = []
drop_empty (line ∷ rest) = if is_empty line then drop_empty rest else line ∷ rest

pub summary_lines : List Text → List Text
summary_lines [] = []
summary_lines (line ∷ []) = (codes "<summary>" ++ (line ++ codes "</summary>")) ∷ []
summary_lines (line ∷ next ∷ rest) =
    codes "<summary>" ∷ (map (λ l. codes "  " ++ l) (line ∷ next ∷ rest) ++ codes "</summary>" ∷ [])

pub body_of : Doc → List Text
body_of doc = summary_lines (reverse (drop_empty (reverse doc.summary))) ++ doc.tagged

pub comment_line : Text → Text
comment_line [] = codes " *\n"
comment_line (c ∷ line) = codes " * " ++ (c ∷ line ++ codes "\n")

pub comment_lines : List Text → Text
comment_lines [] = codes " */"
comment_lines (line ∷ rest) = comment_line line ++ comment_lines rest

unfoldable pub pawndoc : Text → Text
pawndoc doc =
    if is_empty (trim doc)
    then []
    else codes "/**\n"
      ++ comment_lines (body_of (add_lines (lines doc) (record { summary = []; tagged = [] })))
