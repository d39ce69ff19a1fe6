-- ===== src/PawnInclude/Parse.antt =====
-- crates/samp/src/pawn_include.rs: the parser of declarations. `to_lowercase` and `is_alphanumeric`
-- are the standard library's Unicode functions. Nesting of brackets is a 32-bit pattern.
pub mod Arguments
pub mod Lists
pub mod Pieces
pub mod RoundTrip
pub mod Enough
mod Tests
use rust_samp.Base.{
  ℕ, zero, suc, ◌+◌, ◌-◌, ◌%◌, Bool, true, false, not, Option, none, some, List, [], ◌∷◌, ◌++◌,
  ◌&&◌, ◌||◌, length, take, drop, ltb, ◌==◌, if◌then◌else◌,
}
use rust_samp.Base.Words.{u32_mod}
use rust_samp.Base.Search.{any}
use rust_samp.Base.Text.{
  Text, codes, trim, split_once, rsplit_once, strip_prefix, find_behind, contains,
}
use rust_samp.PawnInclude.Types.{Argument, Declaration}
use rust_samp.PawnInclude.Scan.{without_comments}

pub record Unicode : Type 0 where
  pub to_lowercase : Text → Text
  pub is_alphanumeric : ℕ → Bool

unfoldable pub next_depth : ℕ → ℕ → ℕ
next_depth c depth =
    if c == b'{' || c == b'(' || c == b'['
    then (depth + 1) % u32_mod
    else if c == b'}' || c == b')' || c == b']'
    then (depth + (u32_mod - 1)) % u32_mod
    else depth

unfoldable pub is_blank : Text → Bool
is_blank [] = true
is_blank (c ∷ s) = false

-- The loop over what is left of the list, with the nesting and the part read so far.
unfoldable pub split_from : ℕ → Text → Text → List Text
unfolding is_blank
split_from depth current [] = if is_blank (trim current) then [] else current ∷ []
split_from depth current (c ∷ list) =
    let cut = c == b',' && depth == 0 in
    let parts = split_from (next_depth c depth) (if cut then [] else current ++ c ∷ []) list in
    if cut then current ∷ parts else parts

unfoldable pub split_arguments : Text → List Text
split_arguments list = split_from 0 [] list

-- `text.split('=').next()`.
unfoldable pub before : ℕ → Text → Text
before c text = elim (split_once c text) [ none ↦ text | some (first, rest) ↦ first ]

-- `trim_start_matches`, of a text and of a character; a match is as long as one character at least, so
-- as many rounds as characters are enough.
unfoldable pub trim_prefixes : ℕ → Text → Text → Text
trim_prefixes zero p text = text
trim_prefixes (suc fuel) p text = elim (strip_prefix p text) [
  | none ↦ text
  | some rest ↦ trim_prefixes fuel p rest
]

unfoldable pub trim_start_matches : Text → Text → Text
trim_start_matches p text = trim_prefixes (length text) p text

unfoldable pub starts_with : ℕ → Text → Bool
starts_with c [] = false
starts_with c (d ∷ text) = d == c

unfoldable pub untyped : Text → Text
untyped text = trim (trim_start_matches (codes "const") (trim (before b'=' text)))

module _ (u : Unicode) where
  -- The tag, and what follows it.
  unfoldable pub tag_and_rest : Text → Text × Text
  tag_and_rest text = elim (split_once b':' text) [
    | none ↦ ([], text)
    | some (tag, rest) ↦
        if starts_with b'{' tag then ([], text) else (u.to_lowercase (trim tag), rest)
  ]

  unfoldable pub shape_of : Text → Argument
  shape_of text =
      let (tag, rest) = tag_and_rest (trim (trim_start_matches (b'&' ∷ []) text)) in
      record { tag = tag; by_reference = starts_with b'&' text; array = contains (b'[' ∷ []) rest }

  unfoldable pub parse_argument : Text → Option Argument
  unfolding is_blank
  parse_argument text =
      if is_blank (untyped text) || contains (codes "...") (untyped text)
      then none
      else some (shape_of (untyped text))

  unfoldable pub parse_arguments : List Text → List Argument
  parse_arguments [] = []
  parse_arguments (text ∷ texts) =
      let arguments = parse_arguments texts in
      elim (parse_argument text) [ none ↦ arguments | some a ↦ a ∷ arguments ]

  unfoldable pub is_name : Text → Bool
  unfolding is_blank
  is_name name = not (is_blank name) && not (any (λ c. not (u.is_alphanumeric c || c == b'_')) name)

  -- What stands behind the list up to a `;`.
  unfoldable pub tail_of : Text → Text
  tail_of behind = elim (split_once b';' behind) [ none ↦ [] | some (tail, rest) ↦ tail ]

  unfoldable pub alias_of : Text → Option Text
  alias_of tail = elim (split_once b'=' tail) [
    | none ↦ none
    | some (first, target) ↦ if is_name (trim target) then some (trim target) else none
  ]

  unfoldable pub head_of : Text → Text × Text
  head_of head = elim (rsplit_once b':' head) [
    | none ↦ ([], head)
    | some (tag, name) ↦ (u.to_lowercase (trim tag), trim name)
  ]

  -- A declaration whose parts are found: the text before `(`, the list, and the text behind `)`.
  unfoldable pub declaration : Text → Text → Text → Declaration
  declaration head list behind =
      let (tag, name) = head_of (trim head) in
      record {
        name = name;
        tag = tag;
        arguments = parse_arguments (split_arguments list);
        variadic = contains (codes "...") list;
        implemented_by = alias_of (tail_of behind);
        shape_known = true;
      }

  -- What is declared with the keyword before `rest`, and where the search goes on; none where the loop
  -- ends.
  unfoldable pub declared_at : Text → Option (List Declaration × Text)
  declared_at rest = elim (split_once b'(' rest) [
    | none ↦ none
    | some (head, opened) ↦ elim (split_once b')' rest) [
      | none ↦ none
      | some (closed, behind) ↦
          if ltb (length closed) (length head)
          then some ([], rest)
          else if is_name (head_of (trim head)).1
          then some (
            declaration head (take (length closed - length head - 1) opened) behind ∷ [],
            drop (length (tail_of behind)) behind,
          )
          else some ([], b')' ∷ behind)
    ]
  ]

  -- A round of the loop.
  unfoldable pub round : Text → Text → Option (List Declaration × Text)
  round keyword rest = elim (find_behind keyword rest) [
    | none ↦ none
    | some found ↦ declared_at found
  ]

  -- The loop, in at most `fuel` rounds. A round goes beyond a keyword, so as many rounds as characters
  -- are enough.
  unfoldable pub rounds : ℕ → Text → Text → List Declaration
  rounds zero keyword rest = []
  rounds (suc fuel) keyword rest = elim (round keyword rest) [
    | none ↦ []
    | some (declared, next) ↦ declared ++ rounds fuel keyword next
  ]

  unfoldable pub parse_declarations : Text → Text → List Declaration
  parse_declarations source keyword =
      let cleaned = without_comments source in rounds (length cleaned) keyword cleaned

  unfoldable pub parse : Text → List Declaration
  parse source = parse_declarations source (codes "native ")

  pub parse_forwards : Text → List Declaration
  parse_forwards source = parse_declarations source (codes "forward ")
