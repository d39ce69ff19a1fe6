-- ===== src/Logger/Format/Render.antt =====
-- A template is rendered piece by piece (crates/samp/src/logger.rs).
use rust_samp.Base.{
  ℕ, zero, suc, ◌≤◌, ◌≡◌, refl, ap, sym, ◌∙◌, inl, inr, false, Option, none, List, [], ◌∷◌, ◌++◌,
  append_assoc, length, length-append, ◌==◌, arith, Bool-cases,
}
use rust_samp.Base.Text.{Text, Without, split_once, split_once-append, split_once-none}
use rust_samp.Logger.Format.{Line, format_from, apply_format, emit}

-- A character outside every group, or a group `{spec}`.
pub data Piece : Type 0 where
  char : ℕ → Piece
  group : Text → Piece

abbrev pub print : List Piece → Text
print [] = []
print (char c ∷ pieces) = c ∷ print pieces
print (group spec ∷ pieces) = b'{' ∷ (spec ++ b'}' ∷ print pieces)

abbrev pub IsTemplate : List Piece → Type 0
IsTemplate [] = Unit
IsTemplate (char c ∷ pieces) = ((c == b'{') ≡ false) × IsTemplate pieces
IsTemplate (group spec ∷ pieces) = Without b'}' spec × IsTemplate pieces

module _ (parse_usize : Text → Option ℕ) (l : Line) where
  abbrev pub rendered : List Piece → Text
  rendered [] = []
  rendered (char c ∷ pieces) = c ∷ rendered pieces
  rendered (group spec ∷ pieces) = emit parse_usize l spec ++ rendered pieces

  format_plain :
      (fuel c : ℕ) (rest : Text)
      → (c == b'{') ≡ false
      → format_from parse_usize (suc fuel) l (c ∷ rest) ≡ c ∷ format_from parse_usize fuel l rest
  unfolding format_from
  format_plain fuel c rest h = rw (format_from, h) refl

  format_unclosed :
      (fuel c : ℕ) (rest : Text)
      → split_once b'}' rest ≡ none
      → format_from parse_usize (suc fuel) l (c ∷ rest) ≡ c ∷ format_from parse_usize fuel l rest
  unfolding format_from
  format_unclosed fuel c rest h = elim (Bool-cases (c == b'{')) [
    | inl brace ↦ rw (format_from, brace, h) refl
    | inr other ↦ format_plain fuel c rest other
  ]

  format_group :
      (fuel : ℕ) (spec rest : Text)
      → Without b'}' spec
      → format_from parse_usize (suc fuel) l (b'{' ∷ (spec ++ b'}' ∷ rest))
        ≡ emit parse_usize l spec ++ format_from parse_usize fuel l rest
  unfolding format_from
  format_group fuel spec rest h = rw (format_from, split_once-append b'}' spec rest h) refl

  format_tail :
      (fuel : ℕ) (tail : Text)
      → length tail ≤ fuel
      → Without b'}' tail
      → format_from parse_usize fuel l tail ≡ tail
  unfolding format_from
  format_tail zero [] h w = refl
  format_tail (suc fuel) [] h w = refl
  format_tail zero (c ∷ tail) h w = absurd (omega arith)
  format_tail (suc fuel) (c ∷ tail) h w =
      format_unclosed fuel c tail (split_once-none b'}' tail w.1)
      ∙ ap (◌∷◌ c) (format_tail fuel tail (omega arith) w.1)

  format_pieces :
      (fuel : ℕ) (pieces : List Piece) (tail : Text)
      → length (print pieces ++ tail) ≤ fuel
      → IsTemplate pieces
      → Without b'}' tail
      → format_from parse_usize fuel l (print pieces ++ tail) ≡ rendered pieces ++ tail
  format_pieces fuel [] tail h t w = format_tail fuel tail h w
  format_pieces zero (char c ∷ pieces) tail h t w = absurd (omega arith)
  format_pieces (suc fuel) (char c ∷ pieces) tail h t w =
      format_plain fuel c (print pieces ++ tail) t.0
      ∙ ap (◌∷◌ c) (format_pieces fuel pieces tail (omega arith) t.1 w)
  format_pieces zero (group spec ∷ pieces) tail h t w = absurd (omega arith)
  format_pieces (suc fuel) (group spec ∷ pieces) tail h t w =
      let e : (spec ++ b'}' ∷ print pieces) ++ tail ≡ spec ++ b'}' ∷ (print pieces ++ tail) =
        append_assoc spec (b'}' ∷ print pieces) tail in
      let size : length (print pieces ++ tail) ≤ fuel =
        omega (arith, ap length e, length-append spec (b'}' ∷ (print pieces ++ tail))) in
      ap (λ r. format_from parse_usize (suc fuel) l (b'{' ∷ r)) e
      ∙ format_group fuel spec (print pieces ++ tail) t.0
      ∙ ap (λ r. emit parse_usize l spec ++ r) (format_pieces fuel pieces tail size t.1 w)
      ∙ sym (append_assoc (emit parse_usize l spec) (rendered pieces) tail)

  -- A template is written character by character outside its groups, and each group `{spec}` as what
  -- its name and format give, or as it stands where the name is unknown; the text behind the last
  -- closing brace is written as it stands, opening braces included.
  pub apply_format-print :
      (pieces : List Piece) (tail : Text)
      → IsTemplate pieces
      → Without b'}' tail
      → apply_format parse_usize l (print pieces ++ tail) ≡ rendered pieces ++ tail
  unfolding apply_format
  apply_format-print pieces tail t w =
      format_pieces (length (print pieces ++ tail)) pieces tail (omega arith) t w
