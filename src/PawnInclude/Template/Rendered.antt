-- ===== src/PawnInclude/Template/Rendered.antt =====
-- A template is rendered piece by piece (crates/samp/src/pawn_include.rs).
use rust_samp.Base.{
  ℕ, zero, suc, ◌+◌, ◌≤◌, ◌≡◌, refl, ap, ◌∙◌, false, Option, none, some, List, [], ◌∷◌, ◌++◌,
  length, length-append, ◌==◌, ==_refl, arith,
}
use rust_samp.Base.Text.{Text, Without, trim, strip_prefix}
use rust_samp.PawnInclude.Parse.{Unicode}
use rust_samp.PawnInclude.Template.{
  Stored, Template, split_at, byte_length, Rendering, fill, render_from, conclude, render,
}

split_at-doubled :
    (k : ℕ) (text rest : Text)
    → Without k text
    → split_at (k ∷ k ∷ []) (text ++ k ∷ k ∷ rest) ≡ some (text, rest)
unfolding split_at strip_prefix
split_at-doubled k [] rest h = rw (split_at, strip_prefix, ==_refl k) refl
split_at-doubled k (c ∷ text) rest h =
    let other : (k == c) ≡ false = ground (arith, h.0) in
    rw (split_at, strip_prefix, other, split_at-doubled k text rest h.1) refl

split_at-none : (k : ℕ) (text : Text) → Without k text → split_at (k ∷ k ∷ []) text ≡ none
unfolding split_at strip_prefix
split_at-none k [] h = refl
split_at-none k (c ∷ text) h =
    let other : (k == c) ≡ false = ground (arith, h.0) in
    rw (split_at, strip_prefix, other, split_at-none k text h.1) refl

-- A text and what stands between the braces behind it.
abbrev pub Piece : Type 0
Piece = Text × Text

abbrev pub print : List Piece → Text → Text
print [] tail = tail
print ((text, name) ∷ pieces) tail = text ++ b'{' ∷ b'{' ∷ (name ++ b'}' ∷ b'}' ∷ print pieces tail)

abbrev pub IsTemplate : List Piece → Text → Type 0
IsTemplate [] tail = Without b'{' tail
IsTemplate ((text, name) ∷ pieces) tail =
    Without b'{' text × (Without b'}' name × IsTemplate pieces tail)

length-print : (pieces : List Piece) (tail : Text) → length pieces ≤ length (print pieces tail)
length-print [] tail = omega arith
length-print ((text, name) ∷ pieces) tail = omega (
  arith,
  length-print pieces tail,
  length-append text (b'{' ∷ b'{' ∷ (name ++ b'}' ∷ b'}' ∷ print pieces tail)),
  length-append name (b'}' ∷ b'}' ∷ print pieces tail),
)

-- Before the first piece.
abbrev pub empty : Rendering
empty = record { out = []; errors = []; placed = []; emitted = [] }

module _ (u : Unicode) (stored : Option Stored) (t : Template) where
  -- The pieces, one after another.
  unfoldable pub filled : List Piece → Rendering → Rendering
  filled [] r = r
  filled ((text, name) ∷ pieces) r =
      filled pieces (fill u stored t (trim name) (record r { out = r.out ++ text }))

  render_from-print :
      (fuel consumed : ℕ) (pieces : List Piece) (tail : Text) (r : Rendering)
      → length pieces ≤ fuel
      → IsTemplate pieces tail
      → render_from u stored t fuel consumed (print pieces tail) r ≡ (filled pieces r, tail)
  unfolding render_from filled
  render_from-print zero consumed [] tail r enough h = refl
  render_from-print (suc fuel) consumed [] tail r enough h =
      rw (render_from, split_at-none b'{' tail h) refl
  render_from-print zero consumed (piece ∷ pieces) tail r enough h = absurd (omega (arith, enough))
  render_from-print (suc fuel) consumed ((text, name) ∷ pieces) tail r enough (ht, (hn, h)) =
      rw
        (
          render_from,
          split_at-doubled b'{' text (name ++ b'}' ∷ b'}' ∷ print pieces tail) ht,
          split_at-doubled b'}' name (print pieces tail) hn,
        )
        (render_from-print fuel (consumed + (byte_length text + (2 + (byte_length name + 2))))
          pieces tail (fill u stored t (trim name) (record r { out = r.out ++ text }))
          (omega (arith, enough)) h)

  -- The loop ends: a template made of texts without an opening brace and placeholders without a closing one is rendered piece by piece, each placeholder by its expansion, and what is behind the last placeholder is copied.
  pub render-print :
      (pieces : List Piece) (tail : Text)
      → IsTemplate pieces tail
      → t.source ≡ print pieces tail
      → render u stored t ≡ conclude u stored t (filled pieces empty, tail)
  unfolding render
  render-print pieces tail h e =
      ap (λ s. conclude u stored t (render_from u stored t (length s) 0 s empty)) e
      ∙ ap (conclude u stored t) (
          render_from-print (length (print pieces tail)) 0 pieces tail empty
            (length-print pieces tail) h)
