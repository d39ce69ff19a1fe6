-- ===== src/PawnInclude/Scan/Comments.antt =====
-- Comments are removed, and the code is kept (crates/samp/src/pawn_include.rs).
use rust_samp.Base.{◌≡◌, refl, ap, ◌∙◌, List, [], ◌∷◌, ◌++◌}
use rust_samp.Base.Text.{Text, Without}
use rust_samp.PawnInclude.Scan.{
  code, to_line_end, in_block, peeks, next_mode, kept, strip, without_comments,
}

-- Code without a `/`, a comment up to the line's end, and a comment between `/*` and `*/`.
pub data Chunk : Type 0 where
  plain : Text → Chunk
  line_comment : Text → Chunk
  block_comment : Text → Chunk

abbrev pub print : List Chunk → Text
print [] = []
print (plain s ∷ chunks) = s ++ print chunks
print (line_comment s ∷ chunks) = b'/' ∷ b'/' ∷ (s ++ b'\n' ∷ print chunks)
print (block_comment s ∷ chunks) = b'/' ∷ b'*' ∷ (s ++ b'*' ∷ b'/' ∷ print chunks)

abbrev pub code_of : List Chunk → Text
code_of [] = []
code_of (plain s ∷ chunks) = s ++ code_of chunks
code_of (line_comment s ∷ chunks) = b'\n' ∷ code_of chunks
code_of (block_comment s ∷ chunks) = code_of chunks

-- No `/` in code, no line end in a comment up to it, and no `*` in a comment that `*/` closes.
abbrev pub IsCommented : List Chunk → Type 0
IsCommented [] = Unit
IsCommented (plain s ∷ chunks) = Without b'/' s × IsCommented chunks
IsCommented (line_comment s ∷ chunks) = Without b'\n' s × IsCommented chunks
IsCommented (block_comment s ∷ chunks) = Without b'*' s × IsCommented chunks

strip_plain : (s rest : Text) → Without b'/' s → strip code (s ++ rest) ≡ s ++ strip code rest
unfolding strip next_mode kept
strip_plain [] rest h = refl
strip_plain (c ∷ s) rest h = rw h.0 (ap (◌∷◌ c) (strip_plain s rest h.1))

strip_line :
    (s rest : Text)
    → Without b'\n' s
    → strip to_line_end (s ++ b'\n' ∷ rest) ≡ b'\n' ∷ strip code rest
unfolding strip next_mode kept
strip_line [] rest h = refl
strip_line (c ∷ s) rest h = rw h.0 (strip_line s rest h.1)

strip_block :
    (s rest : Text) → Without b'*' s → strip in_block (s ++ b'*' ∷ b'/' ∷ rest) ≡ strip code rest
unfolding strip next_mode kept peeks
strip_block [] rest h = refl
strip_block (c ∷ s) rest h = rw h.0 (strip_block s rest h.1)

strip-print :
    (chunks : List Chunk) → IsCommented chunks → strip code (print chunks) ≡ code_of chunks
unfolding strip next_mode kept peeks
strip-print [] h = refl
strip-print (plain s ∷ chunks) h =
    strip_plain s (print chunks) h.0 ∙ ap (λ l. s ++ l) (strip-print chunks h.1)
strip-print (line_comment s ∷ chunks) h =
    strip_line s (print chunks) h.0 ∙ ap (◌∷◌ b'\n') (strip-print chunks h.1)
strip-print (block_comment s ∷ chunks) h = strip_block s (print chunks) h.0 ∙ strip-print chunks h.1

-- Of a text of code without `/`, comments up to the line's end and comments between `/*` and `*/`,
-- `without_comments` keeps the code and the line ends, and nothing else.
pub without_comments-print :
    (chunks : List Chunk) → IsCommented chunks → without_comments (print chunks) ≡ code_of chunks
unfolding without_comments
without_comments-print chunks h = strip-print chunks h
