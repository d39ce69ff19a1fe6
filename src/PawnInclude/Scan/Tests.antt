-- ===== src/PawnInclude/Scan/Tests.antt =====
-- Runs of `without_comments` (crates/samp/src/pawn_include.rs).
use rust_samp.Base.{List, [], ◌∷◌, ◌≡◌, refl}
use rust_samp.Base.Text.{codes}
use rust_samp.PawnInclude.Scan.{without_comments, strip, next_mode, kept, peeks}
use rust_samp.PawnInclude.Scan.Comments.{Chunk, plain, line_comment, block_comment}

abbrev chunks_of_file : List Chunk
chunks_of_file =
    plain (codes "a")
    ∷ line_comment (codes " // b")
    ∷ block_comment (codes " c /")
    ∷ plain (codes "d")
    ∷ []

-- `/*/` opens a comment and does not close it.
slash_star_slash : without_comments (codes "a/*/b*/c") ≡ codes "ac"
unfolding without_comments strip next_mode kept peeks
slash_star_slash = refl
