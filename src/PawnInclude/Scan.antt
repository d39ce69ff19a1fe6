-- ===== src/PawnInclude/Scan.antt =====
-- crates/samp/src/pawn_include.rs: `without_comments`. The loop's place in the text is a mode: in code,
-- in a comment up to the line's end, before the `*` that opens a comment, in that comment, and before
-- the `/` that closes it.
pub mod Comments
mod Tests
use rust_samp.Base.{ℕ, Bool, true, false, List, [], ◌∷◌, ◌++◌, ◌&&◌, ◌==◌, if◌then◌else◌}
use rust_samp.Base.Text.{Text}

pub data Mode : Type 0 where
  code : Mode
  to_line_end : Mode
  at_star : Mode
  in_block : Mode
  at_slash : Mode

unfoldable pub peeks : ℕ → Text → Bool
peeks c [] = false
peeks c (d ∷ rest) = d == c

unfoldable pub next_mode : Mode → ℕ → Text → Mode
next_mode code c rest =
    if c == b'/' && peeks b'/' rest
    then to_line_end
    else if c == b'/' && peeks b'*' rest
    then at_star
    else code
next_mode to_line_end c rest = if c == b'\n' then code else to_line_end
next_mode at_star c rest = in_block
next_mode in_block c rest = if c == b'*' && peeks b'/' rest then at_slash else in_block
next_mode at_slash c rest = code

-- What is kept of a character.
unfoldable pub kept : Mode → ℕ → Text → Text
kept code c rest =
    if c == b'/' && peeks b'/' rest then [] else if c == b'/' && peeks b'*' rest then [] else c ∷ []
kept to_line_end c rest = if c == b'\n' then b'\n' ∷ [] else []
kept at_star c rest = []
kept in_block c rest = []
kept at_slash c rest = []

unfoldable pub strip : Mode → Text → Text
strip m [] = []
strip m (c ∷ rest) = kept m c rest ++ strip (next_mode m c rest) rest

unfoldable pub without_comments : Text → Text
without_comments source = strip code source
