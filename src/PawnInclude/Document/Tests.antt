-- ===== src/PawnInclude/Document/Tests.antt =====
-- Runs of `pawndoc` and its escapes (crates/samp/src/pawn_include.rs).
use rust_samp.Base.{◌≡◌, refl}
use rust_samp.Base.Text.{Text, Without, codes, is_whitespace, trim, trim_start, strip_prefix}
use rust_samp.PawnInclude.Document.{
  replace, escape, lines, push, is_empty, split_word, param_tag, tag_of, no_summary, add_line,
  add_lines, drop_empty, summary_lines, body_of, comment_line, comment_lines, pawndoc,
}
use rust_samp.PawnInclude.Document.Escape.{escape_lem}

abbrev compared : Text
compared = codes "a<b & c>d"

escape_lem_example :
    (escape compared ≡ codes "a&lt;b &amp; c&gt;d")
    × (Without b'<' (escape compared) × Without b'>' (escape compared))
escape_lem_example = escape_lem compared

documented :
    pawndoc (codes "Adds.\n@param n a < b\n")
    ≡ codes "/**\n * <summary>Adds.</summary>\n * <param name=\"n\">a &lt; b</param>\n */"
unfolding pawndoc is_whitespace trim trim_start strip_prefix lines push is_empty split_word
    param_tag tag_of no_summary add_line add_lines drop_empty summary_lines body_of comment_line
    comment_lines escape replace
documented = refl
