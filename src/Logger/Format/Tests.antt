-- ===== src/Logger/Format/Tests.antt =====
-- The default template of the log file, and a padded level.
use rust_samp.Base.{ℕ, ◌-◌, ◌≡◌, refl, Option, none, some, [], ◌∷◌}
use rust_samp.Base.Text.{Text, codes, eq_text, split_once}
use rust_samp.Logger.Format.{
  Line, alignment_of, apply_format, apply_spec, emit, format_from, pad, render_placeholder, spaces,
  split_spec, unwrap_or, value_of, verbatim,
}

abbrev line : Line
line = record {
  prefix = some (codes "[p]");
  timestamp = codes "t";
  level = codes "INFO";
  message = codes "hi";
}

-- A width of one digit.
abbrev parse_digit : Text → Option ℕ
parse_digit [] = none
parse_digit (c ∷ []) = some (c - b'0')
parse_digit (c ∷ d ∷ s) = none

padded_level :
    apply_format parse_digit line (codes "{level:>6} {what} {message}") ≡ codes "  INFO {what} hi"
unfolding apply_format format_from split_once emit render_placeholder split_spec value_of eq_text
    apply_spec alignment_of pad spaces unwrap_or verbatim
padded_level = refl
