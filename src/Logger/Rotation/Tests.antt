-- ===== src/Logger/Rotation/Tests.antt =====
-- A log file of two lines with a limit of eight bytes, and a directory with two archives.
use rust_samp.Base.{ℕ, ◌≡◌, refl, true, false, Option, none, some, List, [], ◌∷◌, ◌++◌, arith, ◌-◌}
use rust_samp.Base.Text.{Text, codes, strip_prefix}
use rust_samp.Logger.Rotation.{
  Content, State, set, write_lines, find_next_archive_index, greatest, index_of, raise,
}
use rust_samp.Logger.Rotation.Shift.{calm}
use rust_samp.Logger.Rotation.Append.{append_style, Kept, write_lines-Kept}

abbrev two : Content
two = codes "one\n" ∷ codes "two\n" ∷ []

abbrev archives : ℕ → Option Content
archives = set (λ i. none) 1 (some [])

abbrev s : State
s = record {
  file_open = true;
  current_size = 8;
  file_write_reported = false;
  next_archive_index = 1;
  disk = record { active = some two; archives = λ i. none };
  reports = [];
}

two-Kept : Kept 1 s two
two-Kept = record {
  archived = 0;
  current = two;
  is_open = refl;
  active_current = refl;
  sized = refl;
  next = omega arith;
  all_lines = refl;
}

write_lines-Kept_example :
    Kept 1 (write_lines calm (append_style 8) (codes "six\n" ∷ []) s) (two ++ codes "six\n" ∷ [])
write_lines-Kept_example = write_lines-Kept 1 8 s two (codes "six\n" ∷ []) (omega arith) two-Kept

abbrev parse_digit : Text → Option ℕ
parse_digit [] = none
parse_digit (c ∷ []) = some (c - b'0')
parse_digit (c ∷ d ∷ s) = none

abbrev names : List Text
names = codes "a.log.2" ∷ codes "b.log.7" ∷ codes "a.log" ∷ codes "a.log.5" ∷ []

next_index : find_next_archive_index parse_digit (λ name. name) (codes "a.log") names ≡ 6
unfolding find_next_archive_index greatest index_of raise strip_prefix
next_index = refl
