-- ===== src/Logger/Rotation.antt =====
-- crates/samp/src/logger.rs: the plugin's log file and its rotation, where the `compression` feature
-- is off. The disk is the lines of the active file and of each archive `.log.N`; which calls of the
-- file system fail is an argument. A write that fails leaves no part of the line, and a character of a
-- line is a byte.
pub mod Shift
pub mod Append
pub mod Index
mod Tests
use rust_samp.Base.{
  ℕ, zero, suc, ◌+◌, ◌-◌, ◌≤◌, Bool, true, false, Option, none, some, List, [], ◌∷◌, ◌++◌, length,
  min, max, ltb, ◌==◌, if◌then◌else◌,
}
use rust_samp.Base.Text.{Text, strip_prefix}
use rust_samp.Logger.Config.{Rotation}

abbrev pub u32_max : ℕ
u32_max = 0xffff_ffff

-- The lines of a file.
abbrev pub Content : Type 0
Content = List Text

pub record Disk : Type 0 where
  pub active : Option Content
  pub archives : ℕ → Option Content

-- The calls that fail: creating the archive directory, opening the active file, writing to it,
-- removing the oldest archive, and renaming the active file or an archive.
pub record Faults : Type 0 where
  pub create_dir : Bool
  pub open_file : Bool
  pub write_file : Bool
  pub remove_file : Bool
  pub rename_active : Bool
  pub rename_archive : ℕ → Bool

pub data Action : Type 0 where
  reopen : Action
  create_archive_directory : Action
  write : Action

pub record State : Type 0 where
  pub file_open : Bool
  pub current_size : ℕ
  pub file_write_reported : Bool
  pub next_archive_index : ℕ
  pub disk : Disk
  pub reports : List Action

abbrev pub set : (ℕ → Option Content) → ℕ → Option Content → ℕ → Option Content
set archives i v j = if j == i then v else archives j

-- `if src.exists() { let _ = fs::rename(src, dst); }` on archives.
pub move_archive : Faults → ℕ → ℕ → (ℕ → Option Content) → ℕ → Option Content
move_archive f src dst archives = elim (archives src) [
  | none ↦ archives
  | some content ↦
      if f.rename_archive src then archives else set (set archives dst (some content)) src none
]

-- `for index in (1..=n).rev()`.
pub shift_from : Faults → ℕ → (ℕ → Option Content) → ℕ → Option Content
shift_from f zero archives = archives
shift_from f (suc i) archives = shift_from f i (move_archive f (suc i) (suc (suc i)) archives)

-- `fs::rename(&self.path, archived)`, which replaces the archive; without an active file it fails.
pub archive_active : Faults → ℕ → Disk → Disk
archive_active f index disk = elim disk.active [
  | none ↦ disk
  | some content ↦
      if f.rename_active
      then disk
      else record { active = none; archives = set disk.archives index (some content) }
]

pub rotate_shift : Faults → ℕ → Disk → Disk
rotate_shift f keep disk =
    let removed = if f.remove_file then disk.archives else set disk.archives keep none in
    archive_active f 1 (record disk { archives = shift_from f (keep - 1) removed })

pub report_file_error : Action → State → State
report_file_error action s =
    if s.file_write_reported
    then s
    else record s { file_write_reported = true; reports = s.reports ++ action ∷ [] }

-- `create(true).append(true)`: a missing file is created.
pub opened : Option Content → Content
opened none = []
opened (some content) = content

pub reopen_active : Faults → State → State
reopen_active f s = if f.open_file then report_file_error reopen s else record s {
  file_open = true;
  current_size = 0;
  disk = record { active = some (opened s.disk.active); archives = s.disk.archives };
}

pub rotate_append : Faults → State → State
rotate_append f s =
    let i = s.next_archive_index in
    record s { next_archive_index = min (i + 1) u32_max; disk = archive_active f i s.disk }

pub rotate_files : Faults → Option ℕ → State → State
rotate_files f none s = rotate_append f s
rotate_files f (some zero) s = rotate_append f s
rotate_files f (some (suc keep)) s = record s { disk = rotate_shift f (suc keep) s.disk }

pub rotate : Faults → Rotation → State → State
rotate f r s =
    let closed : State = record s { file_open = false } in
    if f.create_dir
    then reopen_active f (report_file_error create_archive_directory closed)
    else reopen_active f (rotate_files f r.keep closed)

pub rotate_if_full : Faults → Option Rotation → Text → State → State
rotate_if_full f none line s = s
rotate_if_full f (some r) line s =
    if ltb r.max_bytes (s.current_size + length line) then rotate f r s else s

pub write_open : Faults → Text → State → State
write_open f line s = if f.write_file then report_file_error write s else record s {
  current_size = s.current_size + length line;
  disk = record { active = some (opened s.disk.active ++ line ∷ []); archives = s.disk.archives };
}

-- What `log` does with a formatted line and its file.
pub write_line : Faults → Option Rotation → Text → State → State
write_line f rotation line s =
    let ready = rotate_if_full f rotation line s in
    if ready.file_open then write_open f line ready else ready

pub write_lines : Faults → Option Rotation → List Text → State → State
write_lines f rotation [] s = s
write_lines f rotation (line ∷ lines) s =
    write_lines f rotation lines (write_line f rotation line s)

-- `max = max.max(index)`, where the name has one.
pub raise : Option ℕ → ℕ → ℕ
raise none found = found
raise (some i) found = max found i

-- The greatest index among the names `{filename}.N` and `{filename}.N.gz`; `parse_u32` is the standard
-- library's `str::parse::<u32>`, `strip_gz` its `strip_suffix(".gz")` or the name itself.
module _ (parse_u32 : Text → Option ℕ) (strip_gz : Text → Text) where
  pub index_of : Text → Text → Option ℕ
  index_of prefix name = elim (strip_prefix prefix name) [
    | none ↦ none
    | some rest ↦ parse_u32 (strip_gz rest)
  ]

  pub greatest : Text → List Text → ℕ → ℕ
  greatest prefix [] found = found
  greatest prefix (name ∷ names) found = greatest prefix names (raise (index_of prefix name) found)

  pub find_next_archive_index : Text → List Text → ℕ
  find_next_archive_index filename names =
      min (greatest (filename ++ b'.' ∷ []) names 0 + 1) u32_max
