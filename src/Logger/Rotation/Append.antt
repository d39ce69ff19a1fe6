-- ===== src/Logger/Rotation/Append.antt =====
-- Append-style rotation loses no line (crates/samp/src/logger.rs).
use rust_samp.Base.{
  ℕ, zero, suc, ◌+◌, ◌≤◌, ◌<◌, ◌≡◌, ◌⊎◌, refl, ap, sym, subst, ltb→ge, ◌∙◌, inl, inr, true, false,
  Option, none, some, [], ◌∷◌, ◌++◌, append-nil, append_assoc, length, min, ltb, if◌then◌else◌,
  arith, Bool-cases,
}
use rust_samp.Base.Text.{Text}
use rust_samp.Logger.Config.{Rotation}
use rust_samp.Logger.Rotation.{
  Content, Disk, State, set, u32_max, archive_active, opened, reopen_active, rotate_append,
  rotate_files, rotate, rotate_if_full, write_open, write_line, write_lines,
}
use rust_samp.Logger.Rotation.Shift.{calm}

-- The bytes of a file's lines.
abbrev pub size : Content → ℕ
size [] = 0
size (line ∷ lines) = length line + size lines

-- The lines of the `n` archives from the index `first` on.
abbrev pub collect : (ℕ → Option Content) → ℕ → ℕ → Content
collect archives first zero = []
collect archives first (suc n) = collect archives first n ++ opened (archives (first + n))

-- Rotation with a limit and no cleanup.
abbrev pub append_style : ℕ → Option Rotation
append_style max_bytes = some (record { max_bytes = max_bytes; keep = none })

size-append : (a b : Content) → size (a ++ b) ≡ size a + size b
size-append [] b = omega arith
size-append (line ∷ a) b = omega (arith, size-append a b)

collect-set :
    (archives : ℕ → Option Content) (first n i : ℕ) (v : Option Content)
    → first + n ≤ i
    → collect (set archives i v) first n ≡ collect archives first n
collect-set archives first zero i v h = refl
collect-set archives first (suc n) i v h =
    let e : set archives i v (first + n) ≡ archives (first + n) = ground arith in
    rw (e, collect-set archives first n i v (omega arith)) refl

-- The lines written since the archive `first`, in the archives and in the active file, are `past`.
pub record Kept (first : ℕ) (s : State) (past : Content) : Type 0 where
  pub archived : ℕ
  pub current : Content
  pub is_open : s.file_open ≡ true
  pub active_current : s.disk.active ≡ some current
  pub sized : s.current_size ≡ size current
  pub next : s.next_archive_index ≡ first + archived
  pub all_lines : collect s.disk.archives first archived ++ current ≡ past

-- What a rotation without cleanup leaves.
abbrev rotated : State → Content → State
rotated s current = record s {
  file_open = true;
  current_size = 0;
  next_archive_index = min (s.next_archive_index + 1) u32_max;
  disk = record {
    active = some [];
    archives = set s.disk.archives s.next_archive_index (some current);
  };
}

archive_active-some :
    (i : ℕ) (disk : Disk) (current : Content)
    → disk.active ≡ some current
    → archive_active calm i disk
      ≡ record { active = none; archives = set disk.archives i (some current) }
unfolding archive_active
archive_active-some i disk current e = rw (archive_active, e) refl

rotate-rotated :
    (max_bytes : ℕ) (s : State) (current : Content)
    → s.disk.active ≡ some current
    → rotate calm (record { max_bytes = max_bytes; keep = none }) s ≡ rotated s current
unfolding rotate rotate_files rotate_append reopen_active opened
rotate-rotated max_bytes s current e =
    let moved = archive_active-some s.next_archive_index s.disk current e in
    ap
      (λ disk. record s {
        file_open = true;
        current_size = 0;
        next_archive_index = min (s.next_archive_index + 1) u32_max;
        disk = record { active = some (opened disk.active); archives = disk.archives };
      })
      moved

-- What a line written to an open file leaves.
abbrev written : State → Content → Text → State
written s current line = record s {
  current_size = s.current_size + length line;
  disk = record { active = some (current ++ line ∷ []); archives = s.disk.archives };
}

write_open-written :
    (s : State) (current : Content) (line : Text)
    → s.disk.active ≡ some current
    → write_open calm line s ≡ written s current line
unfolding write_open opened
write_open-written s current line e =
    ap
      (λ a. record s {
        current_size = s.current_size + length line;
        disk = record { active = some (opened a ++ line ∷ []); archives = s.disk.archives };
      })
      e

write_line_stays :
    (max_bytes : ℕ) (s : State) (current : Content) (line : Text)
    → s.file_open ≡ true
    → s.disk.active ≡ some current
    → ltb max_bytes (s.current_size + length line) ≡ false
    → write_line calm (append_style max_bytes) line s ≡ written s current line
unfolding write_line rotate_if_full
write_line_stays max_bytes s current line o e fits =
    rw fits
      (ap (λ b. if b then write_open calm line s else s) o ∙ write_open-written s current line e)

write_line_rotates :
    (max_bytes : ℕ) (s : State) (current : Content) (line : Text)
    → s.disk.active ≡ some current
    → ltb max_bytes (s.current_size + length line) ≡ true
    → write_line calm (append_style max_bytes) line s ≡ written (rotated s current) [] line
unfolding write_line rotate_if_full
write_line_rotates max_bytes s current line e full =
    rw (full, rotate-rotated max_bytes s current e)
      (write_open-written (rotated s current) [] line refl)

pub write_line-Kept :
    (first max_bytes : ℕ) (s : State) (past : Content) (line : Text)
    → s.next_archive_index < u32_max
    → Kept first s past
    → Kept first (write_line calm (append_style max_bytes) line s) (past ++ line ∷ [])
unfolding opened
write_line-Kept first max_bytes s past line room h =
    elim (Bool-cases (ltb max_bytes (s.current_size + length line))) [
      | inl full ↦
          let i = s.next_archive_index in
          let top : min (i + 1) u32_max ≡ first + suc h.archived = omega (arith, h.next) in
          let other =
            collect-set s.disk.archives first h.archived i (some h.current)
              (omega (arith, h.next)) in
          let last : set s.disk.archives i (some h.current) (first + h.archived) ≡ some h.current =
            ground (arith, h.next) in
          rw (write_line_rotates max_bytes s h.current line h.active_current full) (record {
            archived = suc h.archived;
            current = line ∷ [];
            is_open = refl;
            active_current = refl;
            sized = omega arith;
            next = top;
            all_lines = rw (other, last) (ap (λ l. l ++ line ∷ []) h.all_lines);
          })
      | inr fits ↦
          rw (write_line_stays max_bytes s h.current line h.is_open h.active_current fits) (record {
            archived = h.archived;
            current = h.current ++ line ∷ [];
            is_open = h.is_open;
            active_current = refl;
            sized = omega (arith, h.sized, size-append h.current (line ∷ []));
            next = h.next;
            all_lines =
                sym (append_assoc (collect s.disk.archives first h.archived) h.current (line ∷ []))
                ∙ ap (λ l. l ++ line ∷ []) h.all_lines;
          })
    ]

-- A line makes one archive at most.
pub write_line_next :
    (max_bytes : ℕ) (s : State) (current : Content) (line : Text)
    → s.file_open ≡ true
    → s.disk.active ≡ some current
    → (write_line calm (append_style max_bytes) line s).next_archive_index
      ≤ s.next_archive_index + 1
write_line_next max_bytes s current line o e =
    elim (Bool-cases (ltb max_bytes (s.current_size + length line))) [
      | inl full ↦ rw (write_line_rotates max_bytes s current line e full) (omega arith)
      | inr fits ↦ rw (write_line_stays max_bytes s current line o e fits) (omega arith)
    ]

-- From an open log file whose size is counted, and while indices for archives are left, every line
-- written to it is kept, where no call of the file system fails: the archives made since and then the
-- active file hold the lines that the file held and those written, in the order of writing, and the
-- count stays the size of the active file.
pub write_lines-Kept :
    (first max_bytes : ℕ) (s : State) (past lines : Content)
    → s.next_archive_index + length lines ≤ u32_max
    → Kept first s past
    → Kept first (write_lines calm (append_style max_bytes) lines s) (past ++ lines)
unfolding write_lines
write_lines-Kept first max_bytes s past [] room h = subst (Kept first s) (sym (append-nil past)) h
write_lines-Kept first max_bytes s past (line ∷ lines) room h =
    let later = write_line calm (append_style max_bytes) line s in
    let n = write_line_next max_bytes s h.current line h.is_open h.active_current in
    subst (Kept first (write_lines calm (append_style max_bytes) lines later))
      (append_assoc past (line ∷ []) lines)
      (write_lines-Kept first max_bytes later (past ++ line ∷ []) lines (omega (arith, n))
        (write_line-Kept first max_bytes s past line (omega arith) h))

-- After a line is written, where no call fails, the active file is no larger than the limit, unless it
-- holds that line alone.
pub write_line_bounds :
    (first max_bytes : ℕ) (s : State) (past : Content) (line : Text)
    → Kept first s past
    → let after = write_line calm (append_style max_bytes) line s in
      (after.current_size ≤ max_bytes) ⊎ (after.disk.active ≡ some (line ∷ []))
write_line_bounds first max_bytes s past line h =
    elim (Bool-cases (ltb max_bytes (s.current_size + length line))) [
      | inl full ↦
          rw (write_line_rotates max_bytes s h.current line h.active_current full) (inr refl)
      | inr fits ↦
          rw (write_line_stays max_bytes s h.current line h.is_open h.active_current fits)
            (inl (ltb→ge _ _ fits))
    ]
