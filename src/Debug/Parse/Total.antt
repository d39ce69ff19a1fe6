-- ===== src/Debug/Parse/Total.antt =====
-- Parsing any bytes at all (crates/samp-sdk/src/debug/parse.rs): the loop over the line table ends,
-- and the tables stay within the block.
use rust_samp.Base.{
  ℕ, zero, suc, ◌+◌, ◌-◌, ◌/◌, ◌≤◌, ◌<◌, ◌≡◌, refl, ◌⊎◌, inl, inr, Bool, true, false, some, List,
  [], ◌∷◌, ◌++◌, length, length-append, leb, leb→le, ltb, ◌==◌, if◌then◌else◌, Bool-cases, arith,
}
use rust_samp.Debug.Types.{DbgLine, DbgError, AmxDbg}
use rust_samp.Debug.Reader.{Result, ok, err, out_of_fuel, Reader, ◌>>=◌, pure, fail, remaining}
use rust_samp.Debug.Reader.Safe.{
  Within, Safe, Anything, bind-Safe, bind-Within, pure-Safe, fail-Safe, u8-Safe, u16-Safe, i16-Safe,
  count-Safe, u32-Safe, i32-Safe, cstr-Safe, repeat-Safe, weaken-Safe, weaken-Within,
}
use rust_samp.Debug.Parse.{
  Lines, next_line, read_block, read_blocks, grows, block_lines, read_line_table, file_entry,
  dim_entry, symbol_entry, tag_entry, automaton_entry, state_entry, tables, header, value, parse,
  amx_dbg_magic,
}

-- A block adds to the table, within `max_lines`; a round that may read a line reads one or fails.
record Grown (max_lines to_read : ℕ) (t t' : Lines) : Type 0 where
  keeps : length t.table ≤ length t'.table
  within : length t.table ≤ max_lines → length t'.table ≤ max_lines
  moves : 0 < to_read → length t.table < max_lines → length t.table < length t'.table

read_block-Safe :
    (max_lines n : ℕ) (t : Lines) → Safe (Grown max_lines n t) (read_block max_lines n t)
unfolding read_block
read_block-Safe max_lines zero t =
    pure-Safe _ _
      (record { keeps = omega arith; within = λ h. h; moves = λ h. absurd (omega arith) })
read_block-Safe max_lines (suc n) t = elim (Bool-cases (leb max_lines (length t.table))) [
  | inl full ↦ rw full (
      pure-Safe _ _ (record {
        keeps = omega arith;
        within = λ h. h;
        moves = λ _ h. absurd (omega (arith, leb→le _ _ full));
      }))
  | inr room ↦ rw room (
      bind-Safe _ u32-Safe (λ address _. bind-Safe _ i32-Safe (λ line _.
        let entry : DbgLine = record { address = address; line = next_line line } in
        let t₁ : Lines = record { table = t.table ++ entry ∷ []; last_addr = some address } in
        let longer = length-append t.table (entry ∷ []) in
        weaken-Safe
          (λ t' (g : Grown max_lines n t₁ t'). record {
            keeps = omega (arith, g.keeps, longer);
            within = λ _. g.within (omega (arith, longer, ltb_of_leb room));
            moves = λ _ _. omega (arith, g.keeps, longer);
          })
          (read_block-Safe max_lines n t₁))))
]
  where
    ltb_of_leb : leb max_lines (length t.table) ≡ false → length t.table < max_lines
    ltb_of_leb h = ground arith

if-Within :
    {A : Type 0} (P : A → Type 0) (r : Reader) (b : Bool) (x y : Result (A × Reader))
    → (b ≡ true → Within P r x)
    → (b ≡ false → Within P r y)
    → Within P r (if b then x else y)
if-Within P r true x y h k = h refl
if-Within P r false x y h k = k refl

grows_room :
    (max_lines : ℕ) (t : Lines) (r : Reader)
    → grows max_lines t r ≡ true
    → length t.table < max_lines
unfolding grows
grows_room max_lines t r e = ground arith

-- What follows a block: the same loop, if the addresses grow.
continue-Within :
    (fuel max_lines : ℕ) (ov : Bool) (t : Lines) (r : Reader)
    → r.pos ≤ length r.buf
    → length t.table ≤ max_lines
    → (length t.table < max_lines
        → Within
            (λ t'. length t'.table ≤ max_lines)
            r
            (read_blocks fuel ov max_lines block_lines t r))
    → Within
        (λ t'. length t'.table ≤ max_lines)
        r
        (let more = read_blocks fuel ov max_lines block_lines t r in
          if ov then (if grows max_lines t r then more else ok (t, r)) else ok (t, r))
continue-Within fuel max_lines ov t r fit within rest =
    if-Within _ r ov _ _
      (λ _.
        if-Within _ r (grows max_lines t r) _ _ (λ g. rest (grows_room max_lines t r g))
          (λ _. (within, refl, omega arith, fit)))
      (λ _. (within, refl, omega arith, fit))

-- The loop once a line is certain to be read in each round.
blocks-Safe :
    (fuel max_lines n : ℕ) (ov : Bool) (t : Lines)
    → 0 < n
    → length t.table < max_lines
    → max_lines < fuel + length t.table
    → Safe (λ t'. length t'.table ≤ max_lines) (read_blocks fuel ov max_lines n t)
unfolding read_blocks read_block ◌>>=◌
blocks-Safe zero max_lines n ov t pos room enough = absurd (omega arith)
blocks-Safe (suc fuel) max_lines n ov t pos room enough = record {
  safe = λ r fit.
      bind-Within _ r (read_block max_lines n t r) ((read_block-Safe max_lines n t).safe r fit)
        λ t' (g : Grown max_lines n t t'). record {
          safe = λ r' fit'.
              continue-Within fuel max_lines ov t' r' fit' (g.within (omega arith)) λ room'.
                (blocks-Safe fuel max_lines block_lines ov t' (omega arith) room'
                    (omega (arith, g.moves pos room))).safe
                  r' fit';
        };
}

-- The first round may read no line.
first_block-Safe :
    (fuel max_lines n : ℕ) (ov : Bool) (t : Lines)
    → length t.table ≤ max_lines
    → max_lines < fuel
    → Safe (λ t'. length t'.table ≤ max_lines) (read_blocks (suc fuel) ov max_lines n t)
unfolding read_blocks read_block ◌>>=◌
first_block-Safe fuel max_lines n ov t within enough = record {
  safe = λ r fit.
      bind-Within _ r (read_block max_lines n t r) ((read_block-Safe max_lines n t).safe r fit)
        λ t' (g : Grown max_lines n t t'). record {
          safe = λ r' fit'. continue-Within fuel max_lines ov t' r' fit' (g.within within) λ room.
              (blocks-Safe fuel max_lines block_lines ov t' (omega arith) room (omega arith)).safe
                r' fit';
        };
}

-- From any reader within its buffer the line table is read or refused, in a number of rounds that
-- the model allows for; it has at most one line for each eight bytes left.
pub read_line_table-Within :
    (lines : ℕ) (r : Reader)
    → r.pos ≤ length r.buf
    → Within (λ table. length table ≤ (length r.buf - r.pos) / 8) r (read_line_table lines r)
unfolding read_line_table remaining read_blocks ◌>>=◌
read_line_table-Within lines r fit =
    let max_lines = (length r.buf - r.pos) / 8 in
    let two : max_lines + 2 ≡ suc (max_lines + 1) = omega arith in
    rw two (
      bind-Within _ r _
        ((first_block-Safe (max_lines + 1) max_lines lines (ltb 32_767 lines) _ (omega arith)
            (omega arith)).safe
          r fit)
        λ t within. pure-Safe _ t.table within)

line_table-Safe : (lines : ℕ) → Safe Anything (read_line_table lines)
line_table-Safe lines = record {
  safe = λ r fit.
      weaken-Within _ Anything r (read_line_table lines r) (λ _ _. tt)
        (read_line_table-Within lines r fit);
}

file-Safe : Safe Anything file_entry
unfolding file_entry
file-Safe = bind-Safe _ u32-Safe (λ a _. bind-Safe _ cstr-Safe (λ n _. pure-Safe _ _ tt))

dim-Safe : Safe Anything dim_entry
unfolding dim_entry
dim-Safe = bind-Safe _ i16-Safe (λ a _. bind-Safe _ u32-Safe (λ n _. pure-Safe _ _ tt))

tag-Safe : Safe Anything tag_entry
unfolding tag_entry
tag-Safe = bind-Safe _ i16-Safe (λ a _. bind-Safe _ cstr-Safe (λ n _. pure-Safe _ _ tt))

automaton-Safe : Safe Anything automaton_entry
unfolding automaton_entry
automaton-Safe =
    bind-Safe _ i16-Safe
      (λ a _. bind-Safe _ u32-Safe (λ b _. bind-Safe _ cstr-Safe (λ n _. pure-Safe _ _ tt)))

state-Safe : Safe Anything state_entry
unfolding state_entry
state-Safe =
    bind-Safe _ i16-Safe
      (λ a _. bind-Safe _ i16-Safe (λ b _. bind-Safe _ cstr-Safe (λ n _. pure-Safe _ _ tt)))

symbol-Safe : Safe Anything symbol_entry
unfolding symbol_entry
symbol-Safe = bind-Safe _ u32-Safe (λ _ _. bind-Safe _ i16-Safe (λ _ _. bind-Safe _ u32-Safe (λ _ _.
    bind-Safe _ u32-Safe (λ _ _. bind-Safe _ u8-Safe (λ _ _. bind-Safe _ u8-Safe (λ _ _.
      bind-Safe _ count-Safe (λ dim _.
        bind-Safe _ cstr-Safe
          (λ _ _. bind-Safe _ (repeat-Safe dim dim_entry dim-Safe) (λ _ _. pure-Safe _ _ tt)))))))))

tables-Safe : (v a f l s t u w : ℕ) → Safe Anything (tables v a f l s t u w)
unfolding tables
tables-Safe v a f l s t u w = bind-Safe _ (repeat-Safe f file_entry file-Safe) (λ _ _.
    bind-Safe _ (line_table-Safe l) (λ _ _.
      bind-Safe _ (repeat-Safe s symbol_entry symbol-Safe) (λ _ _.
        bind-Safe _ (repeat-Safe t tag_entry tag-Safe) (λ _ _.
          bind-Safe _ (repeat-Safe u automaton_entry automaton-Safe) (λ _ _.
            bind-Safe _ (repeat-Safe w state_entry state-Safe) (λ _ _. pure-Safe _ _ tt))))))

check_magic-Safe : (b : Bool) (e : DbgError) → Safe Anything (if b then pure tt else fail e)
check_magic-Safe true e = pure-Safe _ tt tt
check_magic-Safe false e = fail-Safe _ e

header-Safe : Safe Anything header
unfolding header
header-Safe = bind-Safe _ i32-Safe (λ _ _. bind-Safe _ u16-Safe (λ magic _.
    bind-Safe _ (check_magic-Safe (magic == amx_dbg_magic) _) (λ _ _. bind-Safe _ u8-Safe (λ v _.
      bind-Safe _ u8-Safe (λ a _. bind-Safe _ i16-Safe (λ _ _. bind-Safe _ count-Safe (λ f _.
        bind-Safe _ count-Safe (λ l _. bind-Safe _ count-Safe (λ s _. bind-Safe _ count-Safe (λ t _.
          bind-Safe _ count-Safe
            (λ u _. bind-Safe _ count-Safe (λ w _. tables-Safe v a f l s t u w))))))))))))

-- Parsing ends on every sequence of bytes, with a decoded block or an error of the parser.
pub parse_total :
    (bytes : List ℕ)
    → ((d : AmxDbg) × (parse bytes ≡ ok d)) ⊎ ((e : DbgError) × (parse bytes ≡ err e))
unfolding parse value
parse_total bytes = outcome (header start) (header-Safe.safe start (omega arith))
  where
    start : Reader
    start = record { buf = bytes; pos = 0 }

    outcome :
        (x : Result (AmxDbg × Reader))
        → Within Anything start x
        → ((d : AmxDbg) × (value x ≡ ok d)) ⊎ ((e : DbgError) × (value x ≡ err e))
    outcome (ok (d, r)) w = inl (d, refl)
    outcome (err e) w = inr (e, refl)
    outcome out_of_fuel w = absurd w
