-- ===== src/Cell/Text/Write.antt =====
-- Writing a string into a buffer, in crates/samp-sdk/src/cell/string.rs.
use mathlib.Core.Option
use rust_samp.Base.Slices.{take_short, All-drop}
use rust_samp.Base.{
  ℕ, zero, suc, ◌+◌, ◌-◌, ◌%◌, ◌<◌, ◌≤◌, ◌≡◌, refl, ap, ◌∙◌, inl, inr, Bool, true, false, ◌++◌, leb,
  map, gt→leb, le→leb, ge→ltb, Bool-cases, arith, none, some, List, [], ◌∷◌, take, drop, length,
  if◌then◌else◌, All, All-append,
}
use rust_samp.Base.Search.{position, take_while}
use rust_samp.Cell.Text.{
  of_buffer, is_packed, is_zero, to_bytes, write_bytes, put_in_buffer_checked, max_unpacked,
  max_string_cells, max_string_len,
}
use rust_samp.Cell.Text.Length.{IsWord, units}
use rust_samp.Cell.Text.Unpack.{nonzero}
use rust_samp.Cell.Text.Decode.{IsByte, text, map-IsByte, decoded, map_ok, to_bytes-of_buffer}
use rust_samp.Amx.Scope.{Result, ok}
use rust_samp.Cell.Text.Scan.{position-cons, position_hit, shift}

-- A byte of a string that is written: not zero.
abbrev pub IsTextByte : ℕ → Type 0
IsTextByte b = b < 256 × (nonzero b ≡ true)

write_bytes-append :
    (buffer bytes : List ℕ)
    → length bytes < length buffer
    → write_bytes buffer bytes ≡ bytes ++ 0 ∷ drop (suc (length bytes)) buffer
unfolding write_bytes
write_bytes-append [] bytes h = absurd (omega arith)
write_bytes-append (c ∷ buffer) [] h = refl
write_bytes-append (c ∷ buffer) (b ∷ bytes) h =
    ap (◌∷◌ b) (write_bytes-append buffer bytes (omega arith))

length-write_bytes : (buffer bytes : List ℕ) → length (write_bytes buffer bytes) ≡ length buffer
unfolding write_bytes
length-write_bytes [] bytes = refl
length-write_bytes (c ∷ buffer) [] = refl
length-write_bytes (c ∷ buffer) (b ∷ bytes) = ap suc (length-write_bytes buffer bytes)

-- The first unit of a written string is a byte, so the string is not packed.
units-written :
    (bytes rest : List ℕ) → All IsTextByte bytes → units (bytes ++ 0 ∷ rest) ≡ bytes ++ 0 ∷ rest
unfolding is_packed
units-written [] rest h = refl
units-written (b ∷ bytes) rest h = rw (ge→ltb max_unpacked b (omega (arith, h.0.0))) refl

position-written :
    (bytes rest : List ℕ)
    → All IsTextByte bytes
    → position is_zero (bytes ++ 0 ∷ rest) ≡ some (length bytes)
unfolding is_zero
position-written [] rest h = position_hit is_zero 0 rest refl
position-written (b ∷ bytes) rest h =
    let z : is_zero b ≡ false = ground (arith, h.0.1) in
    position-cons is_zero b _ z
    ∙ ap (shift 1) (position-written bytes rest h.1)
    ∙ ap some (omega arith)

take_while-written :
    (bytes rest : List ℕ) → All IsTextByte bytes → take_while nonzero (bytes ++ 0 ∷ rest) ≡ bytes
unfolding take_while is_zero
take_while-written [] rest h = refl
take_while-written (b ∷ bytes) rest h = rw h.0.1 (ap (◌∷◌ b) (take_while-written bytes rest h.1))

take-written :
    (k : ℕ) (bytes rest : List ℕ)
    → length bytes < k
    → take k (bytes ++ 0 ∷ rest) ≡ bytes ++ 0 ∷ take (k - length bytes - 1) rest
take-written zero bytes rest h = absurd (omega arith)
take-written (suc k) [] rest h = ap (λ n. 0 ∷ take n rest) (omega arith)
take-written (suc k) (b ∷ bytes) rest h =
    let e : suc k - suc (length bytes) ≡ k - length bytes = omega arith in
    rw e (ap (◌∷◌ b) (take-written k bytes rest (omega arith)))

IsByte-written : (bytes : List ℕ) → All IsTextByte bytes → All IsByte bytes
IsByte-written [] h = tt
IsByte-written (b ∷ bytes) h = (h.0.0, IsByte-written bytes h.1)

-- What is read back, of which `window` cells are looked at and `most` bytes read.
read_back :
    (window most : ℕ) (bytes rest : List ℕ)
    → All IsTextByte bytes
    → length bytes < window
    → length bytes ≤ most
    → Option.map
        (λ n. text window most (bytes ++ 0 ∷ rest))
        (position is_zero (units (take window (bytes ++ 0 ∷ rest))))
      ≡ some bytes
read_back window most bytes rest h fits room =
    let later = take (window - length bytes - 1) rest in
    rw
      (
        take-written window bytes rest fits,
        units-written bytes later h,
        position-written bytes later h,
        take_while-written bytes later h,
      )
      (ap some (
        ap (map (λ c. c % 256)) (take_short most bytes room)
        ∙ map-IsByte bytes (IsByte-written bytes h)))

IsWord-written : (bytes : List ℕ) → All IsTextByte bytes → All IsWord bytes
IsWord-written [] h = tt
IsWord-written (b ∷ bytes) h = (omega (arith, h.0.0), IsWord-written bytes h.1)

-- Bytes without a zero, fewer than the buffer's 32-bit cells and than `max_string_cells`, are
-- written, and read back from the buffer they are the same; the flag of a lost character is passed
-- on.
pub put_in_buffer_checked-from_raw :
    (strlen : List ℕ → Result ℕ) (buffer bytes : List ℕ) (lost : Bool)
    → All IsWord buffer
    → All IsTextByte bytes
    → length bytes < length buffer
    → length bytes < max_string_cells
    → Option.map {B = Bool × Result (List ℕ)}
        (λ r. (
          r.1,
          map_ok to_bytes
              (of_buffer strlen (ok (record { cells = r.0; max_cells = some (length r.0) }))),
        ))
        (put_in_buffer_checked buffer (bytes, lost))
      ≡ some (lost, ok bytes)
unfolding put_in_buffer_checked
put_in_buffer_checked-from_raw strlen buffer bytes lost w h fits short =
    let rest = drop (suc (length bytes)) buffer in
    let written = bytes ++ 0 ∷ rest in
    let words : All IsWord written =
      All-append IsWord bytes (0 ∷ rest) (IsWord-written bytes h)
        (omega arith, All-drop IsWord (suc (length bytes)) buffer w) in
    rw (gt→leb (length buffer) (length bytes) fits, write_bytes-append buffer bytes fits)
      (ap (λ o. some (lost, o))
        (to_bytes-of_buffer strlen written (length written) words
          ∙ ap
              (λ cells. decoded (
                Option.map (λ at. text max_string_cells max_string_len cells)
                  (position is_zero (units (take max_string_cells cells)))))
              (take_short (length written) written (omega arith))
          ∙ ap decoded
              (read_back max_string_cells max_string_len bytes rest h short (omega arith))))

-- Writing is refused exactly where the bytes and their zero do not fit into the buffer, and what is
-- written has the buffer's length.
pub put_in_buffer_checked_lem :
    (buffer bytes : List ℕ) (lost : Bool)
    → Option.map (λ r. length r.0) (put_in_buffer_checked buffer (bytes, lost))
      ≡ (if leb (length bytes + 1) (length buffer) then some (length buffer) else none)
unfolding put_in_buffer_checked
put_in_buffer_checked_lem buffer bytes lost =
    elim (Bool-cases (leb (length buffer) (length bytes))) [
      | inl full ↦ rw (full, gt→leb (length bytes + 1) (length buffer) (ground arith)) refl
      | inr room ↦
          rw (room, le→leb (length bytes + 1) (length buffer) (ground arith))
            (ap some (length-write_bytes buffer bytes))
    ]
