-- ===== src/Cell/Text/Decode.antt =====
-- What a string argument decodes to, in crates/samp-sdk/src/cell/string.rs: `from_raw` and
-- `to_bytes` against the units before the first zero.
use mathlib.Core.Option
use rust_samp.Base.Slices.{take-take, take-append_long, take-append_short, All-take}
use rust_samp.Base.{
  Option, ℕ, zero, suc, ◌+◌, ◌-◌, ◌*◌, ◌%◌, ◌<◌, ◌≤◌, ◌≡◌, refl, ap, sym, subst, leb, ◌∙◌, inl, inr,
  true, false, ◌++◌, min, map, arith, Bool-cases, Option-cases, none, some, List, [], ◌∷◌, take,
  length, length-take, All,
}
use rust_samp.Base.Search.{position, take_while}
use rust_samp.Cell.Error.{memory_access}
use rust_samp.Amx.Scope.{Result, ok, err}
use rust_samp.Cell.Buffer.{UnsizedBuffer, cells_below, get_ref, into_sized_buffer}
use rust_samp.Cell.Buffer.Bounds.{from_raw-found, into_sized_buffer-take}
use rust_samp.Cell.Text.{
  AmxString, be_bytes, bounded_strlen, str_len, with_len, of_buffer, from_raw, is_packed, is_zero,
  to_bytes, unpack, max_string_cells, max_string_len,
}
use rust_samp.Cell.Text.Length.{IsWord, flat, units, bounded_strlen-units, length-be_bytes}
use rust_samp.Cell.Text.Unpack.{nonzero, IsNonzero, position-UpTo, unpack-All}
use rust_samp.Cell.Text.Scan.{position_nil}

-- The cells that a string keeps hold the bytes that it reads.
take-flat :
    (n m : ℕ) (cells : List ℕ) → n ≤ 4 * m → take n (flat (take m cells)) ≡ take n (flat cells)
take-flat zero m cells h = refl
take-flat (suc n) zero cells h = absurd (omega arith)
take-flat (suc n) (suc m) [] h = refl
take-flat (suc n) (suc m) (c ∷ cells) h = elim (Bool-cases (leb (suc n) 4)) [
  | inl short ↦
      let k : suc n ≤ length (be_bytes c) = ground (arith, length-be_bytes c) in
      take-append_short (suc n) (be_bytes c) _ k ∙ sym (take-append_short (suc n) (be_bytes c) _ k)
  | inr long ↦
      let k : length (be_bytes c) ≤ suc n = ground (arith, length-be_bytes c) in
      take-append_long (suc n) (be_bytes c) _ k
      ∙ ap (λ l. be_bytes c ++ l)
          (take-flat (suc n - length (be_bytes c)) m cells (omega (arith, length-be_bytes c)))
      ∙ sym (take-append_long (suc n) (be_bytes c) _ k)
]

abbrev pub IsByte : ℕ → Type 0
IsByte b = b < 256

flat-IsByte : (cells : List ℕ) → All IsByte (flat cells)
unfolding be_bytes
flat-IsByte [] = tt
flat-IsByte (c ∷ cells) =
    (omega arith, (omega arith, (omega arith, (omega arith, flat-IsByte cells))))

pub map-IsByte : (xs : List ℕ) → All IsByte xs → map (λ c. c % 256) xs ≡ xs
map-IsByte [] h = refl
map-IsByte (x ∷ xs) h =
    let e : x % 256 ≡ x = omega (arith, h.0) in rw e (ap (◌∷◌ x) (map-IsByte xs h.1))

to_bytes-packed :
    (first : ℕ) (cells : List ℕ) (len : ℕ)
    → is_packed first ≡ true
    → to_bytes (record { inner = first ∷ cells; len = len })
      ≡ unpack (min len max_string_len) (first ∷ cells) []
unfolding to_bytes
to_bytes-packed first cells len e = rw e refl

to_bytes-plain :
    (first : ℕ) (cells : List ℕ) (len : ℕ)
    → is_packed first ≡ false
    → to_bytes (record { inner = first ∷ cells; len = len })
      ≡ map (λ c. c % 256) (take (min len max_string_len) (first ∷ cells))
unfolding to_bytes
to_bytes-plain first cells len e = rw e refl

-- The bytes of a packed string: those of its first `m` cells, cut at `most`.
packed_bytes :
    (n m window most : ℕ) (cells : List ℕ)
    → All IsWord cells
    → position is_zero (flat (take window cells)) ≡ some n
    → min n most ≤ 4 * m
    → most ≤ 4 * window
    → unpack (min n most) (take m cells) []
      ≡ map (λ c. c % 256) (take most (take_while nonzero (flat (take window cells))))
packed_bytes n m window most cells w e hm hw =
    let t = position-UpTo (flat (take window cells)) n e in
    let k = min n most in
    let in_window : take k (flat (take m cells)) ≡ take most (take n (flat (take window cells))) =
      take-flat k m cells hm
      ∙ sym (take-flat k window cells (omega arith))
      ∙ ap (λ i. take i (flat (take window cells))) (omega arith)
      ∙ sym (take-take most n (flat (take window cells))) in
    let nz : All IsNonzero (take k (flat (take m cells))) =
      subst (All IsNonzero) (sym in_window) (All-take IsNonzero most _ t.nonzeros) in
    unpack-All k (take m cells) (All-take IsWord m cells w) nz
    ∙ in_window
    ∙ sym (
        map-IsByte _
          (All-take IsByte most _ (All-take IsByte n _ (flat-IsByte (take window cells)))))
    ∙ ap (λ l. map (λ c. c % 256) (take most l)) t.taken

plain_bytes :
    (n m window most : ℕ) (cells : List ℕ)
    → position is_zero (take window cells) ≡ some n
    → min n most ≤ m
    → take (min n most) (take m cells) ≡ take most (take_while nonzero (take window cells))
plain_bytes n m window most cells e hm =
    let t = position-UpTo (take window cells) n e in
    let inside : n < window = omega (arith, t.inside, length-take window cells) in
    take-take (min n most) m cells
    ∙ ap (λ i. take i cells) (omega arith)
    ∙ sym (take-take most (min n window) cells)
    ∙ ap (take most) (sym (take-take n window cells) ∙ t.taken)

-- A string in the cells up to the data top, `none` where it does not end there.
pub read_within : List ℕ → Option AmxString
read_within cells = elim (bounded_strlen (take max_string_cells cells)) [
  | none ↦ none
  | some str_len ↦
      some (record { inner = take (min (str_len + 1) max_string_cells) cells; len = str_len })
]

-- What is kept of the cells.
abbrev keep : ℕ → List ℕ → ℕ → AmxString
keep window cells n = record { inner = take (min (n + 1) window) cells; len = n }

read_within-keep :
    (cells : List ℕ) (n : ℕ)
    → bounded_strlen (take max_string_cells cells) ≡ some n
    → read_within cells ≡ some (keep max_string_cells cells n)
unfolding read_within
read_within-keep cells n e = rw (read_within, e) refl

-- The bytes of a string, of which `window` cells are looked at and `most` bytes read.
abbrev pub text : ℕ → ℕ → List ℕ → List ℕ
text window most cells =
    map (λ c. c % 256) (take most (take_while nonzero (units (take window cells))))

keep-text :
    (first : ℕ) (rest : List ℕ) (n window most : ℕ)
    → All IsWord (first ∷ rest)
    → most ≡ max_string_len
    → most ≤ suc window
    → position is_zero (units (take (suc window) (first ∷ rest))) ≡ some n
    → to_bytes (keep (suc window) (first ∷ rest) n) ≡ text (suc window) most (first ∷ rest)
keep-text first rest n window most w m h e =
    let k : min (n + 1) (suc window) ≡ suc (min n window) = omega arith in
    let all = first ∷ rest in
    elim (Bool-cases (is_packed first)) [
      | inl packed ↦
          let u : units (take (suc window) all) ≡ flat (take (suc window) all) = rw packed refl in
          rw (k, u, to_bytes-packed first (take (min n window) rest) n packed, sym m)
            (packed_bytes n (suc (min n window)) (suc window) most all w
              (sym (ap (position is_zero) u) ∙ e) (omega arith) (omega arith))
      | inr plain ↦
          let u : units (take (suc window) all) ≡ take (suc window) all = rw plain refl in
          rw (k, u, to_bytes-plain first (take (min n window) rest) n plain, sym m)
            (ap (map (λ c. c % 256)) (
              plain_bytes n (suc (min n window)) (suc window) most all
                (sym (ap (position is_zero) u) ∙ e) (omega arith)))
    ]

read_within-none :
    (cells : List ℕ)
    → bounded_strlen (take max_string_cells cells) ≡ none
    → read_within cells ≡ none
unfolding read_within
read_within-none cells e = rw (read_within, e) refl

take-IsWord : (n : ℕ) (cells : List ℕ) → All IsWord cells → All IsWord (take n cells)
take-IsWord n cells w = All-take IsWord n cells w

-- The same of the cells up to the data top.
to_bytes-read_within :
    (cells : List ℕ)
    → All IsWord cells
    → Option.map to_bytes (read_within cells)
      ≡ Option.map
          (λ n. text max_string_cells max_string_len cells)
          (position is_zero (units (take max_string_cells cells)))
to_bytes-read_within [] w =
    rw
      (
        position_nil is_zero,
        read_within-none [] (bounded_strlen-units [] tt ∙ position_nil is_zero),
      )
      refl
to_bytes-read_within (first ∷ rest) w =
    let window = take max_string_cells (first ∷ rest) in
    let e : bounded_strlen window ≡ position is_zero (units window) =
      bounded_strlen-units window (take-IsWord max_string_cells (first ∷ rest) w) in
    elim (Option-cases (position is_zero (units window))) [
      | inl k ↦ rw (k, read_within-none (first ∷ rest) (e ∙ k)) refl
      | inr (n, k) ↦
          rw (k, read_within-keep (first ∷ rest) n (e ∙ k))
            (ap some (keep-text first rest n 1_048_575 max_string_len w refl (omega arith) k))
    ]

-- What a string that was read gives, or the refusal of one that does not end.
abbrev pub decoded : {A : Type 0} → Option A → Result A
decoded none = err memory_access
decoded (some a) = ok a

abbrev pub map_ok : {A B : Type 0} → (A → B) → Result A → Result B
map_ok f (err e) = err e
map_ok f (ok a) = ok (f a)

map_ok-decoded :
    {A B : Type 0} (f : A → B) (o : Option A) → map_ok f (decoded o) ≡ decoded (Option.map f o)
map_ok-decoded f none = refl
map_ok-decoded f (some a) = refl

of_buffer-read_within :
    (strlen : List ℕ → Result ℕ) (memory : List ℕ) (n : ℕ)
    → of_buffer strlen (ok (record { cells = memory; max_cells = some n }))
      ≡ decoded (read_within (take n memory))
unfolding of_buffer str_len with_len
of_buffer-read_within strlen memory n =
    let buffer : UnsizedBuffer = record { cells = memory; max_cells = some n } in
    let measured : Option ℕ → Result AmxString =
      λ o. with_len buffer (elim o [ none ↦ err memory_access | some len ↦ ok len ]) in
    let window : take max_string_cells (take n memory) ≡ take (min n max_string_cells) memory =
      take-take max_string_cells n memory ∙ ap (λ k. take k memory) (omega arith) in
    elim (Option-cases (bounded_strlen (take (min n max_string_cells) memory))) [
      | inl e ↦
          ap measured e
          ∙ ap decoded (sym (read_within-none (take n memory) (ap bounded_strlen window ∙ e)))
      | inr (len, e) ↦
          let kept : into_sized_buffer buffer (len + 1)
              ≡ take (min (len + 1) max_string_cells) (take n memory) =
            into_sized_buffer-take memory n (len + 1)
            ∙ ap (λ k. take k memory) (omega arith)
            ∙ sym (take-take (min (len + 1) max_string_cells) n memory) in
          ap measured e
          ∙ ap (λ i. ok (record { inner = i; len = len })) kept
          ∙ ap decoded (sym (read_within-keep (take n memory) len (ap bounded_strlen window ∙ e)))
    ]

-- A string of 32-bit cells in a buffer of `n` of them is refused with `AmxError::MemoryAccess` if no
-- unit of its first `max_string_cells` cells is zero; otherwise it decodes to the units before the
-- first zero.
pub to_bytes-of_buffer :
    (strlen : List ℕ → Result ℕ) (memory : List ℕ) (n : ℕ)
    → All IsWord memory
    → map_ok to_bytes (of_buffer strlen (ok (record { cells = memory; max_cells = some n })))
      ≡ decoded (
          Option.map
            (λ at. text max_string_cells max_string_len (take n memory))
            (position is_zero (units (take max_string_cells (take n memory)))))
to_bytes-of_buffer strlen memory n w =
    ap (map_ok to_bytes) (of_buffer-read_within strlen memory n)
    ∙ map_ok-decoded to_bytes (read_within (take n memory))
    ∙ ap decoded (to_bytes-read_within (take n memory) (take-IsWord n memory w))

-- A string argument whose address the machine takes, of 32-bit cells: let `cells` be those of the memory that lie below the data top. It is refused with `AmxError::MemoryAccess` if no unit of the first `max_string_cells` of them is zero; otherwise it decodes to the units before the first zero, cut at `max_string_len`, each as a byte. The server is not asked for the length.
pub to_bytes-from_raw :
    (get_addr : Option (ℕ → ℕ × Option (ℕ × List ℕ))) (strlen : List ℕ → Result ℕ) (stp cell : ℕ)
    (memory : List ℕ)
    → get_ref get_addr cell ≡ ok memory
    → All IsWord memory
    → let cells = take (cells_below stp cell) memory in
      map_ok to_bytes (from_raw get_addr strlen (some stp) cell)
      ≡ decoded (
          Option.map
            (λ n. text max_string_cells max_string_len cells)
            (position is_zero (units (take max_string_cells cells))))
unfolding from_raw
to_bytes-from_raw get_addr strlen stp cell memory found w =
    ap (λ b. map_ok to_bytes (of_buffer strlen b)) (from_raw-found get_addr stp cell memory found)
    ∙ to_bytes-of_buffer strlen memory (cells_below stp cell) w
