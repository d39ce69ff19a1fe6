-- ===== src/Amx/Memory/Bytes.antt =====
-- Words in a list of bytes, as crates/samp-sdk/src/amx.rs copies them.
use rust_samp.Base.{
  ℕ, zero, suc, ◌+◌, ◌/◌, ◌%◌, ◌≤◌, ◌<◌, ◌≡◌, ◌⊎◌, refl, ap, ◌∙◌, List, [], ◌∷◌, ◌++◌, ◌&&◌, length,
  take, drop, ltb, ◌==◌, if◌then◌else◌, arith,
}
use rust_samp.Base.Words.{u32_mod}
use rust_samp.Amx.Memory.{byte_at, set_byte, from_ne_bytes, copy_word, write_word}

length-set_byte : (bytes : List ℕ) (i v : ℕ) → length (set_byte bytes i v) ≡ length bytes
length-set_byte [] i v = refl
length-set_byte (b ∷ bytes) zero v = refl
length-set_byte (b ∷ bytes) (suc i) v = ap suc (length-set_byte bytes i v)

byte_at-set_byte :
    (bytes : List ℕ) (i j v : ℕ)
    → byte_at (set_byte bytes i v) j
      ≡ (if (i == j) && ltb i (length bytes) then v else byte_at bytes j)
byte_at-set_byte [] i j v = ground arith
byte_at-set_byte (b ∷ bytes) zero zero v = ground arith
byte_at-set_byte (b ∷ bytes) zero (suc j) v = ground arith
byte_at-set_byte (b ∷ bytes) (suc i) zero v = ground arith
byte_at-set_byte (b ∷ bytes) (suc i) (suc j) v = ground (arith, byte_at-set_byte bytes i j v)

pub length-write_word : (bytes : List ℕ) (at v : ℕ) → length (write_word bytes at v) ≡ length bytes
unfolding write_word
length-write_word bytes at v =
    length-set_byte _ (at + 3) _
    ∙ length-set_byte _ (at + 2) _
    ∙ length-set_byte _ (at + 1) _
    ∙ length-set_byte bytes at _

-- A byte inside the word that was written.
set_self : (bytes : List ℕ) (i v : ℕ) → i < length bytes → byte_at (set_byte bytes i v) i ≡ v
set_self bytes i v h = ground (arith, byte_at-set_byte bytes i i v)

set_other :
    (bytes : List ℕ) (i j v : ℕ)
    → (i < j) ⊎ (j < i)
    → byte_at (set_byte bytes i v) j ≡ byte_at bytes j
set_other bytes i j v h = ground (arith, byte_at-set_byte bytes i j v)

write_word-other :
    (bytes : List ℕ) (at v j : ℕ)
    → (j < at) ⊎ (at + 3 < j)
    → byte_at (write_word bytes at v) j ≡ byte_at bytes j
unfolding write_word
write_word-other bytes at v j h =
    set_other _ (at + 3) j _ (ground arith)
    ∙ set_other _ (at + 2) j _ (ground arith)
    ∙ set_other _ (at + 1) j _ (ground arith)
    ∙ set_other bytes at j _ (ground arith)

-- The four bytes of the word that was written.
write_word-bytes :
    (bytes : List ℕ) (at v : ℕ)
    → at + 3 < length bytes
    → let w = write_word bytes at v in
      (byte_at w at ≡ v % 256)
      × (byte_at w (at + 1) ≡ v / 256 % 256)
      × (byte_at w (at + 2) ≡ v / 65_536 % 256)
      × (byte_at w (at + 3) ≡ v / 16_777_216 % 256)
unfolding write_word
write_word-bytes bytes at v h =
    let b₁ = set_byte bytes at (v % 256) in
    let b₂ = set_byte b₁ (at + 1) (v / 256 % 256) in
    let b₃ = set_byte b₂ (at + 2) (v / 65_536 % 256) in
    let l₁ = length-set_byte bytes at (v % 256) in
    let l₂ = length-set_byte b₁ (at + 1) (v / 256 % 256) in
    let l₃ = length-set_byte b₂ (at + 2) (v / 65_536 % 256) in
    (
      set_other b₃ (at + 3) at _ (ground arith)
          ∙ set_other b₂ (at + 2) at _ (ground arith)
          ∙ set_other b₁ (at + 1) at _ (ground arith)
          ∙ set_self bytes at _ (omega arith),
      set_other b₃ (at + 3) (at + 1) _ (ground arith)
          ∙ set_other b₂ (at + 2) (at + 1) _ (ground arith)
          ∙ set_self b₁ (at + 1) _ (omega arith),
      set_other b₃ (at + 3) (at + 2) _ (ground arith) ∙ set_self b₂ (at + 2) _ (omega arith),
      set_self b₃ (at + 3) _ (omega arith),
    )

pub copy_word-write_word :
    (bytes : List ℕ) (at v : ℕ)
    → v < u32_mod
    → at + 3 < length bytes
    → copy_word (write_word bytes at v) at ≡ v
unfolding copy_word from_ne_bytes
copy_word-write_word bytes at v bound h =
    let (e₀, e₁, e₂, e₃) = write_word-bytes bytes at v h in rw (e₀, e₁, e₂, e₃) (omega arith)

pub copy_word-write_word_other :
    (bytes : List ℕ) (at j v : ℕ)
    → (j + 4 ≤ at) ⊎ (at + 4 ≤ j)
    → copy_word (write_word bytes at v) j ≡ copy_word bytes j
unfolding copy_word
copy_word-write_word_other bytes at j v h =
    let e₀ = write_word-other bytes at v j (ground arith) in
    let e₁ = write_word-other bytes at v (j + 1) (ground arith) in
    let e₂ = write_word-other bytes at v (j + 2) (ground arith) in
    let e₃ = write_word-other bytes at v (j + 3) (ground arith) in rw (e₀, e₁, e₂, e₃) refl

pub drop-take-append :
    (n : ℕ) (xs ys : List ℕ) → length ys ≡ length (drop n xs) → drop n (take n xs ++ ys) ≡ ys
drop-take-append zero xs ys h = refl
drop-take-append (suc n) [] [] h = refl
drop-take-append (suc n) [] (y ∷ ys) h = absurd (omega arith)
drop-take-append (suc n) (x ∷ xs) ys h = drop-take-append n xs ys h
