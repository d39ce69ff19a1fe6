-- ===== src/Debug/Reader.antt =====
-- The byte reader of crates/samp-sdk/src/debug/parse.rs. A method takes the reader and returns the
-- reader after it, or the error that `?` passes on. `pos + n` does not reach 2 ^ 32: a slice is
-- shorter than that, and `n` is at most 4.
pub mod Reads
pub mod Safe
use rust_samp.Base.{
  ℕ, zero, suc, ◌+◌, ◌-◌, ◌*◌, ◌≤◌, ◌≡◌, refl, Option, none, some, List, [], ◌∷◌, length, get_elem?,
  take, drop, leb, ◌==◌, if◌then◌else◌,
}
use rust_samp.Debug.Types.{DbgError, truncated, unterminated_name}

-- `out_of_fuel` is no outcome of the code: a loop of the model ran out of the rounds it was given.
pub data Result {ℓ} (A : Type ℓ) : Type ℓ where
  ok : A → Result A
  err : DbgError → Result A
  out_of_fuel : Result A

pub record Reader : Type 0 where
  pub buf : List ℕ
  pub pos : ℕ

abbrev pub M : Type 0 → Type 0
M A = Reader → Result (A × Reader)

infixl 5 ◌>>=◌ ◌>>◌
unfoldable pub ◌>>=◌ : {A B : Type 0} → M A → (A → M B) → M B
◌>>=◌ m f r = elim (m r) [ ok (a, r') ↦ f a r' | err e ↦ err e | out_of_fuel ↦ out_of_fuel ]

abbrev pub ◌>>◌ : {A B : Type 0} → M A → M B → M B
m >> k = m >>= λ _. k

unfoldable pub pure : {A : Type 0} → A → M A
pure a r = ok (a, r)

unfoldable pub fail : {A : Type 0} → DbgError → M A
fail e r = err e

-- `buf.get(from..end)`.
abbrev pub slice : List ℕ → ℕ → ℕ → Option (List ℕ)
slice buf from end = if leb end (length buf) then some (take (end - from) (drop from buf)) else none

unfoldable pub take_bytes : ℕ → M (List ℕ)
take_bytes n r = elim (slice r.buf r.pos (r.pos + n)) [
  | none ↦ err truncated
  | some s ↦ ok (s, record r { pos = r.pos + n })
]

unfoldable pub u8 : M ℕ
u8 r = elim (get_elem? r.buf r.pos) [
  | none ↦ err truncated
  | some b ↦ ok (b, record r { pos = r.pos + 1 })
]

-- `u16::from_le_bytes` and `u32::from_le_bytes` of a slice.
unfoldable pub le_bytes : List ℕ → ℕ
le_bytes [] = 0
le_bytes (b ∷ bs) = b + 256 * le_bytes bs

unfoldable pub u16 : M ℕ
u16 = do s ← take_bytes 2; pure (le_bytes s)

-- The bit pattern of the `i16`.
unfoldable pub i16 : M ℕ
i16 = do s ← take_bytes 2; pure (le_bytes s)

unfoldable pub count : M ℕ
count = u16

unfoldable pub u32 : M ℕ
u32 = do s ← take_bytes 4; pure (le_bytes s)

-- The bit pattern of the `i32`.
unfoldable pub i32 : M ℕ
i32 = do s ← take_bytes 4; pure (le_bytes s)

unfoldable pub peek_u32 : Reader → Option ℕ
peek_u32 r = elim (slice r.buf r.pos (r.pos + 4)) [ none ↦ none | some s ↦ some (le_bytes s) ]

unfoldable pub remaining : Reader → ℕ
remaining r = length r.buf - r.pos

-- The position of the first zero byte, where `rest` is the buffer from `at` on.
unfoldable pub find_zero : List ℕ → ℕ → Option ℕ
find_zero [] at = none
find_zero (b ∷ rest) at = if b == 0 then some at else find_zero rest (at + 1)

unfoldable pub cstr : M (List ℕ)
cstr r = elim (find_zero (drop r.pos r.buf) r.pos) [
  | none ↦ err unterminated_name
  | some end ↦ ok (take (end - r.pos) (drop r.pos r.buf), record r { pos = end + 1 })
]

-- `for _ in 0..n` that pushes what the body reads.
unfoldable pub repeat : {A : Type 0} → ℕ → M A → M (List A)
repeat zero m = pure []
repeat (suc n) m = do x ← m; xs ← repeat n m; pure (x ∷ xs)
