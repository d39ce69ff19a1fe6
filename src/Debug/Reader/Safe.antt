-- ===== src/Debug/Reader/Safe.antt =====
-- The reader of crates/samp-sdk/src/debug/parse.rs on any bytes: it never leaves the buffer, and no
-- loop runs out of fuel.
use rust_samp.Base.{
  ℕ, zero, suc, ◌+◌, ◌≤◌, ◌<◌, ◌≡◌, refl, ◌∙◌, inl, inr, some, List, [], ◌∷◌, length, length-drop,
  drop, get_elem?, leb, leb→le, Bool-cases, Option-cases, arith,
}
use rust_samp.Debug.Reader.{
  Result, ok, err, out_of_fuel, Reader, M, ◌>>=◌, pure, fail, take_bytes, u8, u16, i16, count, u32,
  i32, le_bytes, find_zero, cstr, repeat,
}
use rust_samp.Debug.Types.{DbgError}

-- From `r` the outcome is an error, or a value that satisfies `P` and a reader over the same buffer
-- that is not before `r` and not past the end.
abbrev pub Within : {A : Type 0} → (A → Type 0) → Reader → Result (A × Reader) → Type 0
Within P r (ok (a, r')) = P a × (r'.buf ≡ r.buf) × (r.pos ≤ r'.pos) × (r'.pos ≤ length r'.buf)
Within P r (err e) = Unit
Within P r out_of_fuel = ⊥

pub record Safe {A : Type 0} (P : A → Type 0) (m : M A) : Type 0 where
  pub safe : (r : Reader) → r.pos ≤ length r.buf → Within P r (m r)

-- Any value.
abbrev pub Anything : {A : Type 0} → A → Type 0
Anything a = Unit

later :
    {B : Type 0} (Q : B → Type 0) (r r' : Reader) (y : Result (B × Reader))
    → r'.buf ≡ r.buf
    → r.pos ≤ r'.pos
    → Within Q r' y
    → Within Q r y
later Q r r' (ok (b, r'')) e l (q, e', l', f) = (q, e' ∙ e, omega arith, f)
later Q r r' (err e) _ l w = tt
later Q r r' out_of_fuel e l w = w

module _ {A B : Type 0} where
  pub bind-Within :
      {P : A → Type 0} {Q : B → Type 0} (f : A → M B) (r : Reader) (x : Result (A × Reader))
      → Within P r x
      → ((a : A) → P a → Safe Q (f a))
      → Within Q r (◌>>=◌ (λ _. x) f r)
  unfolding ◌>>=◌
  bind-Within {Q = Q} f r (ok (a, r')) (p, e, l, g) k =
      later Q r r' (f a r') e l ((k a p).safe r' g)
  bind-Within f r (err e) w k = tt
  bind-Within f r out_of_fuel w k = w

  pub bind-Safe :
      {P : A → Type 0} {Q : B → Type 0} (f : A → M B) {m : M A}
      → Safe P m
      → ((a : A) → P a → Safe Q (f a))
      → Safe Q (m >>= f)
  unfolding ◌>>=◌
  bind-Safe {P} {Q} f {m} h k = record {
    safe = λ r fit. bind-Within {P = P} {Q = Q} f r (m r) (h.safe r fit) k;
  }

pub pure-Safe : {B : Type 0} (Q : B → Type 0) (b : B) → Q b → Safe Q (pure b)
unfolding pure
pure-Safe Q b q = record { safe = λ r fit. (q, refl, omega arith, fit) }

pub fail-Safe : {B : Type 0} (Q : B → Type 0) (e : DbgError) → Safe Q (fail e)
unfolding fail
fail-Safe Q e = record { safe = λ r fit. tt }

take_bytes-Safe : (n : ℕ) → Safe Anything (take_bytes n)
unfolding take_bytes
take_bytes-Safe n = record {
  safe = λ r fit. elim (Bool-cases (leb (r.pos + n) (length r.buf))) [
    | inl ok' ↦ rw (ok', take_bytes) (tt, refl, omega arith, leb→le _ _ ok')
    | inr past ↦ rw (past, take_bytes) tt
  ];
}

number-Safe : (n : ℕ) → Safe Anything (take_bytes n >>= λ s. pure (le_bytes s))
number-Safe n = bind-Safe _ (take_bytes-Safe n) (λ s _. pure-Safe _ _ tt)

pub u16-Safe : Safe Anything u16
unfolding u16
u16-Safe = number-Safe 2

pub i16-Safe : Safe Anything i16
unfolding i16
i16-Safe = number-Safe 2

pub count-Safe : Safe Anything count
unfolding count
count-Safe = u16-Safe

pub u32-Safe : Safe Anything u32
unfolding u32
u32-Safe = number-Safe 4

pub i32-Safe : Safe Anything i32
unfolding i32
i32-Safe = number-Safe 4

get_elem?-lt : (xs : List ℕ) (i b : ℕ) → get_elem? xs i ≡ some b → i < length xs
get_elem?-lt [] i b e = cc
get_elem?-lt (x ∷ xs) zero b e = omega arith
get_elem?-lt (x ∷ xs) (suc i) b e = omega (arith, get_elem?-lt xs i b e)

pub u8-Safe : Safe Anything u8
unfolding u8
u8-Safe = record {
  safe = λ r fit. elim (Option-cases (get_elem? r.buf r.pos)) [
    | inl e ↦ rw (e, u8) tt
    | inr (b, e) ↦ rw (e, u8) (tt, refl, omega arith, omega (arith, get_elem?-lt r.buf r.pos b e))
  ];
}

find_zero_bounds :
    (xs : List ℕ) (at end : ℕ) → find_zero xs at ≡ some end → (at ≤ end) × (end < at + length xs)
unfolding find_zero
find_zero_bounds [] at end e = cc
find_zero_bounds (b ∷ xs) at end e = ground (arith, find_zero_bounds xs (at + 1) end)

pub cstr-Safe : Safe Anything cstr
unfolding cstr
cstr-Safe = record {
  safe = λ r fit. elim (Option-cases (find_zero (drop r.pos r.buf) r.pos)) [
    | inl e ↦ rw (e, cstr) tt
    | inr (end, e) ↦
        let b = find_zero_bounds _ r.pos end e in
        rw (e, cstr) (tt, refl, omega (arith, b.0), omega (arith, b.1, length-drop r.pos r.buf))
  ];
}

pub repeat-Safe : {A : Type 0} (n : ℕ) (m : M A) → Safe Anything m → Safe Anything (repeat n m)
unfolding repeat
repeat-Safe zero m h = pure-Safe _ _ tt
repeat-Safe (suc n) m h =
    bind-Safe _ h (λ x _. bind-Safe _ (repeat-Safe n m h) (λ xs _. pure-Safe _ _ tt))

pub weaken-Within :
    {A : Type 0} (P Q : A → Type 0) (r : Reader) (x : Result (A × Reader))
    → ((a : A) → P a → Q a)
    → Within P r x
    → Within Q r x
weaken-Within P Q r (ok (a, r')) f (p, e, l, g) = (f a p, e, l, g)
weaken-Within P Q r (err e) f w = tt
weaken-Within P Q r out_of_fuel f w = w

pub weaken-Safe :
    {A : Type 0} {P Q : A → Type 0} {m : M A} → ((a : A) → P a → Q a) → Safe P m → Safe Q m
weaken-Safe {P} {Q} {m} f h = record { safe = λ r fit. weaken-Within P Q r (m r) f (h.safe r fit) }
