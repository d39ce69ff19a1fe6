-- ===== src/Base/Slices.antt =====
-- Parts of a list: what `take` and `drop` give of a list's parts.
use Prim.Native.Nat.{ℕ, zero, suc, ◌+◌, ◌-◌, ◌≤◌, min}
use mathlib.Core.Path.{◌≡◌, refl, sym, ap, ◌∙◌}
use mathlib.Core.List.{List, [], ◌∷◌, ◌++◌}
use native.Mathlib.Omega.{arith}
use rust_samp.Base.Lists.{length, take, drop, All}

pub take-nil {ℓ} : {A : Type ℓ} (k : ℕ) → take {A = A} k [] ≡ []
take-nil zero = refl
take-nil (suc k) = refl

pub drop-nil {ℓ} : {A : Type ℓ} (k : ℕ) → drop {A = A} k [] ≡ []
drop-nil zero = refl
drop-nil (suc k) = refl

module _ {ℓ} {A : Type ℓ} where
  pub drop-add : (m n : ℕ) (xs : List A) → drop (n + m) xs ≡ drop m (drop n xs)
  drop-add m zero xs = ap (λ k. drop k xs) (omega arith)
  drop-add m (suc n) [] = drop-nil (suc n + m) ∙ sym (drop-nil m)
  drop-add m (suc n) (x ∷ xs) =
      let e : suc n + m ≡ suc (n + m) = omega arith in ap (λ k. drop k (x ∷ xs)) e ∙ drop-add m n xs

  pub take-take : (m n : ℕ) (xs : List A) → take m (take n xs) ≡ take (min m n) xs
  take-take zero n xs = let e : 0 ≡ min 0 n = omega arith in ap (λ k. take k xs) e
  take-take (suc m) zero xs = let e : 0 ≡ min (suc m) 0 = omega arith in ap (λ k. take k xs) e
  take-take (suc m) (suc n) [] = sym (take-nil (min (suc m) (suc n)))
  take-take (suc m) (suc n) (x ∷ xs) =
      let e : min (suc m) (suc n) ≡ suc (min m n) = omega arith in
      rw e (ap (◌∷◌ x) (take-take m n xs))

  pub take-append_long :
      (k : ℕ) (xs ys : List A) → length xs ≤ k → take k (xs ++ ys) ≡ xs ++ take (k - length xs) ys
  take-append_long k [] ys h = ap (λ n. take n ys) (omega arith)
  take-append_long zero (x ∷ xs) ys h = absurd (omega arith)
  take-append_long (suc k) (x ∷ xs) ys h =
      let e : suc k - suc (length xs) ≡ k - length xs = omega arith in
      rw e (ap (◌∷◌ x) (take-append_long k xs ys (omega arith)))

  pub take-append_short : (k : ℕ) (xs ys : List A) → k ≤ length xs → take k (xs ++ ys) ≡ take k xs
  take-append_short zero xs ys h = refl
  take-append_short (suc k) [] ys h = absurd (omega arith)
  take-append_short (suc k) (x ∷ xs) ys h = ap (◌∷◌ x) (take-append_short k xs ys (omega arith))

  pub drop-append_short :
      (k : ℕ) (xs ys : List A) → k ≤ length xs → drop k (xs ++ ys) ≡ drop k xs ++ ys
  drop-append_short zero xs ys h = refl
  drop-append_short (suc k) [] ys h = absurd (omega arith)
  drop-append_short (suc k) (x ∷ xs) ys h = drop-append_short k xs ys (omega arith)

  pub take_short : (k : ℕ) (xs : List A) → length xs ≤ k → take k xs ≡ xs
  take_short zero [] h = refl
  take_short zero (x ∷ xs) h = absurd (omega arith)
  take_short (suc k) [] h = refl
  take_short (suc k) (x ∷ xs) h = ap (◌∷◌ x) (take_short k xs (omega arith))

  pub All-take {κ} : (P : A → Type κ) (n : ℕ) (xs : List A) → All P xs → All P (take n xs)
  All-take P zero xs h = tt
  All-take P (suc n) [] h = tt
  All-take P (suc n) (x ∷ xs) h = (h.0, All-take P n xs h.1)

  pub All-drop {κ} : (P : A → Type κ) (n : ℕ) (xs : List A) → All P xs → All P (drop n xs)
  All-drop P zero xs h = h
  All-drop P (suc n) [] h = tt
  All-drop P (suc n) (x ∷ xs) h = All-drop P n xs h.1
