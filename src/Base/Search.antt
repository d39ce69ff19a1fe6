-- ===== src/Base/Search.antt =====
-- The iterator methods of the standard library that the program uses on slices (`take_while`,
-- `last`, `find`, `filter`, `position`, `any`, `min`), and what is known of their results.
use Prim.Native.Nat.{ℕ, suc}
use mathlib.Core.Path.{◌≡◌, refl, ap}
use mathlib.Core.Logic.{inl, inr}
use mathlib.Core.Bool.{Bool, true, false, ◌||◌}
use mathlib.Core.Option.{Option, none, some}
use mathlib.Core.List.{List, [], ◌∷◌, ◌++◌}
use native.Mathlib.Omega.{arith}
use rust_samp.Base.Tests.{ltb, if◌then◌else◌, Bool-cases}
use rust_samp.Base.Lists.{All}

module _ {ℓ} {A : Type ℓ} where
  unfoldable pub take_while : (A → Bool) → List A → List A
  take_while p [] = []
  take_while p (x ∷ xs) = if p x then x ∷ take_while p xs else []

  last_from : A → List A → A
  last_from x [] = x
  last_from x (y ∷ xs) = last_from y xs

  unfoldable pub get_last? : List A → Option A
  unfolding last_from
  get_last? [] = none
  get_last? (x ∷ xs) = some (last_from x xs)

  unfoldable pub find : (A → Bool) → List A → Option A
  find p [] = none
  find p (x ∷ xs) = if p x then some x else find p xs

  unfoldable pub select : (A → Bool) → List A → List A
  select p [] = []
  select p (x ∷ xs) = if p x then x ∷ select p xs else select p xs

  unfoldable pub any : (A → Bool) → List A → Bool
  any p [] = false
  any p (x ∷ xs) = p x || any p xs

  unfoldable pub position : (A → Bool) → List A → Option ℕ
  position p [] = none
  position p (x ∷ xs) =
      if p x then some 0 else (elim (position p xs) [ none ↦ none | some i ↦ some (suc i) ])

unfoldable pub minimum : List ℕ → Option ℕ
minimum [] = none
minimum (x ∷ xs) = elim (minimum xs) [ none ↦ some x | some m ↦ some (if ltb m x then m else x) ]

module _ {ℓ} {A : Type ℓ} where
  -- `xs` is `x` with what stands before and after it.
  pub record Split (xs : List A) (x : A) : Type ℓ where
    pub before : List A
    pub after : List A
    pub joined : xs ≡ before ++ x ∷ after

  -- `find` gives the first element that passes, with those before it failing.
  pub record Found (p : A → Bool) (xs : List A) (x : A) : Type ℓ where
    pub split : Split xs x
    pub passes : p x ≡ true
    pub first : All (λ y. p y ≡ false) split.before

  pub find-Found : (p : A → Bool) (xs : List A) (x : A) → find p xs ≡ some x → Found p xs x
  unfolding find
  find-Found p [] x e = cc
  find-Found p (y ∷ xs) x e = elim (Bool-cases (p y)) [
    | inl hit ↦ record {
      split = record { before = []; after = xs; joined = ground arith };
      passes = ground arith;
      first = tt;
    }
    | inr miss ↦
        let f = find-Found p xs x (ground arith) in
        record {
          split = record {
            before = y ∷ f.split.before;
            after = f.split.after;
            joined = ap (◌∷◌ y) f.split.joined;
          };
          passes = f.passes;
          first = (miss, f.first);
        }
  ]

  pub find-none : (p : A → Bool) (xs : List A) → find p xs ≡ none → All (λ y. p y ≡ false) xs
  unfolding find
  find-none p [] e = tt
  find-none p (y ∷ xs) e = elim (Bool-cases (p y)) [
    | inl hit ↦ absurd (ground arith)
    | inr miss ↦ (miss, find-none p xs (ground arith))
  ]

  pub All-select : (p : A → Bool) (xs : List A) → All (λ x. p x ≡ true) (select p xs)
  unfolding select
  All-select p [] = tt
  All-select p (x ∷ xs) = elim (Bool-cases (p x)) [
    | inl hit ↦ rw hit (hit, All-select p xs)
    | inr miss ↦ rw miss (All-select p xs)
  ]

  pub All-split {κ} : (P : A → Type κ) (xs ys : List A) (x : A) → All P (xs ++ x ∷ ys) → P x
  All-split P [] ys x h = h.0
  All-split P (y ∷ xs) ys x h = All-split P xs ys x h.1

  pub All-map {κ μ} :
      {P : A → Type κ} {Q : A → Type μ} (xs : List A) → ((x : A) → P x → Q x) → All P xs → All Q xs
  All-map [] f h = tt
  All-map (x ∷ xs) f h = (f x h.0, All-map xs f h.1)

  pub get_last?-cons :
      (x : A) (xs : List A)
      → get_last? (x ∷ xs) ≡ (elim (get_last? xs) [ none ↦ some x | some y ↦ some y ])
  unfolding get_last?
  get_last?-cons x [] = refl
  get_last?-cons x (y ∷ xs) = refl

  -- The first of the elements selected that passes stands in the list, and passes both tests.
  pub find-select :
      (p q : A → Bool) (xs : List A) (x : A)
      → find q (select p xs) ≡ some x
      → Split xs x × (p x ≡ true) × (q x ≡ true)
  unfolding find select
  find-select p q [] x e = cc
  find-select p q (y ∷ xs) x e = elim (Bool-cases (p y)) [
    | inl in_range ↦ elim (Bool-cases (q y)) [
      | inl hit ↦
          (record { before = []; after = xs; joined = ground arith }, ground arith, ground arith)
      | inr miss ↦ deeper (find-select p q xs x (ground arith))
    ]
    | inr out ↦ deeper (find-select p q xs x (ground arith))
  ]
    where
      deeper :
          Split xs x × (p x ≡ true) × (q x ≡ true) → Split (y ∷ xs) x × (p x ≡ true) × (q x ≡ true)
      deeper (s, h, k) =
          (record { before = y ∷ s.before; after = s.after; joined = ap (◌∷◌ y) s.joined }, h, k)
