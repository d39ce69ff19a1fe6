-- ===== src/PawnInclude/Compare/Lists.antt =====
-- What is empty and what passes in the lists that the comparison builds.
use rust_samp.Base.{
  ◌≡◌, refl, ap, ◌∙◌, ◌↔◌, inl, inr, Bool, true, false, some, List, [], ◌∷◌, ◌++◌, map, All, arith,
  Bool-cases,
}
use rust_samp.Base.Search.{find, select, any, Found, Split}
use rust_samp.Base.Text.{Text}
use rust_samp.PawnInclude.Compare.{le_text, insert_by, sort_by}

pub append_empty {ℓ} : {A : Type ℓ} (xs ys : List A) → (xs ++ ys ≡ []) ↔ ((xs ≡ []) × (ys ≡ []))
append_empty [] ys = (λ e. (refl, e), λ e. e.1)
append_empty (x ∷ xs) ys = (λ e. cc, λ e. cc)

pub map_empty {ℓ κ} :
    {A : Type ℓ} {B : Type κ} (f : A → B) (xs : List A) → (map f xs ≡ []) ↔ (xs ≡ [])
map_empty f [] = (λ e. refl, λ e. refl)
map_empty f (x ∷ xs) = (λ e. cc, λ e. cc)

pub select_empty {ℓ} :
    {A : Type ℓ} (p : A → Bool) (xs : List A) → (select p xs ≡ []) ↔ All (λ x. p x ≡ false) xs
unfolding select
select_empty p [] = (λ e. tt, λ e. refl)
select_empty p (x ∷ xs) = elim (Bool-cases (p x)) [
  | inl hit ↦ rw (select, hit) (λ e. cc, λ h. ground (arith, h.0))
  | inr miss ↦ let l = select_empty p xs in rw (select, miss) (λ e. (refl, l.0 e), λ h. l.1 h.1)
]

module _ {A : Type 0} (key : A → Text) where
  insert_by-All :
      (P : A → Type 0) (x : A) (xs : List A) → All P (insert_by key x xs) ↔ (P x × All P xs)
  unfolding insert_by
  insert_by-All P x [] = (λ h. h, λ h. h)
  insert_by-All P x (y ∷ ys) = elim (Bool-cases (le_text (key x) (key y))) [
    | inl before ↦ rw before (λ h. h, λ h. h)
    | inr after ↦
        let l = insert_by-All P x ys in
        rw after (λ h. ((l.0 h.1).0, (h.0, (l.0 h.1).1)), λ h. (h.1.0, l.1 (h.0, h.1.1)))
  ]

  pub sort_by-All : (P : A → Type 0) (xs : List A) → All P (sort_by key xs) ↔ All P xs
  unfolding sort_by
  sort_by-All P [] = (λ h. h, λ h. h)
  sort_by-All P (x ∷ xs) =
      let l = insert_by-All P x (sort_by key xs) in
      let s = sort_by-All P xs in (λ h. ((l.0 h).0, s.0 (l.0 h).1), λ h. l.1 (h.0, s.1 h.1))

  insert_by_some : (x : A) (xs : List A) → insert_by key x xs ≡ [] → (x ∷ xs) ≡ []
  unfolding insert_by
  insert_by_some x [] e = cc
  insert_by_some x (y ∷ ys) e = elim (Bool-cases (le_text (key x) (key y))) [
    | inl before ↦ ground arith
    | inr after ↦ ground arith
  ]

  pub sort_by_empty : (xs : List A) → (sort_by key xs ≡ []) ↔ (xs ≡ [])
  unfolding sort_by
  sort_by_empty [] = (λ e. refl, λ e. refl)
  sort_by_empty (x ∷ xs) = (λ e. ground (arith, insert_by_some x (sort_by key xs) e), λ e. cc)

pub any-Split :
    {A : Type 0} (p : A → Bool) (xs : List A)
    → any p xs ≡ true
    → (x : A) × Split xs x × (p x ≡ true)
unfolding any
any-Split p [] e = cc
any-Split p (y ∷ xs) e = elim (Bool-cases (p y)) [
  | inl hit ↦ (y, record { before = []; after = xs; joined = refl }, hit)
  | inr miss ↦
      let (x, s, h) = any-Split p xs (ground arith) in
      (x, record { before = y ∷ s.before; after = s.after; joined = ap (◌∷◌ y) s.joined }, h)
]

any_joined :
    {A : Type 0} (p : A → Bool) (before after : List A) (x : A)
    → p x ≡ true
    → any p (before ++ x ∷ after) ≡ true
unfolding any
any_joined p [] after x h = rw (any, h) refl
any_joined p (y ∷ before) after x h = ground (arith, any_joined p before after x h)

pub any_of :
    {A : Type 0} (p : A → Bool) (xs : List A) (x : A) → Split xs x → p x ≡ true → any p xs ≡ true
any_of p xs x s h = ap (any p) s.joined ∙ any_joined p s.before s.after x h

find_joined :
    {A : Type 0} (p : A → Bool) (before after : List A) (x : A)
    → All (λ y. p y ≡ false) before
    → p x ≡ true
    → find p (before ++ x ∷ after) ≡ some x
unfolding find
find_joined p [] after x none_before h = rw (find, h) refl
find_joined p (y ∷ before) after x none_before h =
    rw (find, none_before.0) (find_joined p before after x none_before.1 h)

pub find_of : {A : Type 0} (p : A → Bool) (xs : List A) (x : A) → Found p xs x → find p xs ≡ some x
find_of p xs x f =
    ap (find p) f.split.joined ∙ find_joined p f.split.before f.split.after x f.first f.passes

pub any_none :
    {A : Type 0} (p : A → Bool) (xs : List A) → All (λ y. p y ≡ false) xs → any p xs ≡ false
unfolding any
any_none p [] h = refl
any_none p (y ∷ xs) h = rw (any, h.0) (any_none p xs h.1)

pub some_injective : {A : Type 0} (x y : A) → some x ≡ some y → x ≡ y
some_injective x y e = cc
