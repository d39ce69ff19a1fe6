-- ===== src/Base/Text/Solid.antt =====
-- Texts without whitespace, and words of ASCII letters, digits and `_`.
use Prim.Native.Nat.{ℕ, ◌≤◌}
use mathlib.Core.Path.{◌≡◌, refl, sym, subst, ◌∙◌, ap}
use mathlib.Core.Logic.{inl, inr}
use mathlib.Core.Bool.{Bool, true, false, ◌||◌}
use mathlib.Core.Option.{none, some}
use mathlib.Core.List.{
  List, [], ◌∷◌, ◌++◌, reverse, reverse-cons, reverse-append, reverse-reverse, append_assoc,
}
use native.Mathlib.Omega.{arith}
use rust_samp.Base.Tests.{◌==◌, ==_iff, Option-cases}
use rust_samp.Base.Lists.{All, All-append}
use rust_samp.Base.Text.{
  Text, Without, is_whitespace, trim_start, trim, split_once-append, split_once-none, rsplit_once,
  is_ascii_alphanumeric, find_behind, contains, strip_prefix, strip_prefix-append,
}

pub All-reverse {ℓ κ} : {A : Type ℓ} (P : A → Type κ) (xs : List A) → All P xs → All P (reverse xs)
All-reverse P [] h = tt
All-reverse P (x ∷ xs) h =
    subst (All P) (sym (reverse-cons x xs))
      (All-append P (reverse xs) (x ∷ []) (All-reverse P xs h.1) (h.0, tt))

abbrev pub IsSolid : Text → Type 0
IsSolid s = All (λ c. is_whitespace c ≡ false) s

trim_start_solid : (s : Text) → IsSolid s → trim_start s ≡ s
unfolding trim_start
trim_start_solid [] h = refl
trim_start_solid (c ∷ s) h = rw h.0 refl

pub trim_solid : (s : Text) → IsSolid s → trim s ≡ s
unfolding trim
trim_solid s h = rw (trim_start_solid s h) (
    ap reverse (trim_start_solid (reverse s) (All-reverse (λ c. is_whitespace c ≡ false) s h))
    ∙ reverse-reverse s)

-- A space before a text is trimmed.
pub trim_space : (s : Text) → trim (b' ' ∷ s) ≡ trim s
unfolding trim trim_start is_whitespace
trim_space s = refl

pub rsplit_once-append :
    (c : ℕ) (s t : Text) → Without c t → rsplit_once c (s ++ c ∷ t) ≡ some (s, t)
unfolding rsplit_once
rsplit_once-append c s t h =
    let turned : reverse (s ++ c ∷ t) ≡ reverse t ++ c ∷ reverse s =
      reverse-append s (c ∷ t)
      ∙ ap (λ l. l ++ reverse s) (reverse-cons c t)
      ∙ append_assoc (reverse t) (c ∷ []) (reverse s) in
    rw
      (
        rsplit_once,
        turned,
        split_once-append c (reverse t) (reverse s) (All-reverse (λ d. (d == c) ≡ false) t h),
        reverse-reverse s,
        reverse-reverse t,
      )
      refl

pub rsplit_once-none : (c : ℕ) (s : Text) → Without c s → rsplit_once c s ≡ none
unfolding rsplit_once
rsplit_once-none c s h =
    rw (rsplit_once, split_once-none c (reverse s) (All-reverse (λ d. (d == c) ≡ false) s h)) refl

unfoldable pub is_word : ℕ → Bool
is_word c = is_ascii_alphanumeric c || c == b'_'

abbrev pub IsWord : Text → Type 0
IsWord s = All (λ c. is_word c ≡ true) s

word_range : (c : ℕ) → is_word c ≡ true → (48 ≤ c) × (c ≤ 122)
unfolding is_word is_ascii_alphanumeric
word_range c h = ground arith

pub word_solid : (c : ℕ) → is_word c ≡ true → is_whitespace c ≡ false
unfolding is_whitespace
word_solid c h = let r = word_range c h in ground arith

pub word_other : (d c : ℕ) → is_word d ≡ false → is_word c ≡ true → (c == d) ≡ false
word_other d c special h = ground (arith, ==_iff c d)

find_behind-Without : (c : ℕ) (p s : Text) → Without c s → find_behind (c ∷ p) s ≡ none
unfolding find_behind strip_prefix
find_behind-Without c p [] h = refl
find_behind-Without c p (d ∷ s) h =
    ground (arith, ==_iff c d, ==_iff d c, find_behind-Without c p s h.1)

pub contains-Without : (c : ℕ) (p s : Text) → Without c s → contains (c ∷ p) s ≡ false
unfolding contains
contains-Without c p s h = rw (contains, find_behind-Without c p s h) refl

contains-front : (p s : Text) → contains p (p ++ s) ≡ true
unfolding contains find_behind strip_prefix
contains-front [] [] = refl
contains-front [] (d ∷ s) = refl
contains-front (c ∷ p) s = rw (contains, find_behind, strip_prefix-append (c ∷ p) s) refl

pub contains_later : (p s t : Text) → contains p t ≡ true → contains p (s ++ t) ≡ true
unfolding contains find_behind
contains_later p [] t h = h
contains_later p (c ∷ s) t h = elim (Option-cases (strip_prefix p (c ∷ (s ++ t)))) [
  | inl missing ↦ rw (contains, find_behind, missing) (contains_later p s t h)
  | inr (after, found) ↦ rw (contains, find_behind, found) refl
]

pub contains-middle : (p s t : Text) → contains p (s ++ (p ++ t)) ≡ true
contains-middle p s t = contains_later p s (p ++ t) (contains-front p t)
