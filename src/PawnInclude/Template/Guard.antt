-- ===== src/PawnInclude/Template/Guard.antt =====
-- The include guard (crates/samp/src/pawn_include.rs).
use rust_samp.Base.{
  ℕ, ◌+◌, ◌≤◌, ◌≡◌, ◌↔◌, refl, inl, inr, Bool, true, [], ◌∷◌, ◌++◌, ◌||◌, map, ◌==◌, Bool-cases,
  length, arith,
}
use rust_samp.Base.Text.{Text, codes, is_ascii_alphanumeric}
use rust_samp.PawnInclude.Template.{guard_character, guard_symbol}

-- A character of a Pawn symbol.
abbrev pub is_symbol : ℕ → Bool
is_symbol c = is_ascii_alphanumeric c || c == b'_'

abbrev pub IsWord : Text → Type 0
IsWord [] = Unit
IsWord (c ∷ text) = (is_symbol c ≡ true) × IsWord text

-- The compiler takes at most 31 characters of a symbol.
abbrev pub IsSymbol : Text → Type 0
IsSymbol text = IsWord text × (length text ≤ 31)

guard_character-symbol : (c : ℕ) → is_symbol (guard_character c) ≡ true
unfolding guard_character is_ascii_alphanumeric
guard_character-symbol c = elim (Bool-cases (is_ascii_alphanumeric c)) [
  | inl p ↦ rw (guard_character, p, p) refl
  | inr p ↦ rw (guard_character, p) refl
]

guard_rest : (name : Text) → IsWord (map guard_character name ++ codes "_included")
unfolding is_ascii_alphanumeric
guard_rest [] = (refl, (refl, (refl, (refl, (refl, (refl, (refl, (refl, (refl, tt)))))))))
guard_rest (c ∷ name) = (guard_character-symbol c, guard_rest name)

guard_length :
    (name : Text) → length (map guard_character name ++ codes "_included") ≡ length name + 9
guard_length [] = omega arith
guard_length (c ∷ name) = omega (arith, guard_length name)

-- Whatever the plugin is called, its guard consists of letters, digits and underscores and starts with an underscore; and it is a symbol that the compiler takes whole, of at most 31 characters, exactly where the name has at most 21.
pub guard_symbol-IsSymbol :
    (name : Text)
    → IsWord (guard_symbol name)
      × (IsSymbol (guard_symbol name) ↔ (length name ≤ 21))
      × ((rest : Text) × (guard_symbol name ≡ b'_' ∷ rest))
unfolding guard_symbol is_ascii_alphanumeric
guard_symbol-IsSymbol name =
    let text = b'_' ∷ (map guard_character name ++ codes "_included") in
    let word : IsWord text = (refl, guard_rest name) in
    let long : length text ≡ length name + 10 = omega (arith, guard_length name) in
    (
      word,
      (λ s. omega (arith, s.1, long), λ short. (word, omega (arith, long))),
      (map guard_character name ++ codes "_included", refl),
    )
