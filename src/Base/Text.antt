-- ===== src/Base/Text.antt =====
-- Texts as lists of characters, a character being its code point, and the methods of `str` that the
-- program uses on them.
pub mod Lengths
pub mod Solid
use Prim.Native.Char.{code}
use Prim.Native.String.{String}
use Prim.Native.Nat.{ℕ, ◌+◌}
use mathlib.Core.Path.{◌≡◌, refl}
use mathlib.Core.Logic.{◌↔◌}
use mathlib.Core.Bool.{Bool, true, false, ◌&&◌, ◌||◌}
use mathlib.Core.Option.{Option, none, some}
use mathlib.Core.List.{List, [], ◌∷◌, ◌++◌, reverse}
use native.Mathlib.Omega.{arith}
use rust_samp.Base.Tests.{leb, ◌==◌, if◌then◌else◌, ==_refl}
use rust_samp.Base.Lists.{All}

abbrev pub Text : Type 0
Text = List ℕ

-- The code points of a literal.
abbrev pub codes : String → Text
codes String.[] = []
codes (String.◌∷◌ c s) = code c ∷ codes s

unfoldable pub eq_text : Text → Text → Bool
eq_text [] [] = true
eq_text [] (d ∷ t) = false
eq_text (c ∷ s) [] = false
eq_text (c ∷ s) (d ∷ t) = c == d && eq_text s t

pub eq_text_iff : (s t : Text) → (eq_text s t ≡ true) ↔ (s ≡ t)
unfolding eq_text
eq_text_iff [] [] = (λ e. refl, λ e. refl)
eq_text_iff [] (d ∷ t) = (λ e. cc, λ e. cc)
eq_text_iff (c ∷ s) [] = (λ e. cc, λ e. cc)
eq_text_iff (c ∷ s) (d ∷ t) =
    (λ e. ground (arith, eq_text_iff s t), λ e. ground (arith, eq_text_iff s t))

-- `char::is_whitespace`.
unfoldable pub is_whitespace : ℕ → Bool
is_whitespace c =
    leb 9 c && leb c 13
    || c == 0x20
    || c == 0x85
    || c == 0xa0
    || c == 0x1680
    || leb 0x2000 c && leb c 0x200a
    || c == 0x2028
    || c == 0x2029
    || c == 0x202f
    || c == 0x205f
    || c == 0x3000

unfoldable pub trim_start : Text → Text
trim_start [] = []
trim_start (c ∷ s) = if is_whitespace c then trim_start s else c ∷ s

unfoldable pub trim : Text → Text
trim s = reverse (trim_start (reverse (trim_start s)))

-- `to_ascii_lowercase` and `to_ascii_uppercase` of a character.
unfoldable pub to_ascii_lower : ℕ → ℕ
to_ascii_lower c = if leb b'A' c && leb c b'Z' then c + 32 else c

unfoldable pub is_ascii_alphanumeric : ℕ → Bool
is_ascii_alphanumeric c =
    leb b'a' c && leb c b'z' || leb b'A' c && leb c b'Z' || leb b'0' c && leb c b'9'

-- The text before the first `c`, and the text behind it.
unfoldable pub split_once : ℕ → Text → Option (Text × Text)
split_once c [] = none
split_once c (d ∷ s) =
    if d == c
    then some ([], s)
    else (elim (split_once c s) [ none ↦ none | some (before, after) ↦ some (d ∷ before, after) ])

unfoldable pub strip_prefix : Text → Text → Option Text
strip_prefix [] s = some s
strip_prefix (c ∷ p) [] = none
strip_prefix (c ∷ p) (d ∷ s) = if c == d then strip_prefix p s else none

-- The text before the last `c`, and the text behind it.
unfoldable pub rsplit_once : ℕ → Text → Option (Text × Text)
rsplit_once c s = elim (split_once c (reverse s)) [
  | none ↦ none
  | some (after, before) ↦ some (reverse before, reverse after)
]

-- The text behind the first `p`.
unfoldable pub find_behind : Text → Text → Option Text
find_behind p [] = strip_prefix p []
find_behind p (c ∷ s) = elim (strip_prefix p (c ∷ s)) [
  | none ↦ find_behind p s
  | some after ↦ some after
]

unfoldable pub contains : Text → Text → Bool
contains p s = elim (find_behind p s) [ none ↦ false | some after ↦ true ]

-- No character of the text is `c`.
abbrev pub Without : ℕ → Text → Type 0
Without c s = All (λ d. (d == c) ≡ false) s

pub split_once-append : (c : ℕ) (s t : Text) → Without c s → split_once c (s ++ c ∷ t) ≡ some (s, t)
unfolding split_once
split_once-append c [] t h = rw (==_refl c) refl
split_once-append c (d ∷ s) t h = rw (h.0, split_once-append c s t h.1) refl

pub split_once-none : (c : ℕ) (s : Text) → Without c s → split_once c s ≡ none
unfolding split_once
split_once-none c [] h = refl
split_once-none c (d ∷ s) h = rw (h.0, split_once-none c s h.1) refl

pub strip_prefix-append : (p s : Text) → strip_prefix p (p ++ s) ≡ some s
unfolding strip_prefix
strip_prefix-append [] s = refl
strip_prefix-append (c ∷ p) s = rw (==_refl c) (strip_prefix-append p s)
