-- ===== src/Base/Text/Lengths.antt =====
-- How long the parts are that the searches in Base/Text give.
use Prim.Native.Nat.{ℕ, suc, ◌+◌, ◌≤◌}
use mathlib.Core.Path.{◌≡◌}
use mathlib.Core.Logic.{inl, inr}
use mathlib.Core.Option.{some}
use mathlib.Core.List.{[], ◌∷◌}
use native.Mathlib.Omega.{arith}
use rust_samp.Base.Tests.{◌==◌, Bool-cases, Option-cases}
use rust_samp.Base.Lists.{length}
use rust_samp.Base.Text.{Text, strip_prefix, split_once, find_behind}

pub length-strip_prefix :
    (p s after : Text) → strip_prefix p s ≡ some after → length s ≡ length p + length after
unfolding strip_prefix
length-strip_prefix [] s after e = ground arith
length-strip_prefix (c ∷ p) [] after e = cc
length-strip_prefix (c ∷ p) (d ∷ s) after e = elim (Bool-cases (c == d)) [
  | inl same ↦ omega (arith, length-strip_prefix p s after (ground arith))
  | inr other ↦ ground arith
]

pub length-split_once :
    (c : ℕ) (s first rest : Text)
    → split_once c s ≡ some (first, rest)
    → length s ≡ suc (length first + length rest)
unfolding split_once
length-split_once c [] first rest e = cc
length-split_once c (d ∷ s) first rest e = elim (Bool-cases (d == c)) [
  | inl same ↦ ground arith
  | inr other ↦ elim (Option-cases (split_once c s)) [
    | inl missing ↦ ground arith
    | inr ((before, after), found) ↦ ground (arith, length-split_once c s before after found)
  ]
]

pub length-find_behind :
    (p s after : Text) → find_behind p s ≡ some after → length p + length after ≤ length s
unfolding find_behind
length-find_behind p [] after e = omega (arith, length-strip_prefix p [] after e)
length-find_behind p (d ∷ s) after e = elim (Option-cases (strip_prefix p (d ∷ s))) [
  | inl missing ↦ omega (arith, length-find_behind p s after (ground arith))
  | inr (rest, found) ↦ ground (arith, length-strip_prefix p (d ∷ s) rest found)
]
