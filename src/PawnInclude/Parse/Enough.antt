-- ===== src/PawnInclude/Parse/Enough.antt =====
-- The parser's loop ends by itself (crates/samp/src/pawn_include.rs).
use rust_samp.Base.{
  ℕ, zero, suc, ◌≤◌, ◌<◌, ◌≡◌, refl, ap, ◌∙◌, inl, inr, Option, none, some, List, [], ◌++◌, length,
  length-drop, ltb, Bool-cases, Option-cases, arith,
}
use rust_samp.Base.Text.{Text, trim, split_once, find_behind}
use rust_samp.Base.Text.Lengths.{length-split_once, length-find_behind}
use rust_samp.PawnInclude.Types.{Declaration}
use rust_samp.PawnInclude.Parse.{Unicode, declared_at, head_of, is_name, tail_of, round, rounds}

module _ (u : Unicode) where
  declared_at_bound :
      (rest next : Text) (ds : List Declaration)
      → declared_at u rest ≡ some (ds, next)
      → length next ≤ length rest
  unfolding declared_at
  declared_at_bound rest next ds e = elim (Option-cases (split_once b'(' rest)) [
    | inl missing ↦ ground arith
    | inr ((head, opened), at_open) ↦ elim (Option-cases (split_once b')' rest)) [
      | inl missing ↦ ground arith
      | inr ((closed, behind), at_close) ↦
          let l = length-split_once b')' rest closed behind at_close in
          elim (Bool-cases (ltb (length closed) (length head))) [
            | inl early ↦ ground arith
            | inr late ↦ elim (Bool-cases (is_name u (head_of u (trim head)).1)) [
              | inl named ↦ ground (arith, length-drop (length (tail_of u behind)) behind)
              | inr unnamed ↦ ground arith
            ]
          ]
    ]
  ]

  round_bound :
      (keyword rest next : Text) (ds : List Declaration)
      → 1 ≤ length keyword
      → round u keyword rest ≡ some (ds, next)
      → length next < length rest
  unfolding round
  round_bound keyword rest next ds h e = elim (Option-cases (find_behind keyword rest)) [
    | inl missing ↦ ground arith
    | inr (found, at) ↦
        let l = length-find_behind keyword rest found at in
        omega (arith, declared_at_bound found next ds (ground arith))
  ]

  rounds_settled :
      (keyword rest : Text) (m n : ℕ)
      → 1 ≤ length keyword
      → length rest ≤ m
      → length rest ≤ n
      → rounds u m keyword rest ≡ rounds u n keyword rest
  unfolding rounds
  rounds_settled keyword rest zero zero h a b = refl
  rounds_settled keyword rest zero (suc n) h a b = elim (Option-cases (round u keyword rest)) [
    | inl ends ↦ rw (rounds, ends) refl
    | inr ((ds, next), goes) ↦ ground (arith, round_bound keyword rest next ds h goes)
  ]
  rounds_settled keyword rest (suc m) zero h a b = elim (Option-cases (round u keyword rest)) [
    | inl ends ↦ rw (rounds, ends) refl
    | inr ((ds, next), goes) ↦ ground (arith, round_bound keyword rest next ds h goes)
  ]
  rounds_settled keyword rest (suc m) (suc n) h a b = elim (Option-cases (round u keyword rest)) [
    | inl ends ↦ rw (rounds, ends) refl
    | inr ((ds, next), goes) ↦
        let shorter = round_bound keyword rest next ds h goes in
        rw (rounds, goes)
          (ap (λ l. ds ++ l) (rounds_settled keyword next m n h (omega arith) (omega arith)))
  ]

  -- What the loop does from some text, without a bound on its rounds.
  abbrev pub loop : Text → Option (List Declaration × Text) → List Declaration
  loop keyword none = []
  loop keyword (some (declared, next)) = declared ++ rounds u (length next) keyword next

  -- The parser's loop ends on every text: with as many rounds as the text has characters, or more, a
  -- round's declarations are followed by those of what it leaves, which is shorter, and the loop stops
  -- only where a round finds no keyword or no bracket.
  pub rounds-round :
      (keyword rest : Text) (fuel : ℕ)
      → 1 ≤ length keyword
      → length rest ≤ fuel
      → (rounds u fuel keyword rest ≡ loop keyword (round u keyword rest))
        × ((ds : List Declaration) (next : Text)
            → round u keyword rest ≡ some (ds, next)
            → length next < length rest)
  unfolding rounds
  rounds-round keyword rest fuel h enough = (
    rounds_settled keyword rest fuel (suc (length rest)) h enough (omega arith)
        ∙ elim (Option-cases (round u keyword rest)) [
          | inl ends ↦ rw (rounds, ends) refl
          | inr ((ds, next), goes) ↦
              let shorter = round_bound keyword rest next ds h goes in
              rw (rounds, goes)
                (ap (λ l. ds ++ l)
                  (rounds_settled keyword next (length rest) (length next) h (omega arith)
                    (omega arith)))
        ],
    λ ds next e. round_bound keyword rest next ds h e,
  )
