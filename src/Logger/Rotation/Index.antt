-- ===== src/Logger/Rotation/Index.antt =====
-- The index of the next archive is free (crates/samp/src/logger.rs).
use rust_samp.Base.{
  ℕ, ◌+◌, ◌≤◌, ◌<◌, ◌≡◌, ◌⊎◌, inl, inr, Option, none, some, List, [], ◌∷◌, ◌++◌, min, arith, leb,
  Bool-cases, All,
}
use rust_samp.Base.Text.{Text}
use rust_samp.Logger.Rotation.{u32_max, raise, index_of, greatest, find_next_archive_index}

raise-le : (o : Option ℕ) (found : ℕ) → found ≤ raise o found
unfolding raise
raise-le none found = omega arith
raise-le (some i) found = omega arith

raise-some : (o : Option ℕ) (found i : ℕ) → o ≡ some i → i ≤ raise o found
unfolding raise
raise-some o found i e = rw e (omega arith)

module _ (parse_u32 : Text → Option ℕ) (strip_gz : Text → Text) where
  -- The name is not that of an archive with the index `bound` or a greater one.
  abbrev pub Below : Text → ℕ → Text → Type 0
  Below prefix bound name = (i : ℕ) → index_of parse_u32 strip_gz prefix name ≡ some i → i < bound

  greatest-le :
      (prefix : Text) (names : List Text) (found : ℕ)
      → found ≤ greatest parse_u32 strip_gz prefix names found
  unfolding greatest
  greatest-le prefix [] found = omega arith
  greatest-le prefix (name ∷ names) found =
      let o = index_of parse_u32 strip_gz prefix name in
      omega (arith, greatest-le prefix names (raise o found), raise-le o found)

  greatest-Below :
      (prefix : Text) (names : List Text) (found bound : ℕ)
      → greatest parse_u32 strip_gz prefix names found < bound
      → All (Below prefix bound) names
  unfolding greatest
  greatest-Below prefix [] found bound h = tt
  greatest-Below prefix (name ∷ names) found bound h =
      let o = index_of parse_u32 strip_gz prefix name in
      (
        λ i e. omega (arith, greatest-le prefix names (raise o found), raise-some o found i e),
        greatest-Below prefix names (raise o found) bound h,
      )

-- The index found for the next archive is greater than that of every archive in the directory, and
-- stays below 2 ^ 32: only where the greatest index is 2 ^ 32 - 1 is it that one again.
pub find_next_archive_index-Below :
    (parse_u32 : Text → Option ℕ) (strip_gz : Text → Text) (filename : Text) (names : List Text)
    → let next = find_next_archive_index parse_u32 strip_gz filename names in
      (next ≤ u32_max)
      × (1 ≤ next)
      × ((next ≡ u32_max) ⊎ All (Below parse_u32 strip_gz (filename ++ b'.' ∷ []) next) names)
unfolding find_next_archive_index
find_next_archive_index-Below parse_u32 strip_gz filename names =
    let g = greatest parse_u32 strip_gz (filename ++ b'.' ∷ []) names 0 in
    (
      omega arith,
      omega arith,
      elim (Bool-cases (leb u32_max (g + 1))) [
        | inl top ↦ inl (ground arith)
        | inr room ↦ inr (
            greatest-Below parse_u32 strip_gz (filename ++ b'.' ∷ []) names 0 (min (g + 1) u32_max)
              (ground arith))
      ],
    )
