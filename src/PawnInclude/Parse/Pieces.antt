-- ===== src/PawnInclude/Parse/Pieces.antt =====
-- The parts of a declaration are read back from their texts (crates/samp/src/pawn_include.rs).
use rust_samp.Base.{
  ℕ, ◌≡◌, refl, ap, sym, ◌∙◌, true, false, not, Option, none, some, List, [], ◌∷◌, ◌++◌,
  append_assoc, All, All-append, ◌||◌, ◌==◌, arith, inl, inr, Bool-cases,
}
use rust_samp.Base.Search.{All-map, any}
use rust_samp.Base.Text.{
  Text, codes, Without, trim, split_once, split_once-append, contains, rsplit_once, is_whitespace,
  is_ascii_alphanumeric,
}
use rust_samp.Base.Text.Solid.{
  IsWord, is_word, word_solid, trim_space, trim_solid, rsplit_once-append, rsplit_once-none,
  contains-Without, contains_later, contains-middle,
}
use rust_samp.PawnInclude.Types.{tag_text, describe}
use rust_samp.PawnInclude.Parse.{Unicode, is_blank, is_name, head_of, tail_of, alias_of}
use rust_samp.PawnInclude.Parse.Arguments.{
  tag_text-All, describe-All, describe-Without, word-Without,
}
use rust_samp.PawnInclude.Parse.Lists.{Part, part_text, more, list_text, open_ended, IsPart}

-- What is known of a character of a list's text.
module _ (u : Unicode) (P : ℕ → Type 0) (word : (c : ℕ) → is_word c ≡ true → P c) (colon : P b':')
    (bra : P b'[') (ket : P b']') (amp : P b'&') (comma : P b',') (space : P b' ')
    (dot : P b'.') where
  part-All : (p : Part) → IsPart u p → All P (part_text p)
  part-All none h = (dot, (dot, (dot, tt)))
  part-All (some a) h = describe-All P word colon bra ket a amp h.tag_word

  more-All : (ps : List Part) → All (IsPart u) ps → All P (more ps)
  more-All [] h = tt
  more-All (p ∷ ps) h =
      (comma, (space, All-append P (part_text p) (more ps) (part-All p h.0) (more-All ps h.1)))

  pub list_text-All : (ps : List Part) → All (IsPart u) ps → All P (list_text ps)
  list_text-All [] h = tt
  list_text-All (p ∷ ps) h = All-append P (part_text p) (more ps) (part-All p h.0) (more-All ps h.1)

contains_dots-more :
    (u : Unicode) (s : Text) (ps : List Part)
    → Without b'.' s
    → All (IsPart u) ps
    → contains (codes "...") (s ++ more ps) ≡ open_ended ps
unfolding is_word is_ascii_alphanumeric
contains_dots-more u s [] w h =
    contains-Without b'.' (codes "..") (s ++ []) (All-append (λ c. (c == b'.') ≡ false) s [] w tt)
contains_dots-more u s (none ∷ ps) w h =
    contains_later (codes "...") s (more (none ∷ ps))
      (contains-middle (codes "...") (codes ", ") (more ps))
contains_dots-more u s (some a ∷ ps) w h =
    let t : Text = s ++ (codes ", " ++ describe a) in
    ap (contains (codes "...")) (
      ap (λ l. s ++ l) (sym (append_assoc (codes ", ") (describe a) (more ps)))
      ∙ sym (append_assoc s (codes ", " ++ describe a) (more ps)))
    ∙ contains_dots-more u t ps
        (All-append (λ c. (c == b'.') ≡ false) s (codes ", " ++ describe a) w
          (refl, (refl, describe-Without b'.' a refl refl refl refl refl h.0.tag_word)))
        h.1

-- `...` stands in the list's text where a part is `...`.
pub contains-list_text :
    (u : Unicode) (ps : List Part)
    → All (IsPart u) ps
    → contains (codes "...") (list_text ps) ≡ open_ended ps
unfolding is_word is_ascii_alphanumeric
contains-list_text u [] h = contains-Without b'.' (codes "..") [] tt
contains-list_text u (none ∷ ps) h = contains-middle (codes "...") [] (more ps)
contains-list_text u (some a ∷ ps) h =
    contains_dots-more u (describe a) ps
      (describe-Without b'.' a refl refl refl refl refl h.0.tag_word) h.1

-- ASCII letters and digits are alphanumeric.
abbrev pub IsUnicode : Unicode → Type 0
IsUnicode u = (c : ℕ) → is_ascii_alphanumeric c ≡ true → u.is_alphanumeric c ≡ true

all_named :
    (u : Unicode) (s : Text)
    → IsUnicode u
    → IsWord s
    → any (λ c. not (u.is_alphanumeric c || c == b'_')) s ≡ false
unfolding any is_word
all_named u [] k h = refl
all_named u (c ∷ s) k h = elim (Bool-cases (is_ascii_alphanumeric c)) [
  | inl letter ↦ rw (any, k c letter) (all_named u s k h.1)
  | inr other ↦ ground (arith, all_named u s k h.1)
]

-- A word that is not empty is a name.
pub is_name_word :
    (u : Unicode) (s : Text) → IsUnicode u → IsWord s → is_blank s ≡ false → is_name u s ≡ true
unfolding is_name
is_name_word u s k h some_char = rw (is_name, some_char, all_named u s k h) refl

pub head_of-head :
    (u : Unicode) (tag name : Text)
    → IsWord tag
    → u.to_lowercase tag ≡ tag
    → IsWord name
    → head_of u (trim (tag_text tag ++ name)) ≡ (tag, name)
unfolding head_of tag_text is_word is_ascii_alphanumeric is_whitespace
head_of-head u [] name t l n =
    ap (head_of u) (trim_solid name (All-map name word_solid n))
    ∙ rw (head_of, rsplit_once-none b':' name (word-Without b':' name refl n)) refl
head_of-head u (c ∷ tag) name t l n =
    let solid =
      All-append (λ d. is_whitespace d ≡ false) (tag_text (c ∷ tag)) name
        (tag_text-All (λ d. is_whitespace d ≡ false) word_solid refl (c ∷ tag) t)
        (All-map name word_solid n) in
    let split : rsplit_once b':' (tag_text (c ∷ tag) ++ name) ≡ some (c ∷ tag, name) =
      ap (rsplit_once b':') (append_assoc (c ∷ tag) (b':' ∷ []) name)
      ∙ rsplit_once-append b':' (c ∷ tag) name (word-Without b':' name refl n) in
    ap (head_of u) (trim_solid (tag_text (c ∷ tag) ++ name) solid)
    ∙ rw
        (
          head_of,
          split,
          trim_solid (c ∷ tag) (All-map (c ∷ tag) word_solid t),
          trim_solid name (All-map name word_solid n),
          l,
        )
        refl

abbrev pub alias_text : Option Text → Text
alias_text none = []
alias_text (some target) = codes " = " ++ target

abbrev pub IsAlias : Option Text → Type 0
IsAlias none = Unit
IsAlias (some target) = IsWord target × (is_blank target ≡ false)

pub alias-Without :
    (c : ℕ) (alias : Option Text)
    → is_word c ≡ false
    → (b' ' == c) ≡ false
    → (b'=' == c) ≡ false
    → IsAlias alias
    → Without c (alias_text alias)
alias-Without c none special space equals h = tt
alias-Without c (some target) special space equals h =
    (space, (equals, (space, word-Without c target special h.0)))

pub alias_of-alias_text :
    (u : Unicode) (alias : Option Text)
    → IsUnicode u
    → IsAlias alias
    → alias_of u (alias_text alias) ≡ alias
unfolding alias_of split_once
alias_of-alias_text u none k h = refl
alias_of-alias_text u (some target) k h =
    rw
      (
        alias_of,
        trim_space target,
        trim_solid target (All-map target word_solid h.0),
        is_name_word u target k h.0 h.1,
      )
      refl

pub tail_of-alias_text :
    (u : Unicode) (alias : Option Text) (rest : Text)
    → IsAlias alias
    → tail_of u (alias_text alias ++ b';' ∷ rest) ≡ alias_text alias
unfolding tail_of is_word is_ascii_alphanumeric
tail_of-alias_text u alias rest h =
    rw
      (
        tail_of,
        split_once-append b';' (alias_text alias) rest (alias-Without b';' alias refl refl refl h),
      )
      refl
