-- ===== src/PawnInclude/Parse/Arguments.antt =====
-- An argument is read back from its text (crates/samp/src/pawn_include.rs).
use rust_samp.Base.{
  ℕ, zero, suc, ==_iff, ◌≡◌, refl, ap, ◌∙◌, Bool, true, false, none, some, [], ◌∷◌, ◌++◌,
  append_assoc, length, All, All-append, ◌==◌, if◌then◌else◌, arith,
}
use rust_samp.Base.Search.{All-map}
use rust_samp.Base.Text.{
  Text, codes, Without, is_whitespace, is_ascii_alphanumeric, split_once, split_once-append,
  split_once-none, strip_prefix, contains, find_behind,
}
use rust_samp.Base.Text.Solid.{
  IsSolid, trim_solid, is_word, IsWord, word_solid, word_other, contains-Without,
}
use rust_samp.PawnInclude.Types.{Argument, tag_text, describe}
use rust_samp.PawnInclude.Parse.{
  Unicode, before, trim_prefixes, trim_start_matches, starts_with, untyped, tag_and_rest, shape_of,
  parse_argument, is_blank,
}

-- What follows the `&` in an argument's text.
abbrev pub body : Text → Bool → Text
body tag array = tag_text tag ++ (codes "arg" ++ (if array then codes "[]" else []))

-- What is known of a character of an argument's text.
module _ (P : ℕ → Type 0) (word : (c : ℕ) → is_word c ≡ true → P c) (colon : P b':') where
  pub tag_text-All : (tag : Text) → IsWord tag → All P (tag_text tag)
  unfolding tag_text
  tag_text-All [] h = tt
  tag_text-All (c ∷ tag) h =
      (word c h.0, All-append P tag (b':' ∷ []) (All-map tag word h.1) (colon, tt))

module _ (P : ℕ → Type 0) (word : (c : ℕ) → is_word c ≡ true → P c) (colon : P b':') (bra : P b'[')
    (ket : P b']') where
  array-All : (array : Bool) → All P (codes "arg" ++ (if array then codes "[]" else []))
  unfolding is_word is_ascii_alphanumeric
  array-All true = (word b'a' refl, (word b'r' refl, (word b'g' refl, (bra, (ket, tt)))))
  array-All false = (word b'a' refl, (word b'r' refl, (word b'g' refl, tt)))

  body-All : (tag : Text) (array : Bool) → IsWord tag → All P (body tag array)
  body-All tag array h =
      All-append P (tag_text tag) (codes "arg" ++ (if array then codes "[]" else []))
        (tag_text-All P word colon tag h) (array-All array)

  described-All :
      (tag : Text) (by_reference array : Bool)
      → P b'&'
      → IsWord tag
      → All P ((if by_reference then codes "&" else []) ++ body tag array)
  described-All tag true array amp h = (amp, body-All tag array h)
  described-All tag false array amp h = body-All tag array h

  pub describe-All : (a : Argument) → P b'&' → IsWord a.tag → All P (describe a)
  unfolding describe
  describe-All a amp h = described-All a.tag a.by_reference a.array amp h

pub describe-Without :
    (c : ℕ) (a : Argument)
    → is_word c ≡ false
    → (b'&' == c) ≡ false
    → (b':' == c) ≡ false
    → (b'[' == c) ≡ false
    → (b']' == c) ≡ false
    → IsWord a.tag
    → Without c (describe a)
describe-Without c a special amp colon bra ket h =
    describe-All (λ d. (d == c) ≡ false) (λ d w. word_other c d special w) colon bra ket a amp h

pub describe-IsSolid : (a : Argument) → IsWord a.tag → IsSolid (describe a)
unfolding is_whitespace
describe-IsSolid a h =
    describe-All (λ c. is_whitespace c ≡ false) word_solid refl refl refl a refl h

trim_prefixes-none :
    (n : ℕ) (p text : Text) → strip_prefix p text ≡ none → trim_prefixes n p text ≡ text
unfolding trim_prefixes
trim_prefixes-none zero p text h = refl
trim_prefixes-none (suc n) p text h = rw (trim_prefixes, h) refl

abbrev pub described : Text → Bool → Bool → Argument
described tag by_reference array = record { tag = tag; by_reference = by_reference; array = array }

strip_first : (c : ℕ) (s : Text) → Without c s → strip_prefix (c ∷ []) s ≡ none
unfolding strip_prefix
strip_first c [] h = refl
strip_first c (d ∷ s) h = ground (arith, ==_iff c d, ==_iff d c)

body-Without :
    (c : ℕ) (tag : Text) (array : Bool)
    → is_word c ≡ false
    → (b':' == c) ≡ false
    → (b'[' == c) ≡ false
    → (b']' == c) ≡ false
    → IsWord tag
    → Without c (body tag array)
body-Without c tag array special colon bra ket h =
    body-All (λ d. (d == c) ≡ false) (λ d w. word_other c d special w) colon bra ket tag array h

starts_with-Without : (c : ℕ) (s : Text) → Without c s → starts_with c s ≡ false
unfolding starts_with
starts_with-Without c [] h = refl
starts_with-Without c (d ∷ s) h = h.0

pub word-Without : (c : ℕ) (s : Text) → is_word c ≡ false → IsWord s → Without c s
word-Without c s special h = All-map s (λ d w. word_other c d special w) h

-- The tag of an argument, and whether it is an array, are read back from what follows a `&`.
tag_and_rest-body :
    (u : Unicode) (tag : Text) (array : Bool)
    → IsWord tag
    → u.to_lowercase tag ≡ tag
    → tag_and_rest u (body tag array) ≡ (tag, codes "arg" ++ (if array then codes "[]" else []))
unfolding tag_and_rest tag_text split_once is_word is_ascii_alphanumeric
tag_and_rest-body u [] true w h = refl
tag_and_rest-body u [] false w h = refl
tag_and_rest-body u (c ∷ tag) array w h =
    let rest = codes "arg" ++ (if array then codes "[]" else []) in
    let split : split_once b':' (body (c ∷ tag) array) ≡ some (c ∷ tag, rest) =
      ap (split_once b':') (append_assoc (c ∷ tag) (b':' ∷ []) rest)
      ∙ split_once-append b':' (c ∷ tag) rest (word-Without b':' (c ∷ tag) refl w) in
    rw
      (
        tag_and_rest,
        split,
        starts_with-Without b'{' (c ∷ tag) (word-Without b'{' (c ∷ tag) refl w),
        trim_solid (c ∷ tag) (All-map (c ∷ tag) word_solid w),
        h,
      )
      refl

contains-array :
    (array : Bool)
    → contains (codes "[") (codes "arg" ++ (if array then codes "[]" else [])) ≡ array
unfolding contains find_behind strip_prefix
contains-array true = refl
contains-array false = refl

-- Behind the `&`, or where there is none.
shape_of-stripped :
    (u : Unicode) (tag text : Text) (by_reference array : Bool)
    → IsWord tag
    → u.to_lowercase tag ≡ tag
    → trim_start_matches (codes "&") text ≡ body tag array
    → starts_with b'&' text ≡ by_reference
    → shape_of u text ≡ described tag by_reference array
unfolding shape_of is_whitespace
shape_of-stripped u tag text by_reference array w h e r =
    rw
      (
        shape_of,
        e,
        trim_solid (body tag array)
            (body-All (λ c. is_whitespace c ≡ false) word_solid refl refl refl tag array w),
        tag_and_rest-body u tag array w h,
        contains-array array,
        r,
      )
      refl

shape_of-body :
    (u : Unicode) (tag : Text) (by_reference array : Bool)
    → IsWord tag
    → u.to_lowercase tag ≡ tag
    → shape_of u ((if by_reference then codes "&" else []) ++ body tag array)
      ≡ described tag by_reference array
unfolding trim_start_matches trim_prefixes strip_prefix starts_with is_word is_ascii_alphanumeric
shape_of-body u tag true array w h =
    shape_of-stripped u tag (b'&' ∷ body tag array) true array w h
      (trim_prefixes-none (length (body tag array)) (codes "&") (body tag array)
        (strip_first b'&' (body tag array) (body-Without b'&' tag array refl refl refl refl w)))
      refl
shape_of-body u tag false array w h =
    let other = body-Without b'&' tag array refl refl refl refl w in
    shape_of-stripped u tag (body tag array) false array w h
      (trim_prefixes-none (length (body tag array)) (codes "&") (body tag array)
        (strip_first b'&' (body tag array) other))
      (starts_with-Without b'&' (body tag array) other)

-- Its tag is a word that is its own lower case, and `const` does not stand at its front.
pub record IsArgument (u : Unicode) (a : Argument) : Type 0 where
  pub tag_word : IsWord a.tag
  pub lower_case : u.to_lowercase a.tag ≡ a.tag
  pub no_const : strip_prefix (codes "const") (describe a) ≡ none

untyped-describe : (u : Unicode) (a : Argument) → IsArgument u a → untyped (describe a) ≡ describe a
unfolding untyped before trim_start_matches is_word is_ascii_alphanumeric
untyped-describe u a h =
    rw
      (
        untyped,
        before,
        split_once-none b'=' (describe a)
            (describe-Without b'=' a refl refl refl refl refl h.tag_word),
        trim_solid (describe a) (describe-IsSolid a h.tag_word),
        trim_prefixes-none (length (describe a)) (codes "const") (describe a) h.no_const,
        trim_solid (describe a) (describe-IsSolid a h.tag_word),
      )
      refl

is_blank-described :
    (tag : Text) (by_reference array : Bool)
    → is_blank ((if by_reference then codes "&" else []) ++ body tag array) ≡ false
unfolding is_blank tag_text
is_blank-described tag true array = refl
is_blank-described [] false array = refl
is_blank-described (c ∷ tag) false array = refl

pub is_blank-describe : (a : Argument) → is_blank (describe a) ≡ false
unfolding describe
is_blank-describe a = is_blank-described a.tag a.by_reference a.array

-- An argument's text is read as the argument.
pub parse_argument-describe :
    (u : Unicode) (a : Argument) → IsArgument u a → parse_argument u (describe a) ≡ some a
unfolding parse_argument describe is_word is_ascii_alphanumeric
parse_argument-describe u a h =
    rw
      (
        parse_argument,
        untyped-describe u a h,
        is_blank-describe a,
        contains-Without b'.' (codes "..") (describe a)
            (describe-Without b'.' a refl refl refl refl refl h.tag_word),
      )
      (ap some (shape_of-body u a.tag a.by_reference a.array h.tag_word h.lower_case))
