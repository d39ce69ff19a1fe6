-- ===== src/PawnInclude/Parse/Lists.antt =====
-- A list of arguments is read back from its text (crates/samp/src/pawn_include.rs).
use rust_samp.Base.{
  ℕ, ◌≡◌, refl, ap, sym, ◌∙◌, Bool, true, false, Option, none, some, List, [], ◌∷◌, ◌++◌,
  append_assoc, append-nil, All, ◌==◌, if◌then◌else◌,
}
use rust_samp.Base.Text.{
  Text, codes, Without, trim, split_once, split_once-none, contains, find_behind, strip_prefix,
  is_whitespace, trim_start, is_ascii_alphanumeric,
}
use rust_samp.Base.Text.Solid.{trim_space, trim_solid, is_word, IsWord, word_other}
use rust_samp.PawnInclude.Types.{Argument, tag_text, describe}
use rust_samp.PawnInclude.Parse.{
  Unicode, before, untyped, trim_start_matches, trim_prefixes, parse_argument, parse_arguments,
  is_blank, next_depth, split_from, split_arguments,
}
use rust_samp.PawnInclude.Parse.Arguments.{
  IsArgument, describe-Without, describe-IsSolid, is_blank-describe, parse_argument-describe, body,
  tag_text-All,
}

-- An argument, or `...`.
abbrev pub Part : Type 0
Part = Option Argument

abbrev pub part_text : Part → Text
part_text none = codes "..."
part_text (some a) = describe a

abbrev pub more : List Part → Text
more [] = []
more (p ∷ ps) = b',' ∷ b' ' ∷ (part_text p ++ more ps)

abbrev pub list_text : List Part → Text
list_text [] = []
list_text (p ∷ ps) = part_text p ++ more ps

abbrev pub arguments_of : List Part → List Argument
arguments_of [] = []
arguments_of (none ∷ ps) = arguments_of ps
arguments_of (some a ∷ ps) = a ∷ arguments_of ps

abbrev pub open_ended : List Part → Bool
open_ended [] = false
open_ended (none ∷ ps) = true
open_ended (some a ∷ ps) = open_ended ps

abbrev pub IsPart : Unicode → Part → Type 0
IsPart u none = Unit
IsPart u (some a) = IsArgument u a

-- A text that the splitting loop takes in whole.
abbrev IsTaken : Text → Type 0
IsTaken s =
    (current rest : Text) → split_from 0 current (s ++ rest) ≡ split_from 0 (current ++ s) rest

passes_append : (s t : Text) → IsTaken s → IsTaken t → IsTaken (s ++ t)
passes_append s t p q current rest =
    ap (split_from 0 current) (append_assoc s t rest)
    ∙ p current (t ++ rest)
    ∙ q (current ++ s) rest
    ∙ ap (λ l. split_from 0 l rest) (append_assoc current s t)

abbrev IsEven : ℕ → Type 0
IsEven c = (next_depth c 0 ≡ 0) × ((c == b',') ≡ false)

passes_even : (s : Text) → All IsEven s → IsTaken s
unfolding split_from
passes_even [] h current rest = ap (λ l. split_from 0 l rest) (sym (append-nil current))
passes_even (c ∷ s) h current rest =
    rw (split_from, h.0.0, h.0.1)
      (passes_even s h.1 (current ++ c ∷ []) rest
        ∙ ap (λ l. split_from 0 l rest) (append_assoc current (c ∷ []) s))

word-IsEven : (c : ℕ) → is_word c ≡ true → IsEven c
unfolding next_depth is_word is_ascii_alphanumeric
word-IsEven c h =
    rw
      (
        next_depth,
        word_other b'{' c refl h,
        word_other b'(' c refl h,
        word_other b'[' c refl h,
        word_other b'}' c refl h,
        word_other b')' c refl h,
        word_other b']' c refl h,
        word_other b',' c refl h,
      )
      (refl, refl)

passes_array : (array : Bool) → IsTaken (if array then codes "[]" else [])
unfolding split_from next_depth
passes_array true current rest =
    ap (λ l. split_from 0 l rest) (append_assoc current (codes "[") (codes "]"))
passes_array false current rest = passes_even [] tt current rest

passes_reference : (by_reference : Bool) → IsTaken (if by_reference then codes "&" else [])
unfolding next_depth
passes_reference true = passes_even (codes "&") ((refl, refl), tt)
passes_reference false = passes_even [] tt

passes_arg : IsTaken (codes "arg")
unfolding next_depth
passes_arg = passes_even (codes "arg") ((refl, refl), ((refl, refl), ((refl, refl), tt)))

passes_tag : (tag : Text) → IsWord tag → IsTaken (tag_text tag)
unfolding next_depth
passes_tag tag h = passes_even (tag_text tag) (tag_text-All IsEven word-IsEven (refl, refl) tag h)

passes_describe : (a : Argument) → IsWord a.tag → IsTaken (describe a)
unfolding describe
passes_describe a h =
    let array : Text = if a.array then codes "[]" else [] in
    passes_append (if a.by_reference then codes "&" else []) (body a.tag a.array)
      (passes_reference a.by_reference)
      (passes_append (tag_text a.tag) (codes "arg" ++ array) (passes_tag a.tag h)
        (passes_append (codes "arg") array passes_arg (passes_array a.array)))

-- A part that the splitting loop takes in whole and that is not blank.
record IsRead (p : Part) : Type 0 where
  passes : IsTaken (part_text p)
  plain : is_blank (trim (part_text p)) ≡ false
  no_default : Without b'=' (part_text p)

takes_part : (u : Unicode) (p : Part) → IsPart u p → IsRead p
unfolding next_depth is_word is_ascii_alphanumeric is_blank trim trim_start is_whitespace
takes_part u none h = record {
  passes = passes_even (codes "...") ((refl, refl), ((refl, refl), ((refl, refl), tt)));
  plain = refl;
  no_default = (refl, (refl, (refl, tt)));
}
takes_part u (some a) h = record {
  passes = passes_describe a h.tag_word;
  plain =
      ap is_blank (trim_solid (describe a) (describe-IsSolid a h.tag_word)) ∙ is_blank-describe a;
  no_default = describe-Without b'=' a refl refl refl refl refl h.tag_word;
}

abbrev spaced : List Part → List Text
spaced [] = []
spaced (p ∷ ps) = (b' ' ∷ part_text p) ∷ spaced ps

split_from-more :
    (u : Unicode) (current : Text) (ps : List Part)
    → is_blank (trim current) ≡ false
    → All (IsPart u) ps
    → split_from 0 current (more ps) ≡ current ∷ spaced ps
unfolding split_from next_depth
split_from-more u current [] h parts = rw (split_from, h) refl
split_from-more u current (p ∷ ps) h parts =
    let t = takes_part u p parts.0 in
    ap (λ l. current ∷ l)
      (t.passes (codes " ") (more ps)
        ∙ split_from-more u (b' ' ∷ part_text p) ps
            (ap is_blank (trim_space (part_text p)) ∙ t.plain) parts.1)

split_arguments-list_text :
    (u : Unicode) (p : Part) (ps : List Part)
    → All (IsPart u) (p ∷ ps)
    → split_arguments (list_text (p ∷ ps)) ≡ part_text p ∷ spaced ps
unfolding split_arguments
split_arguments-list_text u p ps parts =
    let t = takes_part u p parts.0 in
    t.passes [] (more ps) ∙ split_from-more u (part_text p) ps t.plain parts.1

-- A space before a part makes no difference.
parse_argument_spaced :
    (u : Unicode) (s : Text) → Without b'=' s → parse_argument u (b' ' ∷ s) ≡ parse_argument u s
unfolding parse_argument untyped before split_once
parse_argument_spaced u s h =
    rw (parse_argument, untyped, before, split_once-none b'=' s h, trim_space s) refl

parse_argument_part : (u : Unicode) (p : Part) → IsPart u p → parse_argument u (part_text p) ≡ p
unfolding parse_argument untyped before split_once trim_start_matches trim_prefixes strip_prefix
    trim trim_start is_whitespace is_blank contains find_behind
parse_argument_part u none h = refl
parse_argument_part u (some a) h = parse_argument-describe u a h

-- What a part adds to the arguments behind it.
added :
    (u : Unicode) (text : Text) (texts : List Text) (p : Part) (ps : List Part)
    → parse_argument u text ≡ p
    → parse_arguments u texts ≡ arguments_of ps
    → parse_arguments u (text ∷ texts) ≡ arguments_of (p ∷ ps)
unfolding parse_arguments
added u text texts none ps e h = rw (parse_arguments, e) h
added u text texts (some a) ps e h = rw (parse_arguments, e) (ap (◌∷◌ a) h)

parse_arguments-spaced :
    (u : Unicode) (ps : List Part)
    → All (IsPart u) ps
    → parse_arguments u (spaced ps) ≡ arguments_of ps
unfolding parse_arguments
parse_arguments-spaced u [] h = refl
parse_arguments-spaced u (p ∷ ps) h =
    let e =
      parse_argument_spaced u (part_text p) (takes_part u p h.0).no_default
      ∙ parse_argument_part u p h.0 in
    added u (b' ' ∷ part_text p) (spaced ps) p ps e (parse_arguments-spaced u ps h.1)

-- The list's text is read as the list's arguments.
pub parse_arguments-list_text :
    (u : Unicode) (ps : List Part)
    → All (IsPart u) ps
    → parse_arguments u (split_arguments (list_text ps)) ≡ arguments_of ps
unfolding parse_arguments split_arguments split_from is_blank trim trim_start
parse_arguments-list_text u [] h = refl
parse_arguments-list_text u (p ∷ ps) h =
    ap (parse_arguments u) (split_arguments-list_text u p ps h)
    ∙ added u (part_text p) (spaced ps) p ps (parse_argument_part u p h.0)
        (parse_arguments-spaced u ps h.1)
