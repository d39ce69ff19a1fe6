-- ===== src/PawnInclude/Parse/Tests.antt =====
-- Runs of the parser (crates/samp/src/pawn_include.rs), on ASCII letters and digits.
use rust_samp.Base.{◌<◌, ◌≡◌, refl, true, false, none, some, List, [], ◌∷◌, map, length, All, arith}
use rust_samp.Base.Text.{Text, codes, to_ascii_lower, is_ascii_alphanumeric, strip_prefix}
use rust_samp.Base.Text.Solid.{is_word}
use rust_samp.PawnInclude.Types.{Declaration, tag_text, describe}
use rust_samp.PawnInclude.Parse.{Unicode, parse, parse_forwards, round, rounds, is_blank}
use rust_samp.PawnInclude.Parse.Enough.{loop, rounds-round}
use rust_samp.PawnInclude.Parse.RoundTrip.{
  Prototype, IsPrototype, declared, prototypes_text, parse-prototypes_text,
}

abbrev ascii : Unicode
ascii = record { to_lowercase = λ s. map to_ascii_lower s; is_alphanumeric = is_ascii_alphanumeric }

-- `x:f(&y:arg, ...) = g;` and `h(arg[]);`.
abbrev prototypes : List Prototype
prototypes =
    record {
      tag = codes "x";
      name = codes "f";
      parts = some (record { tag = codes "y"; by_reference = true; array = false }) ∷ none ∷ [];
      alias = some (codes "g");
    }
    ∷ record {
      tag = [];
      name = codes "h";
      parts = some (record { tag = []; by_reference = false; array = true }) ∷ [];
      alias = none;
    }
    ∷ []

prototypes-IsPrototype : All (IsPrototype ascii) prototypes
unfolding to_ascii_lower is_ascii_alphanumeric strip_prefix is_blank is_word describe tag_text
prototypes-IsPrototype = (
  record {
    tag_word = (refl, tt);
    lower_case = refl;
    name_word = (refl, tt);
    named = refl;
    parts_read = (record { tag_word = (refl, tt); lower_case = refl; no_const = refl }, (tt, tt));
    alias_word = ((refl, tt), refl);
  },
  (
    record {
      tag_word = tt;
      lower_case = refl;
      name_word = (refl, tt);
      named = refl;
      parts_read = (record { tag_word = tt; lower_case = refl; no_const = refl }, tt);
      alias_word = tt;
    },
    tt,
  ),
)

parse-prototypes_text_example :
    (parse ascii (prototypes_text (codes "native ") prototypes) ≡ map declared prototypes)
    × (parse_forwards ascii (prototypes_text (codes "forward ") prototypes)
        ≡ map declared prototypes)
parse-prototypes_text_example =
    parse-prototypes_text ascii (λ c h. h) prototypes prototypes-IsPrototype

rounds-round_example :
    (rounds ascii 20 (codes "native ") (codes "native f(x);")
      ≡ loop ascii (codes "native ") (round ascii (codes "native ") (codes "native f(x);")))
    × ((ds : List Declaration) (next : Text)
        → round ascii (codes "native ") (codes "native f(x);") ≡ some (ds, next)
        → length next < 12)
rounds-round_example =
    rounds-round ascii (codes "native ") (codes "native f(x);") 20 (omega arith) (omega arith)
