-- ===== src/PawnInclude/Compare/Tests.antt =====
-- Runs of the comparison (crates/samp/src/pawn_include.rs).
use rust_samp.Base.{◌≡◌, ◌↔◌, refl, true, false, none, some, List, [], ◌∷◌, map, All}
use rust_samp.Base.Text.{codes, to_ascii_lower, is_ascii_alphanumeric, strip_prefix, eq_text}
use rust_samp.Base.Text.Solid.{is_word}
use rust_samp.PawnInclude.Types.{Declaration, describe, tag_text}
use rust_samp.PawnInclude.Parse.{Unicode, is_blank}
use rust_samp.PawnInclude.Parse.RoundTrip.{Prototype, IsPrototype, declared, prototypes_text}
use rust_samp.PawnInclude.Compare.{compare_declarations, compare_rendered}
use rust_samp.PawnInclude.Compare.Agree.{Agree, compare_declarations-Agree}
use rust_samp.PawnInclude.Compare.Rendered.{
  Distinct, eq_text-false, texts, compare_rendered-prototypes_text,
}

abbrev declaration_f : Declaration
declaration_f = record {
  name = codes "f";
  tag = [];
  arguments = [];
  variadic = false;
  implemented_by = none;
  shape_known = true;
}

abbrev declaration_g : Declaration
declaration_g = record declaration_f { name = codes "g" }

compare_declarations-Agree_example :
    (compare_declarations (declaration_f ∷ declaration_g ∷ []) (declaration_g ∷ declaration_f ∷ [])
      ≡ [])
    ↔ Agree (declaration_f ∷ declaration_g ∷ []) (declaration_g ∷ declaration_f ∷ [])
compare_declarations-Agree_example =
    compare_declarations-Agree (declaration_f ∷ declaration_g ∷ [])
      (declaration_g ∷ declaration_f ∷ [])

abbrev ascii : Unicode
ascii = record { to_lowercase = λ s. map to_ascii_lower s; is_alphanumeric = is_ascii_alphanumeric }

-- `x:f(&arg)` and `h()`.
abbrev natives : List Prototype
natives =
    record {
      tag = codes "x";
      name = codes "f";
      parts = some (record { tag = []; by_reference = true; array = false }) ∷ [];
      alias = none;
    }
    ∷ record { tag = []; name = codes "h"; parts = []; alias = none }
    ∷ []

natives-IsPrototype : All (IsPrototype ascii) natives
unfolding to_ascii_lower is_ascii_alphanumeric strip_prefix is_blank is_word describe tag_text
natives-IsPrototype = (
  record {
    tag_word = (refl, tt);
    lower_case = refl;
    name_word = (refl, tt);
    named = refl;
    parts_read = (record { tag_word = tt; lower_case = refl; no_const = refl }, tt);
    alias_word = tt;
  },
  (
    record {
      tag_word = tt;
      lower_case = refl;
      name_word = (refl, tt);
      named = refl;
      parts_read = tt;
      alias_word = tt;
    },
    tt,
  ),
)

natives-Distinct : Distinct (map declared natives)
unfolding eq_text
natives-Distinct = ((eq_text-false (codes "f") (codes "h") refl, tt), (tt, tt))

compare_rendered-prototypes_text_example :
    compare_rendered ascii (prototypes_text (codes "native ") natives) (texts natives) [] ≡ []
compare_rendered-prototypes_text_example =
    compare_rendered-prototypes_text ascii (λ c h. h) natives natives-IsPrototype natives-Distinct
      (refl, (refl, tt))
