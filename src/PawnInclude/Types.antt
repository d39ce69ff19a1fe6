-- ===== src/PawnInclude/Types.antt =====
-- crates/samp/src/pawn_include.rs: declarations and divergences.
use rust_samp.Base.{ℕ, Bool, Option, List, [], ◌∷◌, ◌++◌, if◌then◌else◌}
use rust_samp.Base.Text.{Text, codes}

pub record Argument : Type 0 where
  pub tag : Text
  pub by_reference : Bool
  pub array : Bool

pub record Declaration : Type 0 where
  pub name : Text
  pub tag : Text
  pub arguments : List Argument
  pub variadic : Bool
  pub implemented_by : Option Text
  pub shape_known : Bool

pub data Divergence : Type 0 where
  missing_from_include : Text → Divergence
  not_registered : Text → Divergence
  -- The native, and the include's and the plugin's number of arguments.
  arity : Text → ℕ → ℕ → Divergence
  return_tag : Text → Text → Text → Divergence
  callback_not_forwarded : Text → Divergence
  template : Text → Divergence
  -- The native, the position, and the include's and the plugin's argument.
  argument_shape : Text → ℕ → Argument → Argument → Divergence

unfoldable pub tag_text : Text → Text
tag_text [] = []
tag_text (c ∷ tag) = (c ∷ tag) ++ b':' ∷ []

-- The text that stands for an argument in a finding.
unfoldable pub describe : Argument → Text
unfolding tag_text
describe a =
    (if a.by_reference then codes "&" else [])
    ++ (tag_text a.tag ++ (codes "arg" ++ (if a.array then codes "[]" else [])))
