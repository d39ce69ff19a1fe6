-- ===== src/Logger/Format.antt =====
-- crates/samp/src/logger.rs: the templates of log lines. Templates and values are ASCII, so that a
-- byte is a character. `parse_usize` is the standard library's `str::parse::<usize>`.
pub mod Pad
pub mod Render
mod Tests
use rust_samp.Base.{
  ℕ, zero, suc, ◌+◌, ◌-◌, ◌/◌, Bool, true, false, Option, none, some, List, [], ◌∷◌, ◌++◌, length,
  ◌==◌, if◌then◌else◌,
}
use rust_samp.Base.Text.{Text, codes, eq_text, split_once}

pub data Alignment : Type 0 where
  left : Alignment
  right : Alignment
  center : Alignment

-- What a line is made of.
pub record Line : Type 0 where
  pub prefix : Option Text
  pub timestamp : Text
  pub level : Text
  pub message : Text

pub unwrap_or : Option Text → Text → Text
unwrap_or none d = d
unwrap_or (some t) d = t

pub value_of : Line → Text → Option Text
value_of l name =
    if eq_text name (codes "timestamp")
    then some l.timestamp
    else if eq_text name (codes "level")
    then some l.level
    else if eq_text name (codes "message")
    then some l.message
    else if eq_text name (codes "prefix")
    then some (unwrap_or l.prefix [])
    else none

pub spaces : ℕ → Text
spaces zero = []
spaces (suc n) = b' ' ∷ spaces n

-- `format!("{value:<width$}")` and its kin: spaces up to the width, the greater half on the right
-- where the value is centred.
pub pad : Alignment → ℕ → Text → Text
pad left width value = value ++ spaces (width - length value)
pad right width value = spaces (width - length value) ++ value
pad center width value =
    let missing = width - length value in
    spaces (missing / 2) ++ (value ++ spaces (missing - missing / 2))

pub alignment_of : ℕ → Option Alignment
alignment_of c =
    if c == b'<'
    then some left
    else if c == b'>'
    then some right
    else if c == b'^'
    then some center
    else none

pub split_spec : Text → Text × Text
split_spec spec = elim (split_once b':' spec) [
  | none ↦ (spec, [])
  | some (name, format) ↦ (name, format)
]

module _ (parse_usize : Text → Option ℕ) where
  pub apply_spec : Text → Text → Text
  apply_spec [] value = value
  apply_spec (c ∷ width_str) value = elim (alignment_of c) [
    | none ↦ value
    | some alignment ↦ elim (parse_usize width_str) [
      | none ↦ value
      | some width ↦ pad alignment width value
    ]
  ]

  pub render_placeholder : Line → Text → Option Text
  render_placeholder l spec =
      let (name, format_spec) = split_spec spec in
      elim (value_of l name) [ none ↦ none | some value ↦ some (apply_spec format_spec value) ]

  -- The characters of a group, with its braces.
  pub verbatim : Text → Text
  verbatim spec = b'{' ∷ (spec ++ b'}' ∷ [])

  -- What is written for the group `{spec}`.
  pub emit : Line → Text → Text
  emit l spec = unwrap_or (render_placeholder l spec) (verbatim spec)

  -- The loop over what is left of the template, in at most `fuel` rounds. A round takes a character
  -- at least, so as many rounds as characters are enough.
  pub format_from : ℕ → Line → Text → Text
  format_from zero l rest = []
  format_from (suc fuel) l [] = []
  format_from (suc fuel) l (c ∷ rest) =
      let plain = c ∷ format_from fuel l rest in
      elim (c == b'{') [
        | false ↦ plain
        | true ↦ elim (split_once b'}' rest) [
          | none ↦ plain
          | some (spec, after) ↦ emit l spec ++ format_from fuel l after
        ]
      ]

  pub apply_format : Line → Text → Text
  apply_format l template = format_from (length template) l template
