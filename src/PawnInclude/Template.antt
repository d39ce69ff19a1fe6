-- ===== src/PawnInclude/Template.antt =====
-- crates/samp/src/pawn_include.rs: the templates of a Pawn include, and plugin.rs: the include that is
-- made without one. What the runtime stored is the argument `Stored`, none before there is a runtime.
pub mod Rendered
pub mod Unique
pub mod Guard
mod Tests
use mathlib.Core.List.{reverse}
use rust_samp.Base.{
  ℕ, zero, suc, ◌+◌, Bool, true, false, not, Option, none, some, List, [], ◌∷◌, ◌++◌, ◌&&◌, map,
  length, get_elem?, leb, ◌==◌, if◌then◌else◌,
}
use rust_samp.Base.Search.{find, position, any}
use rust_samp.Base.Text.{
  Text, codes, eq_text, trim, trim_start, strip_prefix, rsplit_once, is_ascii_alphanumeric,
}
use rust_samp.PawnInclude.Types.{Declaration}
use rust_samp.PawnInclude.Parse.{Unicode, parse, trim_start_matches}
use rust_samp.PawnInclude.Document.{pawndoc, is_empty}

pub record Stored : Type 0 where
  pub plugin_name : Text
  pub plugin_version : Text
  pub native_docs : List Text
  pub callback_decls : List Text

pub record Template : Type 0 where
  pub source : Text
  pub callbacks : List Text
  pub docs : List Text
  pub with_docs : Bool
  -- Each declaration with the native's name.
  pub natives : List (Text × Text)
  pub vars : List (Text × Text)
  pub plugin_name : Text

pub data TemplateError : Type 0 where
  unknown_placeholder : Text → TemplateError
  unknown_native : Text → TemplateError
  native_not_placed : Text → TemplateError
  unclosed_placeholder : ℕ → TemplateError
  placed_twice : Text → TemplateError

pub data Expanded : Type 0 where
  expanded : Text → Expanded
  refused : TemplateError → Expanded

-- The text before the first `p`, and the text behind it.
unfoldable pub split_at : Text → Text → Option (Text × Text)
split_at p [] = elim (strip_prefix p []) [ none ↦ none | some after ↦ some ([], after) ]
split_at p (c ∷ text) =
    let later = split_at p text in
    elim (strip_prefix p (c ∷ text)) [
      | some after ↦ some ([], after)
      | none ↦ elim later [ none ↦ none | some (before, after) ↦ some (c ∷ before, after) ]
    ]

-- The bytes of a text in UTF-8.
pub byte_length : Text → ℕ
byte_length [] = 0
byte_length (c ∷ text) =
    (if leb 0x1_0000 c then 4 else if leb 0x800 c then 3 else if leb 0x80 c then 2 else 1)
    + byte_length text

pub join : Text → List Text → Text
join separator [] = []
join separator (text ∷ []) = text
join separator (text ∷ next ∷ rest) = text ++ (separator ++ join separator (next ∷ rest))

pub guard_character : ℕ → ℕ
guard_character c = if is_ascii_alphanumeric c then c else b'_'

pub guard_symbol : Text → Text
guard_symbol plugin_name = b'_' ∷ (map guard_character plugin_name ++ codes "_included")

pub alias_line : Text → Text → Text → Text
alias_line decl native alias =
    let renamed : Text = elim (split_at native decl) [
      | none ↦ decl
      | some (before, after) ↦ before ++ (alias ++ after)
    ] in
    elim (rsplit_once b';' renamed) [
      | none ↦ renamed
      | some (before, after) ↦ before ++ (codes " = " ++ (native ++ codes ";"))
    ]

pub doc_at : List Text → ℕ → Text
doc_at docs i = elim (get_elem? docs i) [ none ↦ [] | some doc ↦ doc ]

pub contains_index : ℕ → List ℕ → Bool
contains_index i placed = any (λ j. j == i) placed

pub place : ℕ → List ℕ → List ℕ
place i placed = if contains_index i placed then placed else placed ++ i ∷ []

-- `declaration`, of a declaration with its name and its index.
pub declare : Template → ℕ → Text × Text → Option Text → Text
declare t i (decl, native) alias =
    let line : Text = elim alias [ none ↦ decl | some alias ↦ alias_line decl native alias ] in
    let doc = pawndoc (doc_at t.docs i) in
    if not t.with_docs then line else if is_empty doc then line else doc ++ (codes "\n" ++ line)

-- The loop for `{{NATIVES}}`, from an index on.
pub collect : Template → ℕ → List (Text × Text) → List ℕ → List Text × List ℕ
collect t i [] placed = ([], placed)
collect t i (native ∷ natives) placed =
    let (lines, after) = collect t (suc i) natives (place i placed) in
    if contains_index i placed then (lines, after) else (declare t i native none ∷ lines, after)

pub placed_natives : Template → List ℕ → Expanded × List ℕ
placed_natives t placed =
    let (lines, after) = collect t 0 t.natives placed in
    (expanded (join (if t.with_docs then codes "\n\n" else codes "\n") lines), after)

pub index_of : Template → Text → Option ℕ
index_of t native = position (λ (p : Text × Text). eq_text p.1 native) t.natives

-- `{{NATIVE:spec}}`.
pub place_native : Template → Text → List ℕ → Expanded × List ℕ
place_native t spec placed =
    let (native, alias) : Text × Option Text = elim (split_at (codes " as ") spec) [
      | none ↦ (trim spec, none)
      | some (native, alias) ↦ (trim native, some (trim alias))
    ] in
    elim (index_of t native) [
      | none ↦ (refused (unknown_native native), placed)
      | some i ↦ elim (get_elem? t.natives i) [
        | none ↦ (refused (unknown_native native), placed)
        | some declared ↦ (expanded (declare t i declared alias), place i placed)
      ]
    ]

-- `{{DOC:native}}`.
pub document : Template → Text → Expanded
document t native = elim (index_of t native) [
  | none ↦ refused (unknown_native native)
  | some i ↦ expanded (pawndoc (doc_at t.docs i))
]

trim_semicolons : Text → Text
trim_semicolons text = reverse (trim_start_matches (codes ";") (reverse text))

pub forwards : List Text → Text
unfolding trim_semicolons
forwards callbacks =
    join (codes "\n")
      (map (λ c. codes "forward " ++ (trim_semicolons (trim c) ++ codes ";")) callbacks)

pub name_of : Option Stored → Template → Text
name_of stored t =
    if is_empty t.plugin_name
    then (elim stored [ none ↦ codes "plugin" | some rt ↦ rt.plugin_name ])
    else t.plugin_name

-- The last value of a variable.
pub value_of : Template → Text → Option Text
value_of t name = elim (find (λ (p : Text × Text). eq_text p.0 name) (reverse t.vars)) [
  | none ↦ none
  | some (key, value) ↦ some value
]

pub variable : Template → Text → Expanded
variable t name = elim (value_of t name) [
  | none ↦ refused (unknown_placeholder name)
  | some value ↦ expanded value
]

-- `{{VERSION}}` is the crate's where the caller gave none.
pub version : Option Stored → Template → Expanded
version stored t =
    if any (λ (p : Text × Text). eq_text p.0 (codes "VERSION")) t.vars
    then variable t (codes "VERSION")
    else elim stored [ none ↦ variable t (codes "VERSION") | some rt ↦ expanded rt.plugin_version ]

-- The placeholders that place nothing.
pub expand_plain : Option Stored → Template → Text → Expanded
expand_plain stored t name =
    if eq_text name (codes "CALLBACKS")
    then expanded (forwards t.callbacks)
    else if eq_text name (codes "PLUGIN")
    then expanded (name_of stored t)
    else if eq_text name (codes "VERSION")
    then version stored t
    else if eq_text name (codes "GUARD")
    then expanded (guard_symbol (name_of stored t))
    else variable t name

pub expand : Option Stored → Template → Text → List ℕ → Expanded × List ℕ
expand stored t name placed =
    if eq_text name (codes "NATIVES")
    then placed_natives t placed
    else elim (strip_prefix (codes "NATIVE:") name) [
      | some spec ↦ place_native t spec placed
      | none ↦ elim (strip_prefix (codes "DOC:") name) [
        | some native ↦ (document t (trim native), placed)
        | none ↦ (expand_plain stored t name, placed)
      ]
    ]

-- What `render` keeps in its loop.
pub record Rendering : Type 0 where
  pub out : Text
  pub errors : List TemplateError
  pub placed : List ℕ
  pub emitted : List Text

pub data Result : Type 0 where
  ok : Text → Result
  err : List TemplateError → Result

module _ (u : Unicode) where
  pub native_name : Text → Text
  native_name decl =
      elim (parse u (trim_start (trim_start_matches (codes "//") (trim_start decl)))) [
        | [] ↦ []
        | d ∷ ds ↦ d.name
      ]

  pub new : Option Stored → Text → List Text → Template
  new stored source decls = record {
    source = source;
    callbacks = elim stored [ none ↦ [] | some rt ↦ rt.callback_decls ];
    docs = elim stored [ none ↦ [] | some rt ↦ rt.native_docs ];
    with_docs = false;
    natives = map (λ decl. (decl, native_name decl)) decls;
    vars = [];
    plugin_name = [];
  }

  -- The loop over the declarations of an expansion.
  pub emit : List Declaration → Rendering → Rendering
  emit [] r = r
  emit (d ∷ ds) r = emit ds (
      if any (eq_text d.name) r.emitted
      then record r { errors = r.errors ++ placed_twice d.name ∷ [] }
      else record r { emitted = r.emitted ++ d.name ∷ [] })

  -- What an expansion does.
  pub take_in : Expanded → List ℕ → Rendering → Rendering
  take_in (refused e) placed r = record r { errors = r.errors ++ e ∷ []; placed = placed }
  take_in (expanded text) placed r =
      let checked = emit (parse u text) r in
      record checked { out = checked.out ++ text; placed = placed }

  module _ (stored : Option Stored) (t : Template) where
    pub fill : Text → Rendering → Rendering
    fill name r = let (result, placed) = expand stored t name r.placed in take_in result placed r

    -- The loop, with the number of bytes before `rest`. A round takes more than a character, so as many
    -- rounds as characters are enough.
    pub render_from : ℕ → ℕ → Text → Rendering → Rendering × Text
    render_from zero consumed rest r = (r, rest)
    render_from (suc fuel) consumed rest r = elim (split_at (codes "{{") rest) [
      | none ↦ (r, rest)
      | some (before, after) ↦
          let shown = record r { out = r.out ++ before } in
          elim (split_at (codes "}}") after) [
            | none ↦ (
              record shown {
                errors = shown.errors ++ unclosed_placeholder (consumed + byte_length before) ∷ [];
              },
              rest,
            )
            | some (name, next) ↦
                render_from fuel (consumed + (byte_length before + (2 + (byte_length name + 2))))
                  next (fill (trim name) shown)
          ]
    ]

    -- The errors for what was not placed, from an index on.
    pub unplaced : ℕ → List (Text × Text) → List ℕ → List TemplateError
    unplaced i [] placed = []
    unplaced i ((decl, name) ∷ natives) placed =
        let rest = unplaced (suc i) natives placed in
        if contains_index i placed then rest else native_not_placed name ∷ rest

    -- What is done after the loop.
    pub conclude : Rendering × Text → Result
    conclude (r, rest) = elim (r.errors ++ unplaced 0 t.natives r.placed) [
      | [] ↦ ok (r.out ++ rest)
      | e ∷ es ↦ err (e ∷ es)
    ]

    pub render : Result
    render = conclude (
        render_from (length t.source) 0 t.source
          (record { out = []; errors = []; placed = []; emitted = [] }))

declaration_lines : List Text → Text
declaration_lines [] = []
declaration_lines (decl ∷ decls) = decl ++ (codes "\n" ++ declaration_lines decls)

-- The include without a template.
pub render_include : Text → List Text → Text
unfolding declaration_lines
render_include name decls =
    let guard = map guard_character name in
    codes "// Generated by rust-samp from the #[native] signatures of "
    ++ (name
        ++ (codes
              ".\n// Edits are lost on the next build — change the Rust side instead.\n\n#if defined _"
            ++ (guard
                ++ (codes "_included\n    #endinput\n#endif\n#define _"
                    ++ (guard ++ (codes "_included\n\n" ++ declaration_lines decls))))))
