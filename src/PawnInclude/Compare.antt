-- ===== src/PawnInclude/Compare.antt =====
-- crates/samp/src/pawn_include.rs: the comparison of two lists of declarations. Texts are ordered by
-- their code points, which is the order of their bytes.
pub mod Lists
pub mod Agree
pub mod Rendered
mod Tests
use rust_samp.Base.{
  ℕ, suc, ◌+◌, Bool, true, false, not, Option, none, some, List, [], ◌∷◌, ◌++◌, map, ◌&&◌, ◌||◌,
  length, ltb, ◌==◌, if◌then◌else◌,
}
use rust_samp.Base.Search.{find, select, any}
use rust_samp.Base.Text.{Text, codes, eq_text, trim, trim_start, strip_prefix}
use rust_samp.PawnInclude.Types.{
  Argument, Declaration, Divergence, missing_from_include, not_registered, arity, return_tag,
  callback_not_forwarded, argument_shape,
}
use rust_samp.PawnInclude.Parse.{Unicode, parse, parse_forwards, before, is_blank}

pub implementing : Declaration → Text
implementing d = elim d.implemented_by [ none ↦ d.name | some target ↦ target ]

-- `str::cmp`, and the standard library's stable sort by a key.
pub le_text : Text → Text → Bool
le_text [] t = true
le_text (c ∷ s) [] = false
le_text (c ∷ s) (d ∷ t) = ltb c d || c == d && le_text s t

module _ {A : Type 0} (key : A → Text) where
  pub insert_by : A → List A → List A
  insert_by x [] = x ∷ []
  insert_by x (y ∷ ys) =
      let later = insert_by x ys in if le_text (key x) (key y) then x ∷ y ∷ ys else y ∷ later

  pub sort_by : List A → List A
  sort_by [] = []
  sort_by (x ∷ xs) = insert_by x (sort_by xs)

pub eq_bool : Bool → Bool → Bool
eq_bool true b = b
eq_bool false b = not b

-- The derived `PartialEq`.
pub eq_argument : Argument → Argument → Bool
eq_argument a b =
    eq_text a.tag b.tag && (eq_bool a.by_reference b.by_reference && eq_bool a.array b.array)

pub answers : Declaration → Declaration → Bool
answers d r = eq_text r.name (implementing d)

-- The registered natives that no declaration answers to, and the declarations that answer to none.
pub missing : List Declaration → List Declaration → List Declaration
missing declared registered = select (λ r. not (any (λ d. answers d r) declared)) registered

pub extra : List Declaration → List Declaration → List Declaration
extra declared registered = select (λ d. not (any (answers d) registered)) declared

-- Each declaration with the first registered native that it answers to.
pub shared : List Declaration → List Declaration → List (Declaration × Declaration)
shared [] registered = []
shared (d ∷ declared) registered =
    let rest = shared declared registered in
    elim (find (answers d) registered) [ none ↦ rest | some r ↦ (d, r) ∷ rest ]

pub tag_findings : Declaration → Declaration → List Divergence
tag_findings include plugin =
    if eq_text include.tag plugin.tag
    then []
    else return_tag include.name include.tag plugin.tag ∷ []

pub arity_findings : Declaration → Declaration → List Divergence
arity_findings include plugin =
    if not include.variadic && not (length include.arguments == length plugin.arguments)
    then arity include.name (length include.arguments) (length plugin.arguments) ∷ []
    else []

-- The loop over the arguments that both have, from a position.
pub argument_findings : Text → ℕ → List Argument → List Argument → List Divergence
argument_findings name position [] ys = []
argument_findings name position (a ∷ xs) [] = []
argument_findings name position (a ∷ xs) (b ∷ ys) =
    let rest = argument_findings name (suc position) xs ys in
    if eq_argument a b then rest else argument_shape name (suc position) a b ∷ rest

pub pair_findings : Declaration × Declaration → List Divergence
pair_findings (include, plugin) =
    if not plugin.shape_known
    then []
    else tag_findings include plugin
      ++ (arity_findings include plugin
          ++ argument_findings include.name 0 include.arguments plugin.arguments)

pub all_findings : List (Declaration × Declaration) → List Divergence
all_findings [] = []
all_findings (pair ∷ pairs) = pair_findings pair ++ all_findings pairs

pub compare_declarations : List Declaration → List Declaration → List Divergence
compare_declarations declared registered =
    map (λ (r : Declaration). missing_from_include r.name)
      (sort_by (λ (r : Declaration). r.name) (missing declared registered))
    ++ (map (λ (d : Declaration). not_registered d.name)
          (sort_by (λ (d : Declaration). d.name) (extra declared registered))
        ++ all_findings
            (sort_by (λ (p : Declaration × Declaration). p.0.name) (shared declared registered)))

first_of : List Declaration → Option Declaration
first_of [] = none
first_of (d ∷ ds) = some d

module _ (u : Unicode) where
  -- The source of a declaration derived by the plugin, and whether its shape is known.
  pub source_of : Text → Text × Bool
  source_of decl = elim (strip_prefix (codes "//") (trim_start decl)) [
    | none ↦ (decl, true)
    | some rest ↦ (trim_start rest, false)
  ]

  pub registered : List Text → List Declaration
  unfolding first_of
  registered [] = []
  registered (decl ∷ decls) =
      let (source, shape_known) = source_of decl in
      let rest = registered decls in
      elim (first_of (parse u source)) [
        | none ↦ rest
        | some d ↦ record d { shape_known = shape_known } ∷ rest
      ]

  pub callback_name : Text → Text
  callback_name declared = trim (before b'(' (trim declared))

  pub unforwarded : List Declaration → List Text → List Text
  unforwarded forwarded [] = []
  unforwarded forwarded (declared ∷ callbacks) =
      let name = callback_name declared in
      let rest = unforwarded forwarded callbacks in
      if not (is_blank name) && not (any (λ (f : Declaration). eq_text f.name name) forwarded)
      then name ∷ rest
      else rest

  pub missing_forwards : Text → List Text → List Divergence
  missing_forwards include_source callbacks =
      map callback_not_forwarded
        (sort_by (λ s. s) (unforwarded (parse_forwards u include_source) callbacks))

  -- The part of `compare_with` behind the rendering of a template, with the runtime's callbacks.
  pub compare_rendered : Text → List Text → List Text → List Divergence
  compare_rendered include_source decls callbacks =
      compare_declarations (parse u include_source) (registered decls)
      ++ missing_forwards include_source callbacks
