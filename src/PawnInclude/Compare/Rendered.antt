-- ===== src/PawnInclude/Compare/Rendered.antt =====
-- An include that holds the plugin's own declarations (crates/samp/src/pawn_include.rs).
use rust_samp.Base.{
  ◌≡◌, ◌≢◌, refl, ap, sym, subst, ◌∙◌, inl, inr, true, false, none, some, List, [], ◌∷◌, ◌++◌, map,
  All, All-append, append_assoc, arith, Bool-cases,
}
use rust_samp.Base.Search.{Found, All-map}
use rust_samp.Base.Text.{Text, codes, eq_text, eq_text_iff, trim_start, is_whitespace, strip_prefix}
use rust_samp.PawnInclude.Types.{Argument, Declaration}
use rust_samp.PawnInclude.Parse.{Unicode, parse}
use rust_samp.PawnInclude.Parse.Pieces.{IsUnicode}
use rust_samp.PawnInclude.Parse.RoundTrip.{
  Prototype, IsPrototype, declared, prototypes_text, parse-prototypes_text,
}
use rust_samp.PawnInclude.Compare.{
  implementing, answers, source_of, registered, missing_forwards, compare_rendered, unforwarded,
  sort_by, first_of,
}
use rust_samp.PawnInclude.Compare.Agree.{Agree, Declared, Agreeing, compare_declarations-Agree}

abbrev OtherName : Declaration → Declaration → Type 0
OtherName d e = d.name ≢ e.name

abbrev pub Distinct : List Declaration → Type 0
Distinct [] = Unit
Distinct (d ∷ ds) = All (OtherName d) ds × Distinct ds

abbrev NoAlias : Declaration → Type 0
NoAlias d = d.implemented_by ≡ none

unequal : (s t : Text) → s ≢ t → eq_text s t ≡ false
unequal s t h = elim (Bool-cases (eq_text s t)) [
  | inl same ↦ ground (arith, h ((eq_text_iff s t).0 same))
  | inr other ↦ other
]

pub eq_text-false : (s t : Text) → eq_text s t ≡ false → s ≢ t
eq_text-false s t h e = ground (arith, h, (eq_text_iff s t).1 e)

implementing_name : (d : Declaration) → NoAlias d → implementing d ≡ d.name
unfolding implementing
implementing_name d h = rw (implementing, h) refl

unlike_one_more :
    (before : List Declaration) (d : Declaration) (ds : List Declaration)
    → All (λ e. All (λ y. OtherName y e) before) ds
    → All (OtherName d) ds
    → All (λ e. All (λ y. OtherName y e) (before ++ d ∷ [])) ds
unlike_one_more before d [] h k = tt
unlike_one_more before d (e ∷ ds) h k = (
  All-append (λ y. OtherName y e) before (d ∷ []) h.0 (k.0, tt),
  unlike_one_more before d ds h.1 k.1,
)

-- Each declaration of a list behind `before` answers to itself first.
answers_itself :
    (before ds : List Declaration)
    → Distinct ds
    → All (λ e. All (λ y. OtherName y e) before) ds
    → All NoAlias ds
    → All (λ d. Found (answers d) (before ++ ds) d) ds
unfolding answers
answers_itself before [] distinct new no_alias = tt
answers_itself before (d ∷ ds) distinct new no_alias =
    let own = implementing_name d no_alias.0 in
    let later =
      answers_itself (before ++ d ∷ []) ds distinct.1 (unlike_one_more before d ds new.1 distinct.0)
        no_alias.1 in
    (
      record {
        split = record { before = before; after = ds; joined = refl };
        passes = (eq_text_iff d.name (implementing d)).1 (sym own);
        first =
            All-map before (λ y other. ap (eq_text y.name) own ∙ unequal y.name d.name other) new.0;
      },
      All-map ds
          (λ e f. subst (λ whole. Found (answers e) whole e) (append_assoc before (d ∷ []) ds) f)
          later,
    )

Agreeing-same : (xs : List Argument) → Agreeing xs xs
Agreeing-same [] = tt
Agreeing-same (x ∷ xs) = (refl, Agreeing-same xs)

nothing_before : (ds : List Declaration) → All (λ e. All (λ y. OtherName y e) []) ds
nothing_before [] = tt
nothing_before (d ∷ ds) = (tt, nothing_before ds)

-- A declaration of the list, by its own name.
All-own :
    (ds es : List Declaration)
    → All (λ d. Found (answers d) ds d) es
    → All NoAlias es
    → All (Declared ds) es
All-own ds [] f h = tt
All-own ds (e ∷ es) f h = ((e, f.0.split, sym (implementing_name e h.0)), All-own ds es f.1 h.1)

Agree-same : (ds : List Declaration) → Distinct ds → All NoAlias ds → Agree ds ds
Agree-same ds distinct no_alias =
    let itself = answers_itself [] ds distinct (nothing_before ds) no_alias in
    record {
      declared_natives = All-own ds ds itself no_alias;
      answered =
          All-map ds
            (λ d f. (
              d,
              f,
              inr (record { tag = refl; arity = inr refl; arguments = Agreeing-same d.arguments }),
            ))
            itself;
    }

-- What `registered` makes of the declarations in a text that is not commented out.
abbrev with_shape : List Declaration → List Declaration → List Declaration
with_shape rest ds = elim (first_of ds) [
  | none ↦ rest
  | some d ↦ record d { shape_known = true } ∷ rest
]

declared-NoAlias :
    (ps : List Prototype)
    → All (λ (p : Prototype). p.alias ≡ none) ps
    → All NoAlias (map declared ps)
declared-NoAlias [] h = tt
declared-NoAlias (p ∷ ps) h = (h.0, declared-NoAlias ps h.1)

-- The text of each declaration by itself.
abbrev pub texts : List Prototype → List Text
texts ps = map (λ p. prototypes_text (codes "native ") (p ∷ [])) ps

module _ (u : Unicode) (k : IsUnicode u) where
  registered-texts :
      (ps : List Prototype) → All (IsPrototype u) ps → registered u (texts ps) ≡ map declared ps
  unfolding registered source_of trim_start is_whitespace strip_prefix first_of
  registered-texts [] h = refl
  registered-texts (p ∷ ps) h =
      let rest = registered u (texts ps) in
      let itself : parse u (prototypes_text (codes "native ") (p ∷ [])) ≡ declared p ∷ [] =
        (parse-prototypes_text u k (p ∷ []) (h.0, tt)).0 in
      ap (with_shape rest) itself ∙ ap (◌∷◌ (declared p)) (registered-texts ps h.1)

  -- Where the natives' declarations can be read back, have different names and no alias: an include
  -- with their texts, compared with the plugin's declarations of the same natives, has no findings.
  pub compare_rendered-prototypes_text :
      (ps : List Prototype)
      → All (IsPrototype u) ps
      → Distinct (map declared ps)
      → All (λ (p : Prototype). p.alias ≡ none) ps
      → compare_rendered u (prototypes_text (codes "native ") ps) (texts ps) [] ≡ []
  unfolding compare_rendered missing_forwards unforwarded sort_by
  compare_rendered-prototypes_text ps h distinct no_alias =
      rw
        (
          compare_rendered,
          (parse-prototypes_text u k ps h).0,
          registered-texts ps h,
          (compare_declarations-Agree (map declared ps) (map declared ps)).1
              (Agree-same (map declared ps) distinct (declared-NoAlias ps no_alias)),
        )
        refl
