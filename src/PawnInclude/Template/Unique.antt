-- ===== src/PawnInclude/Template/Unique.antt =====
-- What an include that was rendered declares (crates/samp/src/pawn_include.rs).
use rust_samp.Base.{
  ℕ, ◌≡◌, refl, ap, sym, ◌∙◌, inl, inr, true, false, Option, List, [], ◌∷◌, ◌++◌, append_assoc,
  append-nil, map, Bool-cases, subst,
}
use rust_samp.Base.Search.{any}
use rust_samp.Base.Text.{Text, eq_text, trim}
use rust_samp.PawnInclude.Types.{Declaration}
use rust_samp.PawnInclude.Parse.{Unicode, parse}
use rust_samp.PawnInclude.Template.{
  Stored, Template, TemplateError, placed_twice, Expanded, expanded, refused, expand, Rendering,
  Result, ok, err, emit, take_in, fill, unplaced, conclude, render,
}
use rust_samp.PawnInclude.Template.Rendered.{Piece, print, IsTemplate, empty, filled, render-print}

abbrev pub names : List Declaration → List Text
names ds = map (λ (d : Declaration). d.name) ds

-- Each name differs from those before it.
abbrev pub Distinct : List Text → List Text → Type 0
Distinct before [] = Unit
Distinct before (name ∷ rest) =
    (any (eq_text name) before ≡ false) × Distinct (before ++ name ∷ []) rest

appended_empty : {A : Type 0} (xs : List A) (x : A) (ys : List A) → xs ++ x ∷ ys ≡ [] → ⊥
appended_empty [] x ys e = cc
appended_empty (y ∷ xs) x ys e = cc

first_empty : {A : Type 0} (xs ys : List A) → xs ++ ys ≡ [] → xs ≡ []
first_empty [] ys e = refl
first_empty (x ∷ xs) ys e = cc

ok_without :
    (errors : List TemplateError) (text out : Text)
    → (elim errors as (λ x. Result) [ [] ↦ ok text | e ∷ es ↦ err (e ∷ es) ]) ≡ ok out
    → (errors ≡ []) × (text ≡ out)
ok_without [] text out e = (refl, cc)
ok_without (error ∷ errors) text out e = cc

module _ (u : Unicode) where
  emit_twice :
      (d : Declaration) (ds : List Declaration) (r : Rendering)
      → any (eq_text d.name) r.emitted ≡ true
      → emit u (d ∷ ds) r ≡ emit u ds (record r { errors = r.errors ++ placed_twice d.name ∷ [] })
  unfolding emit
  emit_twice d ds r p = ap (emit u ds) (rw (p) refl)

  emit_once :
      (d : Declaration) (ds : List Declaration) (r : Rendering)
      → any (eq_text d.name) r.emitted ≡ false
      → emit u (d ∷ ds) r ≡ emit u ds (record r { emitted = r.emitted ++ d.name ∷ [] })
  unfolding emit
  emit_once d ds r p = ap (emit u ds) (rw (p) refl)

  -- Where the loop over the declarations finds no error, each name is new, and was recorded.
  emit-Distinct :
      (ds : List Declaration) (r : Rendering)
      → (emit u ds r).errors ≡ []
      → (r.errors ≡ [])
        × (Distinct r.emitted (names ds) × ((emit u ds r).emitted ≡ r.emitted ++ names ds))
  unfolding emit
  emit-Distinct [] r e = (e, (tt, sym (append-nil r.emitted)))
  emit-Distinct (d ∷ ds) r e = elim (Bool-cases (any (eq_text d.name) r.emitted)) [
    | inl twice ↦
        let r' = record r { errors = r.errors ++ placed_twice d.name ∷ [] } in
        let (p, q) =
          emit-Distinct ds r'
            (ap (λ (x : Rendering). x.errors) (sym (emit_twice d ds r twice)) ∙ e) in
        absurd (appended_empty r.errors (placed_twice d.name) [] p)
    | inr once ↦
        let r' = record r { emitted = r.emitted ++ d.name ∷ [] } in
        let step = emit_once d ds r once in
        let (p, (q, s)) = emit-Distinct ds r' (ap (λ (x : Rendering). x.errors) (sym step) ∙ e) in
        (
          p,
          (
            (once, q),
            ap (λ (x : Rendering). x.emitted) step
                ∙ s
                ∙ append_assoc r.emitted (d.name ∷ []) (names ds),
          ),
        )
  ]

  emit-out : (ds : List Declaration) (r : Rendering) → (emit u ds r).out ≡ r.out
  unfolding emit
  emit-out [] r = refl
  emit-out (d ∷ ds) r = elim (Bool-cases (any (eq_text d.name) r.emitted)) [
    | inl twice ↦
        ap (λ (x : Rendering). x.out) (emit_twice d ds r twice)
        ∙ emit-out ds (record r { errors = r.errors ++ placed_twice d.name ∷ [] })
    | inr once ↦
        ap (λ (x : Rendering). x.out) (emit_once d ds r once)
        ∙ emit-out ds (record r { emitted = r.emitted ++ d.name ∷ [] })
  ]

  -- An expansion that finds no error: what it added, and that its names are new.
  abbrev Added : Expanded → Rendering → Rendering → Type 0
  Added result r after =
      (e : Text) × (result ≡ expanded e)
      × (after.out ≡ r.out ++ e)
      × (r.errors ≡ [])
      × Distinct r.emitted (names (parse u e))
      × (after.emitted ≡ r.emitted ++ names (parse u e))

  take_in-Added :
      (result : Expanded) (placed : List ℕ) (r : Rendering)
      → (take_in u result placed r).errors ≡ []
      → Added result r (take_in u result placed r)
  unfolding take_in
  take_in-Added (refused error) placed r e = absurd (appended_empty r.errors error [] e)
  take_in-Added (expanded text) placed r e =
      let (p, (q, s)) = emit-Distinct (parse u text) r e in
      (text, refl, ap (λ o. o ++ text) (emit-out (parse u text) r), p, q, s)

  take_in-placed :
      (result : Expanded) (placed : List ℕ) (r : Rendering)
      → (take_in u result placed r).placed ≡ placed
  unfolding take_in
  take_in-placed (refused error) placed r = refl
  take_in-placed (expanded text) placed r = refl

  -- The texts of the pieces with an expansion behind each.
  abbrev pub woven : List Piece → List Text → Text
  woven [] es = []
  woven ((text, name) ∷ pieces) [] = text
  woven ((text, name) ∷ pieces) (e ∷ es) = text ++ (e ++ woven pieces es)

  -- The names that the expansions declare, in order.
  abbrev pub declared : List Text → List Text
  declared [] = []
  declared (e ∷ es) = names (parse u e) ++ declared es

  Distinct-append :
      (before xs ys : List Text)
      → Distinct before xs
      → Distinct (before ++ xs) ys
      → Distinct before (xs ++ ys)
  Distinct-append before [] ys h k = subst (λ b. Distinct b ys) (append-nil before) k
  Distinct-append before (x ∷ xs) ys (h, hs) k = (
    h,
    Distinct-append (before ++ x ∷ []) xs ys hs
        (subst (λ b. Distinct b ys) (sym (append_assoc before (x ∷ []) xs)) k),
  )

  module _ (stored : Option Stored) (t : Template) where
    -- What `expand` gives for the placeholder of each piece, from the natives placed before it on, and
    -- the natives that are placed in the end.
    abbrev pub Expansions : List Piece → List ℕ → List Text → List ℕ → Type 0
    Expansions [] placed [] last = placed ≡ last
    Expansions [] placed (e ∷ es) last = ⊥
    Expansions ((text, name) ∷ pieces) placed [] last = ⊥
    Expansions ((text, name) ∷ pieces) placed (e ∷ es) last =
        ((expand stored t (trim name) placed).0 ≡ expanded e)
        × Expansions pieces (expand stored t (trim name) placed).1 es last

    filled-Distinct :
        (pieces : List Piece) (r : Rendering)
        → (filled u stored t pieces r).errors ≡ []
        → (es : List Text) × Expansions pieces r.placed es (filled u stored t pieces r).placed
          × ((filled u stored t pieces r).out ≡ r.out ++ woven pieces es)
          × (r.errors ≡ [])
          × Distinct r.emitted (declared es)
    unfolding filled fill
    filled-Distinct [] r e = ([], refl, sym (append-nil r.out), e, tt)
    filled-Distinct ((text, name) ∷ pieces) r e =
        let s = record r { out = r.out ++ text } in
        let f = fill u stored t (trim name) s in
        let (result, placed) = expand stored t (trim name) r.placed in
        let (es, given, out, p, q) = filled-Distinct pieces f e in
        let (x, is_expanded, grown, p', fresh, emitted) =
          take_in-Added (expand stored t (trim name) s.placed).0
            (expand stored t (trim name) s.placed).1 s p in
        (
          x ∷ es,
          (
            is_expanded,
            subst (λ l. Expansions pieces l es (filled u stored t pieces f).placed)
                (take_in-placed result placed s) given,
          ),
          out
              ∙ ap (λ o. o ++ woven pieces es) grown
              ∙ append_assoc (r.out ++ text) x (woven pieces es)
              ∙ append_assoc r.out text (x ++ woven pieces es),
          p',
          Distinct-append r.emitted (names (parse u x)) (declared es) fresh
              (subst (λ b. Distinct b (declared es)) emitted q),
        )

    conclude-ok :
        (r : Rendering) (tail out : Text)
        → conclude u stored t (r, tail) ≡ ok out
        → (r.errors ≡ []) × (unplaced u stored t 0 t.natives r.placed ≡ []) × (out ≡ r.out ++ tail)
    unfolding conclude
    conclude-ok r tail out e =
        let (none_found, same) =
          ok_without (r.errors ++ unplaced u stored t 0 t.natives r.placed) (r.out ++ tail) out e in
        let none_before =
          first_empty r.errors (unplaced u stored t 0 t.natives r.placed) none_found in
        (
          none_before,
          ap (λ l. l ++ unplaced u stored t 0 t.natives r.placed) (sym none_before) ∙ none_found,
          sym same,
        )

    -- A template that renders without an error gives the text of the template with each placeholder replaced by what the placeholder expands to; the expansions declare no name twice; and every native was placed. Names that are declared by the text around the placeholders are not compared.
    pub render-Distinct :
        (pieces : List Piece) (tail out : Text)
        → IsTemplate pieces tail
        → t.source ≡ print pieces tail
        → render u stored t ≡ ok out
        → (es : List Text) × (last : List ℕ) × Expansions pieces [] es last
          × (out ≡ woven pieces es ++ tail)
          × Distinct [] (declared es)
          × (unplaced u stored t 0 t.natives last ≡ [])
    render-Distinct pieces tail out h e done =
        let (p, placed, q) =
          conclude-ok (filled u stored t pieces empty) tail out
            (sym (render-print u stored t pieces tail h e) ∙ done) in
        let (es, given, grown, none_before, distinct) = filled-Distinct pieces empty p in
        (
          es,
          (filled u stored t pieces empty).placed,
          given,
          q ∙ ap (λ o. o ++ tail) grown,
          distinct,
          placed,
        )
