-- ===== src/PawnInclude/Compare/Agree.antt =====
-- What it means that a comparison finds nothing (crates/samp/src/pawn_include.rs).
use rust_samp.Base.{
  ℕ, suc, ◌≡◌, refl, ap, sym, subst, ◌∙◌, ◌↔◌, ◌⊎◌, inl, inr, Bool, true, false, not, List, [], ◌∷◌,
  ◌++◌, map, All, ◌&&◌, length, ◌==◌, ==_iff, arith, Bool-cases, Option-cases,
}
use rust_samp.Base.Search.{find, select, any, find-Found, find-none, Found, Split, All-map}
use rust_samp.Base.Text.{Text, eq_text, eq_text_iff}
use rust_samp.PawnInclude.Types.{
  Argument, Declaration, Divergence, missing_from_include, not_registered,
}
use rust_samp.PawnInclude.Compare.{
  implementing, sort_by, eq_bool, eq_argument, answers, missing, extra, shared, tag_findings,
  arity_findings, argument_findings, pair_findings, all_findings, compare_declarations,
}
use rust_samp.PawnInclude.Compare.Lists.{
  append_empty, map_empty, select_empty, sort_by-All, sort_by_empty, any-Split, any_of, find_of,
  any_none, some_injective,
}

eq_bool_iff : (a b : Bool) → (eq_bool a b ≡ true) ↔ (a ≡ b)
unfolding eq_bool
eq_bool_iff true b = (λ e. sym e, λ e. sym e)
eq_bool_iff false true = (λ e. cc, λ e. cc)
eq_bool_iff false false = (λ e. refl, λ e. refl)

and_iff : (a b : Bool) → (a && b ≡ true) ↔ ((a ≡ true) × (b ≡ true))
and_iff true b = (λ e. (refl, e), λ h. h.1)
and_iff false b = (λ e. cc, λ h. h.0)

eq_argument_iff : (a b : Argument) → (eq_argument a b ≡ true) ↔ (a ≡ b)
unfolding eq_argument
eq_argument_iff a b = (
  λ e.
      let l =
        (and_iff (eq_text a.tag b.tag)
            (eq_bool a.by_reference b.by_reference && eq_bool a.array b.array)).0
          e in
      let m = (and_iff (eq_bool a.by_reference b.by_reference) (eq_bool a.array b.array)).0 l.1 in
      let tag = (eq_text_iff a.tag b.tag).0 l.0 in
      let by_reference = (eq_bool_iff a.by_reference b.by_reference).0 m.0 in
      let array = (eq_bool_iff a.array b.array).0 m.1 in
      λ i. record { tag = tag i; by_reference = by_reference i; array = array i },
  λ e.
      rw
        (
          eq_argument,
          (eq_text_iff a.tag b.tag).1 (ap (λ (x : Argument). x.tag) e),
          (eq_bool_iff a.by_reference b.by_reference).1 (ap (λ (x : Argument). x.by_reference) e),
          (eq_bool_iff a.array b.array).1 (ap (λ (x : Argument). x.array) e),
        )
        refl,
)

-- The arguments that both lists have are the same.
abbrev pub Agreeing : List Argument → List Argument → Type 0
Agreeing [] ys = Unit
Agreeing (a ∷ xs) [] = Unit
Agreeing (a ∷ xs) (b ∷ ys) = (a ≡ b) × Agreeing xs ys

argument_findings_empty :
    (name : Text) (position : ℕ) (xs ys : List Argument)
    → (argument_findings name position xs ys ≡ []) ↔ Agreeing xs ys
unfolding argument_findings
argument_findings_empty name position [] ys = (λ e. tt, λ h. refl)
argument_findings_empty name position (a ∷ xs) [] = (λ e. tt, λ h. refl)
argument_findings_empty name position (a ∷ xs) (b ∷ ys) = elim (Bool-cases (eq_argument a b)) [
  | inl same ↦
      let l = argument_findings_empty name (suc position) xs ys in
      rw (argument_findings, same) (λ e. ((eq_argument_iff a b).0 same, l.0 e), λ h. l.1 h.1)
  | inr other ↦
      rw (argument_findings, other) (λ e. cc, λ h. ground (arith, (eq_argument_iff a b).1 h.0))
]

-- A declaration and the native that it answers to: the same tag, the same arguments, and as many,
-- unless the declaration is open-ended.
pub record Matches (d r : Declaration) : Type 0 where
  pub tag : d.tag ≡ r.tag
  pub arity : (d.variadic ≡ true) ⊎ (length d.arguments ≡ length r.arguments)
  pub arguments : Agreeing d.arguments r.arguments

arity_empty :
    (d r : Declaration)
    → (arity_findings d r ≡ []) ↔ ((d.variadic ≡ true) ⊎ (length d.arguments ≡ length r.arguments))
unfolding arity_findings
arity_empty d r = elim (Bool-cases d.variadic) [
  | inl open_end ↦ rw (arity_findings, open_end) (λ e. inl refl, λ h. refl)
  | inr fixed ↦ elim (Bool-cases (length d.arguments == length r.arguments)) [
    | inl same ↦
        rw (arity_findings, fixed, same)
          (λ e. inr ((==_iff (length d.arguments) (length r.arguments)).0 same), λ h. refl)
    | inr other ↦ (
      λ e. ground (arith, e),
      λ h. ground (arith, ==_iff (length d.arguments) (length r.arguments)),
    )
  ]
]

tag_empty : (d r : Declaration) → (tag_findings d r ≡ []) ↔ (d.tag ≡ r.tag)
unfolding tag_findings
tag_empty d r = elim (Bool-cases (eq_text d.tag r.tag)) [
  | inl same ↦ rw (tag_findings, same) (λ e. (eq_text_iff d.tag r.tag).0 same, λ h. refl)
  | inr other ↦
      rw (tag_findings, other) (λ e. cc, λ h. ground (arith, (eq_text_iff d.tag r.tag).1 h))
]

pair_empty :
    (d r : Declaration) → (pair_findings (d, r) ≡ []) ↔ ((r.shape_known ≡ false) ⊎ Matches d r)
unfolding pair_findings
pair_empty d r = elim (Bool-cases r.shape_known) [
  | inr unknown ↦ rw (pair_findings, unknown) (λ e. inl refl, λ h. refl)
  | inl known ↦
      let whole : pair_findings (d, r)
          ≡ tag_findings d r
            ++ (arity_findings d r ++ argument_findings d.name 0 d.arguments r.arguments) =
        rw (pair_findings, known) refl in
      let outer =
        append_empty (tag_findings d r)
          (arity_findings d r ++ argument_findings d.name 0 d.arguments r.arguments) in
      let inner =
        append_empty (arity_findings d r) (argument_findings d.name 0 d.arguments r.arguments) in
      let shape = argument_findings_empty d.name 0 d.arguments r.arguments in
      (
        λ e.
            let o = outer.0 (sym whole ∙ e) in
            let n = inner.0 o.1 in
            inr (record {
              tag = (tag_empty d r).0 o.0;
              arity = (arity_empty d r).0 n.0;
              arguments = shape.0 n.1;
            }),
        λ h. elim h [
          | inl unknown ↦ ground arith
          | inr m ↦
              whole
              ∙ outer.1 (
                (tag_empty d r).1 m.tag,
                inner.1 ((arity_empty d r).1 m.arity, shape.1 m.arguments),
              )
        ],
      )
]

all_findings_empty :
    (ps : List (Declaration × Declaration))
    → (all_findings ps ≡ []) ↔ All (λ p. pair_findings p ≡ []) ps
unfolding all_findings
all_findings_empty [] = (λ e. tt, λ h. refl)
all_findings_empty (p ∷ ps) =
    let o = append_empty (pair_findings p) (all_findings ps) in
    let l = all_findings_empty ps in (λ e. ((o.0 e).0, l.0 (o.0 e).1), λ h. o.1 (h.0, l.1 h.1))

-- The declaration answers to a registered native, and matches the first that it answers to, unless
-- that one's shape is not known.
abbrev pub Answered : List Declaration → Declaration → Type 0
Answered registered d =
    (r : Declaration) × Found (answers d) registered r × ((r.shape_known ≡ false) ⊎ Matches d r)

-- Some declaration is for the native.
abbrev pub Declared : List Declaration → Declaration → Type 0
Declared declared r = (d : Declaration) × Split declared d × (r.name ≡ implementing d)

pub record Agree (declared registered : List Declaration) : Type 0 where
  pub declared_natives : All (Declared declared) registered
  pub answered : All (Answered registered) declared

missing_empty :
    (declared registered : List Declaration)
    → (missing declared registered ≡ []) ↔ All (Declared declared) registered
unfolding missing answers
missing_empty declared registered =
    let s = select_empty (λ r. not (any (λ d. answers d r) declared)) registered in
    (
      λ e.
          All-map registered
            (λ r h.
              let (d, split, same) = any-Split (λ d. answers d r) declared (ground arith) in
              (d, split, (eq_text_iff r.name (implementing d)).0 same))
            (s.0 e),
      λ h. s.1 (
          All-map registered
            (λ r (d, split, same). ground (
              arith,
              any_of (λ d. answers d r) declared d split
                  ((eq_text_iff r.name (implementing d)).1 same),
            ))
            h),
    )

extra-shared :
    (declared registered : List Declaration)
    → ((extra declared registered ≡ [])
        × All (λ p. pair_findings p ≡ []) (shared declared registered))
      ↔ All (Answered registered) declared
unfolding extra select shared
extra-shared [] registered = (λ h. tt, λ h. (refl, tt))
extra-shared (d ∷ declared) registered =
    let l = extra-shared declared registered in
    elim (Option-cases (find (answers d) registered)) [
      | inl nothing ↦
          let unanswered =
            any_none (answers d) registered (find-none (answers d) registered nothing) in
          (
            λ h. ground (arith, unanswered, h.0),
            λ h. let (r, f, m) = h.0 in ground (arith, nothing, find_of (answers d) registered r f),
          )
      | inr (r, found) ↦
          let f = find-Found (answers d) registered r found in
          let some_answer = any_of (answers d) registered r f.split f.passes in
          rw (extra, select, some_answer, shared, found)
            (
              λ h. ((r, f, (pair_empty d r).0 h.1.0), l.0 (h.0, h.1.1)),
              λ h.
                  let (x, first, m) = h.0 in
                  let same : x ≡ r =
                    some_injective x r (sym (find_of (answers d) registered x first) ∙ found) in
                  let rest = l.1 h.1 in
                  (
                    rest.0,
                    (
                      (pair_empty d r).1
                          (subst (λ y. (y.shape_known ≡ false) ⊎ Matches d y) same m),
                      rest.1,
                    ),
                  ),
            )
    ]

-- Comparing two lists of declarations finds nothing exactly where they agree: each registered native is
-- declared by its name or by an alias, and each declaration answers to a registered native and matches
-- the first one of that name, in its tag, its number of arguments unless it is open-ended, and each
-- argument that both have, unless the native's shape is not known.
pub compare_declarations-Agree :
    (declared registered : List Declaration)
    → (compare_declarations declared registered ≡ []) ↔ Agree declared registered
unfolding compare_declarations
compare_declarations-Agree declared registered =
    let by_name : Declaration → Text = λ d. d.name in
    let by_first : Declaration × Declaration → Text = λ p. p.0.name in
    let not_declared = missing declared registered in
    let surplus = extra declared registered in
    let pairs = shared declared registered in
    let native : Declaration → Divergence = λ r. missing_from_include r.name in
    let declaration : Declaration → Divergence = λ d. not_registered d.name in
    let first = map native (sort_by by_name not_declared) in
    let second = map declaration (sort_by by_name surplus) in
    let third = all_findings (sort_by by_first pairs) in
    let outer = append_empty first (second ++ third) in
    let inner = append_empty second third in
    let checks = all_findings_empty (sort_by by_first pairs) in
    let order = sort_by-All by_first (λ p. pair_findings p ≡ []) pairs in
    (
      λ e.
          let n = inner.0 (outer.0 e).1 in
          record {
            declared_natives = (missing_empty declared registered).0 (
                (sort_by_empty by_name not_declared).0
                  ((map_empty native (sort_by by_name not_declared)).0 (outer.0 e).0));
            answered = (extra-shared declared registered).0 (
              (sort_by_empty by_name surplus).0
                  ((map_empty declaration (sort_by by_name surplus)).0 n.0),
              order.0 (checks.0 n.1),
            );
          },
      λ a.
          let x = (extra-shared declared registered).1 a.answered in
          outer.1 (
            (map_empty native (sort_by by_name not_declared)).1 (
                (sort_by_empty by_name not_declared).1
                  ((missing_empty declared registered).1 a.declared_natives)),
            inner.1 (
              (map_empty declaration (sort_by by_name surplus)).1
                  ((sort_by_empty by_name surplus).1 x.0),
              checks.1 (order.1 x.1),
            ),
          ),
    )
