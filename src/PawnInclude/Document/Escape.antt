-- ===== src/PawnInclude/Document/Escape.antt =====
-- The escapes of a documentation comment (crates/samp/src/pawn_include.rs).
use rust_samp.Base.{
  ℕ, ◌≡◌, refl, ap, sym, ◌∙◌, inl, inr, [], ◌∷◌, ◌++◌, append_assoc, ◌==◌, if◌then◌else◌,
  Bool-cases, subst,
}
use rust_samp.Base.Text.{Text, codes, Without}
use rust_samp.PawnInclude.Document.{replace, escape}

-- What stands for one character.
abbrev pub entity : ℕ → Text
entity c =
    if c == b'&'
    then codes "&amp;"
    else if c == b'<'
    then codes "&lt;"
    else if c == b'>'
    then codes "&gt;"
    else c ∷ []

abbrev pub entities : Text → Text
entities [] = []
entities (c ∷ text) = entity c ++ entities text

replace-append : (c : ℕ) (by s t : Text) → replace c by (s ++ t) ≡ replace c by s ++ replace c by t
unfolding replace
replace-append c by [] t = refl
replace-append c by (d ∷ s) t = elim (Bool-cases (d == c)) [
  | inl p ↦
      rw (replace, p, replace-append c by s t)
        (sym (append_assoc by (replace c by s) (replace c by t)))
  | inr p ↦ rw (replace, p, replace-append c by s t) refl
]

-- The three passes on one character.
escape_one : (c : ℕ) → escape (c ∷ []) ≡ entity c
unfolding escape replace
escape_one c = elim (Bool-cases (c == b'&')) [
  | inl p ↦ rw (escape, replace, p) refl
  | inr p ↦ elim (Bool-cases (c == b'<')) [
    | inl q ↦ rw (escape, replace, p, q) refl
    | inr q ↦ elim (Bool-cases (c == b'>')) [
      | inl r ↦ rw (escape, replace, p, q, r) refl
      | inr r ↦ rw (escape, replace, p, q, r) refl
    ]
  ]
]

escape-append : (s t : Text) → escape (s ++ t) ≡ escape s ++ escape t
unfolding escape
escape-append s t =
    rw
      (
        escape,
        replace-append b'&' (codes "&amp;") s t,
        replace-append b'<' (codes "&lt;") (replace b'&' (codes "&amp;") s)
            (replace b'&' (codes "&amp;") t),
        replace-append b'>' (codes "&gt;")
            (replace b'<' (codes "&lt;") (replace b'&' (codes "&amp;") s))
            (replace b'<' (codes "&lt;") (replace b'&' (codes "&amp;") t)),
      )
      refl

-- The three passes do what one pass would.
escape-entities : (text : Text) → escape text ≡ entities text
unfolding escape replace
escape-entities [] = refl
escape-entities (c ∷ text) =
    escape-append (c ∷ []) text
    ∙ ap (λ e. e ++ escape text) (escape_one c)
    ∙ ap (◌++◌ (entity c)) (escape-entities text)

Without-append : (c : ℕ) (s t : Text) → Without c s → Without c t → Without c (s ++ t)
Without-append c [] t hs ht = ht
Without-append c (d ∷ s) t hs ht = (hs.0, Without-append c s t hs.1 ht)

entity_plain : (c : ℕ) → Without b'<' (entity c) × Without b'>' (entity c)
entity_plain c = elim (Bool-cases (c == b'&')) [
  | inl p ↦
      rw (p)
        ((refl, (refl, (refl, (refl, (refl, tt))))), (refl, (refl, (refl, (refl, (refl, tt))))))
  | inr p ↦ elim (Bool-cases (c == b'<')) [
    | inl q ↦ rw (p, q) ((refl, (refl, (refl, (refl, tt)))), (refl, (refl, (refl, (refl, tt)))))
    | inr q ↦ elim (Bool-cases (c == b'>')) [
      | inl r ↦
          rw (p, q, r) ((refl, (refl, (refl, (refl, tt)))), (refl, (refl, (refl, (refl, tt)))))
      | inr r ↦ rw (p, q, r) ((q, tt), (r, tt))
    ]
  ]
]

entities_plain : (text : Text) → Without b'<' (entities text) × Without b'>' (entities text)
entities_plain [] = (tt, tt)
entities_plain (c ∷ text) =
    let (a, b) = entity_plain c in
    let (p, q) = entities_plain text in
    (
      Without-append b'<' (entity c) (entities text) a p,
      Without-append b'>' (entity c) (entities text) b q,
    )

-- An escaped text has no angle bracket, so that it cannot open or close a tag; and escaping replaces each `&`, `<` and `>` of the text by its own entity, in one pass, and leaves every other character.
pub escape_lem :
    (text : Text)
    → (escape text ≡ entities text) × (Without b'<' (escape text) × Without b'>' (escape text))
escape_lem text = (
  escape-entities text,
  subst (λ s. Without b'<' s × Without b'>' s) (sym (escape-entities text)) (entities_plain text),
)
