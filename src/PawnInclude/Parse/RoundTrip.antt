-- ===== src/PawnInclude/Parse/RoundTrip.antt =====
-- Declarations are read back from their texts (crates/samp/src/pawn_include.rs).
use rust_samp.Base.{
  ℕ, zero, suc, ◌+◌, ◌-◌, ◌≤◌, ◌≡◌, refl, ap, sym, ◌∙◌, true, false, Option, none, some, List, [],
  ◌∷◌, ◌++◌, append_assoc, append-nil, map, length, length-append, take, take-length, drop-length,
  ge→ltb, All, All-append, ◌==◌, arith,
}
use rust_samp.Base.Text.{
  Text, codes, Without, split_once, split_once-append, find_behind, strip_prefix,
  is_ascii_alphanumeric,
}
use rust_samp.Base.Text.Solid.{IsWord, is_word, word_other}
use rust_samp.PawnInclude.Types.{Declaration, tag_text}
use rust_samp.PawnInclude.Scan.{without_comments}
use rust_samp.PawnInclude.Scan.Comments.{plain, without_comments-print}
use rust_samp.PawnInclude.Parse.{
  Unicode, is_blank, declaration, declared_at, round, rounds, parse_declarations, parse,
  parse_forwards,
}
use rust_samp.PawnInclude.Parse.Arguments.{tag_text-All, word-Without}
use rust_samp.PawnInclude.Parse.Lists.{
  Part, list_text, arguments_of, open_ended, IsPart, parse_arguments-list_text,
}
use rust_samp.PawnInclude.Parse.Pieces.{
  list_text-All, contains-list_text, IsUnicode, is_name_word, head_of-head, alias_text, IsAlias,
  alias-Without, alias_of-alias_text, tail_of-alias_text,
}

-- What a declaration says: `tag:name(part, part) = alias;`.
pub record Prototype : Type 0 where
  pub tag : Text
  pub name : Text
  pub parts : List Part
  pub alias : Option Text

abbrev pub head_text : Prototype → Text
head_text p = tag_text p.tag ++ p.name

-- What stands behind the keyword.
abbrev pub prototype_text : Prototype → Text → Text
prototype_text p rest =
    head_text p ++ b'(' ∷ (list_text p.parts ++ b')' ∷ (alias_text p.alias ++ b';' ∷ b'\n' ∷ rest))

abbrev pub prototypes_text : Text → List Prototype → Text
prototypes_text keyword [] = []
prototypes_text keyword (p ∷ ps) = keyword ++ prototype_text p (prototypes_text keyword ps)

abbrev pub declared : Prototype → Declaration
declared p = record {
  name = p.name;
  tag = p.tag;
  arguments = arguments_of p.parts;
  variadic = open_ended p.parts;
  implemented_by = p.alias;
  shape_known = true;
}

pub record IsPrototype (u : Unicode) (p : Prototype) : Type 0 where
  pub tag_word : IsWord p.tag
  pub lower_case : u.to_lowercase p.tag ≡ p.tag
  pub name_word : IsWord p.name
  pub named : is_blank p.name ≡ false
  pub parts_read : All (IsPart u) p.parts
  pub alias_word : IsAlias p.alias

-- The text of a prototype, without a character that is none of its own.
module _ (u : Unicode) (p : Prototype) (h : IsPrototype u p) (c : ℕ)
    (special : is_word c ≡ false) where
  head_text-Without : (b':' == c) ≡ false → Without c (head_text p)
  head_text-Without colon =
      All-append (λ d. (d == c) ≡ false) (tag_text p.tag) p.name
        (tag_text-All (λ d. (d == c) ≡ false) (λ d w. word_other c d special w) colon p.tag
          h.tag_word)
        (word-Without c p.name special h.name_word)

module _ (u : Unicode) (k : IsUnicode u) where
  declaration-prototype :
      (p : Prototype) (rest : Text)
      → IsPrototype u p
      → declaration u (head_text p) (list_text p.parts) (alias_text p.alias ++ b';' ∷ rest)
        ≡ declared p
  unfolding declaration
  declaration-prototype p rest h =
      rw
        (
          declaration,
          head_of-head u p.tag p.name h.tag_word h.lower_case h.name_word,
          parse_arguments-list_text u p.parts h.parts_read,
          contains-list_text u p.parts h.parts_read,
          tail_of-alias_text u p.alias rest h.alias_word,
          alias_of-alias_text u p.alias k h.alias_word,
        )
        refl

  declared_at-prototype :
      (p : Prototype) (rest : Text)
      → IsPrototype u p
      → declared_at u (prototype_text p rest) ≡ some (declared p ∷ [], b';' ∷ b'\n' ∷ rest)
  unfolding declared_at is_word is_ascii_alphanumeric
  declared_at-prototype p rest h =
      let head = head_text p in
      let list = list_text p.parts in
      let behind = alias_text p.alias ++ b';' ∷ b'\n' ∷ rest in
      let closed = head ++ b'(' ∷ list in
      let l : length closed ≡ length head + suc (length list) = length-append head (b'(' ∷ list) in
      let at_close : split_once b')' (prototype_text p rest) ≡ some (closed, behind) =
        ap (split_once b')') (sym (append_assoc head (b'(' ∷ list) (b')' ∷ behind)))
        ∙ split_once-append b')' closed behind (
            All-append (λ d. (d == b')') ≡ false) head (b'(' ∷ list)
              (head_text-Without u p h b')' refl refl)
              (
                refl,
                list_text-All u (λ d. (d == b')') ≡ false) (λ d w. word_other b')' d refl w) refl
                    refl refl refl refl refl refl p.parts h.parts_read,
              )) in
      let read : take (length closed - length head - 1) (list ++ b')' ∷ behind) ≡ list =
        ap (λ n. take n (list ++ b')' ∷ behind)) (omega (arith, l))
        ∙ take-length list (b')' ∷ behind) in
      rw
        (
          declared_at,
          split_once-append b'(' head (list ++ b')' ∷ behind)
              (head_text-Without u p h b'(' refl refl),
          at_close,
          ge→ltb (length closed) (length head) (omega (arith, l)),
          head_of-head u p.tag p.name h.tag_word h.lower_case h.name_word,
          is_name_word u p.name k h.name_word h.named,
          read,
          declaration-prototype p (b'\n' ∷ rest) h,
          tail_of-alias_text u p.alias (b'\n' ∷ rest) h.alias_word,
          drop-length (alias_text p.alias) (b';' ∷ b'\n' ∷ rest),
        )
        refl

  -- A keyword is found at once, not behind the `;` of the declaration before, and not in nothing.
  module _ (keyword : Text) (found : (s : Text) → find_behind keyword (keyword ++ s) ≡ some s)
      (behind : (s : Text) → find_behind keyword (b';' ∷ b'\n' ∷ s) ≡ find_behind keyword s)
      (ends : find_behind keyword [] ≡ none) (no_slash : Without b'/' keyword) where
    rounds_behind :
        (fuel : ℕ) (s : Text) → rounds u fuel keyword (b';' ∷ b'\n' ∷ s) ≡ rounds u fuel keyword s
    unfolding rounds round
    rounds_behind zero s = refl
    rounds_behind (suc fuel) s = rw (rounds, round, behind s) refl

    rounds-prototypes_text :
        (fuel : ℕ) (ps : List Prototype)
        → All (IsPrototype u) ps
        → length ps ≤ fuel
        → rounds u fuel keyword (prototypes_text keyword ps) ≡ map declared ps
    unfolding rounds round
    rounds-prototypes_text zero [] h enough = refl
    rounds-prototypes_text (suc fuel) [] h enough = rw (rounds, round, ends) refl
    rounds-prototypes_text zero (p ∷ ps) h enough = ground arith
    rounds-prototypes_text (suc fuel) (p ∷ ps) h enough =
        rw
          (
            rounds,
            round,
            found (prototype_text p (prototypes_text keyword ps)),
            declared_at-prototype p (prototypes_text keyword ps) h.0,
          )
          (ap (◌∷◌ (declared p)) (
            rounds_behind fuel (prototypes_text keyword ps)
            ∙ rounds-prototypes_text fuel ps h.1 (omega arith)))

    prototypes_text-Without :
        (ps : List Prototype) → All (IsPrototype u) ps → Without b'/' (prototypes_text keyword ps)
    unfolding is_word is_ascii_alphanumeric
    prototypes_text-Without [] h = tt
    prototypes_text-Without (p ∷ ps) h =
        let P : ℕ → Type 0 = λ d. (d == b'/') ≡ false in
        let tail = alias_text p.alias ++ b';' ∷ b'\n' ∷ prototypes_text keyword ps in
        All-append P keyword (prototype_text p (prototypes_text keyword ps)) no_slash (
          All-append P (head_text p) (b'(' ∷ (list_text p.parts ++ b')' ∷ tail))
            (head_text-Without u p h.0 b'/' refl refl)
            (
              refl,
              All-append P (list_text p.parts) (b')' ∷ tail)
                  (list_text-All u P (λ d w. word_other b'/' d refl w) refl refl refl refl refl refl
                    refl p.parts h.0.parts_read)
                  (
                    refl,
                    All-append P (alias_text p.alias) (b';' ∷ b'\n' ∷ prototypes_text keyword ps)
                        (alias-Without b'/' p.alias refl refl refl h.0.alias_word)
                        (refl, (refl, prototypes_text-Without ps h.1)),
                  ),
            ))

    length-prototypes_text : (ps : List Prototype) → length ps ≤ length (prototypes_text keyword ps)
    length-prototypes_text [] = omega arith
    length-prototypes_text (p ∷ ps) =
        let tail = alias_text p.alias ++ b';' ∷ b'\n' ∷ prototypes_text keyword ps in
        omega (
          arith,
          length-prototypes_text ps,
          length-append keyword (prototype_text p (prototypes_text keyword ps)),
          length-append (head_text p) (b'(' ∷ (list_text p.parts ++ b')' ∷ tail)),
          length-append (list_text p.parts) (b')' ∷ tail),
          length-append (alias_text p.alias) (b';' ∷ b'\n' ∷ prototypes_text keyword ps),
        )

    parse_declarations-prototypes_text :
        (ps : List Prototype)
        → All (IsPrototype u) ps
        → parse_declarations u (prototypes_text keyword ps) keyword ≡ map declared ps
    unfolding parse_declarations
    parse_declarations-prototypes_text ps h =
        let s = prototypes_text keyword ps in
        let clean : without_comments s ≡ s =
          ap without_comments (sym (append-nil s))
          ∙ without_comments-print (plain s ∷ []) (prototypes_text-Without ps h, tt)
          ∙ append-nil s in
        ap (λ t. rounds u (length t) keyword t) clean
        ∙ rounds-prototypes_text (length s) ps h (length-prototypes_text ps)

  -- Where tags and names are words of ASCII letters, digits and `_`, tags are in lower case and no
  -- argument starts with `const`: `parse` reads each declaration of natives from its text
  -- `native tag:name(list) = alias;`, whose list has arguments and `...` between commas and whose alias
  -- may be missing, with its tag, name, arguments, openness and alias, in the order of the text;
  -- `parse_forwards` reads the same with `forward`.
  pub parse-prototypes_text :
      (ps : List Prototype)
      → All (IsPrototype u) ps
      → (parse u (prototypes_text (codes "native ") ps) ≡ map declared ps)
        × (parse_forwards u (prototypes_text (codes "forward ") ps) ≡ map declared ps)
  unfolding parse parse_forwards find_behind strip_prefix
  parse-prototypes_text ps h = (
    parse_declarations-prototypes_text (codes "native ") (λ s. refl) (λ s. refl) refl
        (refl, (refl, (refl, (refl, (refl, (refl, (refl, tt))))))) ps h,
    parse_declarations-prototypes_text (codes "forward ") (λ s. refl) (λ s. refl) refl
        (refl, (refl, (refl, (refl, (refl, (refl, (refl, (refl, tt)))))))) ps h,
  )
