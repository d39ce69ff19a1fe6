-- ===== src/Debug/Query/Lookup.antt =====
-- Looking up an address in a table sorted by address, as `lookup_line` and `lookup_file` of
-- crates/samp-sdk/src/debug/query.rs do.
use mathlib.Core.Option
use rust_samp.Base.{
  ℕ, ◌≤◌, ◌<◌, ◌≡◌, refl, sym, subst, ap, inl, inr, Option, none, some, List, [], ◌∷◌, All, leb,
  leb→le, Bool-cases, arith,
}
use rust_samp.Base.Search.{take_while, get_last?, Split, All-split, All-map, get_last?-cons}
use rust_samp.Debug.Types.{AmxDbg, DbgLine, DbgFile}
use rust_samp.Debug.Query.{lookup_line, lookup_file}

module _ {A : Type 0} (address : A → ℕ) where
  abbrev pub IsSorted : List A → Type 0
  IsSorted [] = Unit
  IsSorted (x ∷ xs) = All (λ y. address x ≤ address y) xs × IsSorted xs

  -- The entry of the table that an address falls to: the one with the greatest address that is
  -- not above it.
  pub record Floor (addr : ℕ) (xs : List A) (e : A) : Type 0 where
    pub entry : Split xs e
    pub below : address e ≤ addr
    pub greatest : All (λ x. address x ≤ addr → address x ≤ address e) xs

  -- The last of the entries at or below `addr`, before the first one above it.
  abbrev pub last_at : ℕ → List A → Option A
  last_at addr xs = get_last? (take_while (λ x. leb (address x) addr) xs)

  -- A table with no entry for the address, or with its floor.
  abbrev pub IsLast : ℕ → List A → Option A → Type 0
  IsLast addr xs none = All (λ x. addr < address x) xs
  IsLast addr xs (some e) = Floor addr xs e

  extend-IsLast :
      (addr : ℕ) (x : A) (xs : List A) (r : Option A)
      → address x ≤ addr
      → All (λ y. address x ≤ address y) xs
      → IsLast addr xs r
      → IsLast addr (x ∷ xs) (elim r [ none ↦ some x | some y ↦ some y ])
  extend-IsLast addr x xs none le sorted above = record {
    entry = record { before = []; after = xs; joined = refl };
    below = le;
    greatest =
        (λ h. omega arith, All-map xs (λ y (gt : addr < address y) h. absurd (omega arith)) above);
  }
  extend-IsLast addr x xs (some e) le sorted f = record {
    entry = record {
      before = x ∷ f.entry.before;
      after = f.entry.after;
      joined = ap (◌∷◌ x) f.entry.joined;
    };
    below = f.below;
    greatest = (
      λ _.
          All-split _ f.entry.before f.entry.after e
            (subst (All (λ y. address x ≤ address y)) f.entry.joined sorted),
      f.greatest,
    );
  }

  last_at-IsLast : (addr : ℕ) (xs : List A) → IsSorted xs → IsLast addr xs (last_at addr xs)
  unfolding take_while get_last?
  last_at-IsLast addr [] h = tt
  last_at-IsLast addr (x ∷ xs) h = elim (Bool-cases (leb (address x) addr)) [
    | inl le ↦ rw le (
        subst (IsLast addr (x ∷ xs))
          (sym (get_last?-cons x (take_while (λ y. leb (address y) addr) xs)))
          (extend-IsLast addr x xs (last_at addr xs) (leb→le _ _ le) h.0
            (last_at-IsLast addr xs h.1)))
    | inr gt ↦ rw gt (
        let above : addr < address x = ground arith in
        (above, All-map xs (λ y (le : address x ≤ address y). omega arith) h.0))
  ]

-- In a line table sorted by address, an address below every entry has no line, and any other has
-- the line of the entry with the greatest address not above it.
pub lookup_line-IsLast :
    (d : AmxDbg) (addr : ℕ)
    → IsSorted (λ (l : DbgLine). l.address) d.lines
    → (r : Option DbgLine) × (lookup_line d addr ≡ Option.map (λ (l : DbgLine). l.line) r)
      × IsLast (λ (l : DbgLine). l.address) addr d.lines r
unfolding lookup_line
lookup_line-IsLast d addr h =
    (last_at (λ (l : DbgLine). l.address) addr d.lines, refl, last_at-IsLast _ addr d.lines h)

-- The same of the file table and the name of a file.
pub lookup_file-IsLast :
    (d : AmxDbg) (addr : ℕ)
    → IsSorted (λ (f : DbgFile). f.address) d.files
    → (r : Option DbgFile) × (lookup_file d addr ≡ Option.map (λ (f : DbgFile). f.name) r)
      × IsLast (λ (f : DbgFile). f.address) addr d.files r
unfolding lookup_file
lookup_file-IsLast d addr h =
    (last_at (λ (f : DbgFile). f.address) addr d.files, refl, last_at-IsLast _ addr d.files h)
