-- ===== src/Debug/Query/Functions.antt =====
-- Functions by address and by name, and lines by file, in crates/samp-sdk/src/debug/query.rs.
use rust_samp.Base.{
  ℕ, ◌≤◌, ◌<◌, ◌≡◌, refl, subst, ap, inl, inr, true, false, some, List, [], ◌∷◌, ◌&&◌, map, All,
  leb, leb→le, ltb, Bool-cases, Option-cases, arith,
}
use rust_samp.Base.Words.{bias}
use rust_samp.Base.Search.{
  find, find-Found, find-none, find-select, Split, All-split, All-map, select, All-select, minimum,
}
use rust_samp.Debug.Types.{AmxDbg, DbgSymbol, DbgLine, DbgFile}
use rust_samp.Debug.Query.{
  covers, is_named, code_lines, entry_address, lookup_function, function_address, file_name_matches,
  reaches, search_files, line_to_address, next_address,
}

minimum-All : (P : ℕ → Type 0) (xs : List ℕ) (m : ℕ) → All P xs → minimum xs ≡ some m → P m
unfolding minimum
minimum-All P [] m h e = cc
minimum-All P (x ∷ xs) m h e = elim (Option-cases (minimum xs)) [
  | inl empty ↦ subst P (ground arith) h.0
  | inr (k, least) ↦ elim (Bool-cases (ltb k x)) [
    | inl lt ↦ subst P (ground arith) (minimum-All P xs k h.1 least)
    | inr ge ↦ subst P (ground arith) h.0
  ]
]

All-mapped :
    {A : Type 0} (P : ℕ → Type 0) (f : A → ℕ) (xs : List A)
    → All (λ x. P (f x)) xs
    → All P (map f xs)
All-mapped P f [] h = tt
All-mapped P f (x ∷ xs) h = (h.0, All-mapped P f xs h.1)

code_lines-All :
    (s : DbgSymbol) (lines : List DbgLine)
    → All (λ a. (s.codestart ≤ a) × (a < s.codeend)) (code_lines s lines)
unfolding code_lines
code_lines-All s lines =
    All-mapped _ (λ (l : DbgLine). l.address) _
      (All-map _
        (λ (l : DbgLine) (h : (leb s.codestart l.address && ltb l.address s.codeend) ≡ true).
          (ground arith, ground arith))
        (All-select _ lines))

-- The entry address of a function with code lies in its code.
entry_address-covered :
    (s : DbgSymbol) (lines : List DbgLine)
    → s.codestart < s.codeend
    → (s.codestart ≤ entry_address s lines) × (entry_address s lines < s.codeend)
unfolding entry_address
entry_address-covered s lines h = elim (Option-cases (minimum (code_lines s lines))) [
  | inl empty ↦ rw (empty, entry_address) (omega arith)
  | inr (m, least) ↦
      rw (least, entry_address)
        (minimum-All _ (code_lines s lines) m (code_lines-All s lines) least)
]

covers-entry :
    (s : DbgSymbol) (lines : List DbgLine) (name : List ℕ)
    → is_named name s ≡ true
    → s.codestart < s.codeend
    → covers (entry_address s lines) s ≡ true
unfolding covers is_named
covers-entry s lines name named code =
    let b = entry_address-covered s lines code in ground (arith, b.0, b.1)

-- At an address that some function's symbol covers, `lookup_function` gives a name that the
-- symbols over the address all have.
lookup_function-covered :
    (d : AmxDbg) (name : List ℕ) (addr : ℕ) (s : DbgSymbol)
    → Split d.symbols s
    → covers addr s ≡ true
    → All (λ s. covers addr s ≡ true → s.name ≡ name) d.symbols
    → lookup_function d addr ≡ some name
unfolding lookup_function
lookup_function-covered d name addr s at hit same =
    elim (Option-cases (find (covers addr) d.symbols)) [
      | inl missed ↦
          let no =
            All-split _ at.before at.after s
              (subst (All (λ y. covers addr y ≡ false)) at.joined (find-none _ d.symbols missed)) in
          cc
      | inr (g, first) ↦
          let f = find-Found _ d.symbols g first in
          rw first (
            ap some (
              All-split _ f.split.before f.split.after g
                (subst (All (λ y. covers addr y ≡ true → y.name ≡ name)) f.split.joined same)
                f.passes))
    ]

-- The address of a named function, looked up as an address, gives the name back, where every
-- function symbol over that address has the name and each symbol of that name has code.
pub lookup_function-function_address :
    (d : AmxDbg) (name : List ℕ) (addr : ℕ)
    → function_address d name ≡ some addr
    → All (λ s. covers addr s ≡ true → s.name ≡ name) d.symbols
    → All (λ s. is_named name s ≡ true → s.codestart < s.codeend) d.symbols
    → lookup_function d addr ≡ some name
unfolding function_address
lookup_function-function_address d name addr e same code =
    elim (Option-cases (find (is_named name) d.symbols)) [
      | inl missed ↦ absurd (ground arith)
      | inr (s, first) ↦
          let f = find-Found _ d.symbols s first in
          let has_code =
            All-split _ f.split.before f.split.after s
              (subst (All (λ y. is_named name y ≡ true → y.codestart < y.codeend)) f.split.joined
                code)
              f.passes in
          let at : entry_address s d.lines ≡ addr = ground arith in
          lookup_function-covered d name addr s f.split
            (subst (λ a. covers a s ≡ true) at (covers-entry s d.lines name f.passes has_code)) same
    ]

-- What the code address of a source line is: the address of an entry of the line table with that
-- line or a later one, in the range of an instance of the file.
pub record InFile (files : List DbgFile) (lines : List DbgLine) (line : ℕ) (want : List ℕ)
    (addr : ℕ) : Type 0 where
  pub file : DbgFile
  pub instance_of : Split files file
  pub matches : file_name_matches file.name want ≡ true
  pub after_start : file.address ≤ addr
  pub before_next : addr < next_address instance_of.after
  pub entry : DbgLine
  pub listed : Split lines entry
  pub at_address : entry.address ≡ addr
  pub line_reached : bias line ≤ bias entry.line

in_first :
    (f : DbgFile) (files : List DbgFile) (lines : List DbgLine) (line : ℕ) (want : List ℕ)
    (l : DbgLine)
    → file_name_matches f.name want ≡ true
    → Split lines l
    → (leb f.address l.address && ltb l.address (next_address files)) ≡ true
    → reaches line l ≡ true
    → InFile (f ∷ files) lines line want l.address
unfolding reaches
in_first f files lines line want l named at range reached = record {
  file = f;
  instance_of = record { before = []; after = files; joined = refl };
  matches = named;
  after_start = ground arith;
  before_next = ground arith;
  entry = l;
  listed = at;
  at_address = refl;
  line_reached = leb→le _ _ reached;
}

in_later :
    (f : DbgFile) (files : List DbgFile) (lines : List DbgLine) (line : ℕ) (want : List ℕ)
    (addr : ℕ)
    → InFile files lines line want addr
    → InFile (f ∷ files) lines line want addr
in_later f files lines line want addr h = record {
  file = h.file;
  matches = h.matches;
  after_start = h.after_start;
  entry = h.entry;
  listed = h.listed;
  at_address = h.at_address;
  line_reached = h.line_reached;
  instance_of = record {
    before = f ∷ h.instance_of.before;
    after = h.instance_of.after;
    joined = ap (◌∷◌ f) h.instance_of.joined;
  };
  before_next = h.before_next;
}

search_files-InFile :
    (files : List DbgFile) (lines : List DbgLine) (line : ℕ) (want : List ℕ) (addr : ℕ)
    → search_files files lines line want ≡ some addr
    → InFile files lines line want addr
unfolding search_files
search_files-InFile [] lines line want addr e = cc
search_files-InFile (f ∷ files) lines line want addr e =
    let later = λ (h : search_files files lines line want ≡ some addr).
      in_later f files lines line want addr (search_files-InFile files lines line want addr h) in
    elim (Bool-cases (file_name_matches f.name want)) [
      | inl named ↦
          elim (Option-cases (
            find (reaches line) (
              select
                (λ (l : DbgLine). leb f.address l.address && ltb l.address (next_address files))
                lines))) [
                  | inl missed ↦ later (ground arith)
                  | inr (l, first) ↦
                      let (at, range, reached) = find-select _ (reaches line) lines l first in
                      subst (InFile (f ∷ files) lines line want) (ground arith)
                        (in_first f files lines line want l named at range reached)
                ]
      | inr other ↦ later (ground arith)
    ]

-- An address given for a line of a file is that of an entry of the line table with the line or a
-- later one, in the range of an instance of a file whose name matches.
pub line_to_address-InFile :
    (d : AmxDbg) (line : ℕ) (want : List ℕ) (addr : ℕ)
    → line_to_address d line (some want) ≡ some addr
    → InFile d.files d.lines line want addr
unfolding line_to_address
line_to_address-InFile d line want addr e = search_files-InFile d.files d.lines line want addr e
