-- ===== src/Debug/Parse/Print.antt =====
-- The layout of a debug block (crates/samp-sdk/src/debug/mod.rs and parse.rs), written as the bytes
-- of a decoded block: little-endian and packed, a header and six tables.
use rust_samp.Base.{ℕ, ◌+◌, ◌-◌, ◌%◌, ◌≤◌, ◌<◌, ◌≢◌, List, [], ◌∷◌, ◌++◌, length, All}
use rust_samp.Base.Words.{u32_mod, sign_bit}
use rust_samp.Debug.Types.{
  Ident, variable, reference, array, ref_array, function, VClass, global, local, argument, DbgFile,
  DbgLine, DbgSymDim, DbgSymbol, DbgTag, AmxDbg,
}
use rust_samp.Debug.Reader.Reads.{le16, le32, IsName, print_all}
use rust_samp.Debug.Parse.{amx_dbg_magic}

abbrev pub ident_byte : Ident → ℕ
ident_byte variable = 1
ident_byte reference = 2
ident_byte array = 3
ident_byte ref_array = 4
ident_byte function = 9
ident_byte (Ident.other b) = b

-- A byte that names no kind.
abbrev pub IsIdent : Ident → Type 0
IsIdent (Ident.other b) = (b ≢ 1) × (b ≢ 2) × (b ≢ 3) × (b ≢ 4) × (b ≢ 9)
IsIdent variable = Unit
IsIdent reference = Unit
IsIdent array = Unit
IsIdent ref_array = Unit
IsIdent function = Unit

abbrev pub vclass_byte : VClass → ℕ
vclass_byte global = 0
vclass_byte local = 1
vclass_byte argument = 2
vclass_byte (VClass.other b) = b

abbrev pub IsVClass : VClass → Type 0
IsVClass (VClass.other b) = (b ≢ 0) × (b ≢ 1) × (b ≢ 2)
IsVClass global = Unit
IsVClass local = Unit
IsVClass argument = Unit

abbrev pub print_file : DbgFile → List ℕ
print_file f = le32 f.address ++ (f.name ++ 0 ∷ [])

-- The compiler writes lines counted from zero.
abbrev pub print_line : DbgLine → List ℕ
print_line l = le32 l.address ++ le32 ((l.line + u32_mod - 1) % u32_mod)

-- The smallest integer is no line: adding one to a 32-bit integer never gives it.
abbrev pub IsLine : DbgLine → Type 0
IsLine l = (l.line < u32_mod) × (l.line ≢ sign_bit)

abbrev pub print_dim : DbgSymDim → List ℕ
print_dim d = le16 d.tag ++ le32 d.size

abbrev pub print_symbol : DbgSymbol → List ℕ
print_symbol s =
    le32 s.address
    ++ (le16 s.tag
        ++ (le32 s.codestart
            ++ (le32 s.codeend
                ++ (ident_byte s.ident ∷ []
                    ++ (vclass_byte s.vclass ∷ []
                        ++ (le16 (length s.dims)
                            ++ ((s.name ++ 0 ∷ []) ++ print_all print_dim s.dims)))))))

abbrev pub IsSymbol : DbgSymbol → Type 0
IsSymbol s = IsName s.name × IsIdent s.ident × IsVClass s.vclass

abbrev pub print_tag : DbgTag → List ℕ
print_tag t = le16 t.tag ++ (t.name ++ 0 ∷ [])

-- What the parser skips: the header's size and flags, the automatons (number, address, name) and
-- the states (number, automaton, name).
pub record Skipped : Type 0 where
  pub size : ℕ
  pub flags : ℕ
  pub automatons : List (ℕ × ℕ × List ℕ)
  pub states : List (ℕ × ℕ × List ℕ)

abbrev pub print_automaton : ℕ × ℕ × List ℕ → List ℕ
print_automaton a = le16 a.0 ++ (le32 a.1 ++ (a.2 ++ 0 ∷ []))

abbrev pub print_state : ℕ × ℕ × List ℕ → List ℕ
print_state a = le16 a.0 ++ (le16 a.1 ++ (a.2 ++ 0 ∷ []))

-- A block that a compiler could have written, and whose line count does not reach the sign bit of
-- the header's 16 bits (beyond that the parser guesses where the table ends).
pub record IsBlock (d : AmxDbg) (k : Skipped) : Type 0 where
  pub files : All (λ (f : DbgFile). IsName f.name) d.files
  pub lines : All IsLine d.lines
  pub few_lines : length d.lines ≤ 32_767
  pub symbols : All IsSymbol d.symbols
  pub tags : All (λ (t : DbgTag). IsName t.name) d.tags
  pub automatons : All (λ (a : ℕ × ℕ × List ℕ). IsName a.2) k.automatons
  pub states : All (λ (a : ℕ × ℕ × List ℕ). IsName a.2) k.states

abbrev pub print_tables : AmxDbg → Skipped → List ℕ
print_tables d k =
    print_all print_file d.files
    ++ (print_all print_line d.lines
        ++ (print_all print_symbol d.symbols
            ++ (print_all print_tag d.tags
                ++ (print_all print_automaton k.automatons ++ print_all print_state k.states))))

abbrev pub print : AmxDbg → Skipped → List ℕ
print d k =
    le32 k.size
    ++ (le16 amx_dbg_magic
        ++ (d.file_version ∷ []
            ++ (d.amx_version ∷ []
                ++ (le16 k.flags
                    ++ (le16 (length d.files)
                        ++ (le16 (length d.lines)
                            ++ (le16 (length d.symbols)
                                ++ (le16 (length d.tags)
                                    ++ (le16 (length k.automatons)
                                        ++ (le16 (length k.states) ++ print_tables d k))))))))))
