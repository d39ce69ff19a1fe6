-- ===== src/Debug/Opcode/Decode.antt =====
-- Decoding what crates/samp-sdk/src/debug/opcode.rs was given the table for.
use rust_samp.Base.{
  ℕ, zero, suc, ◌+◌, ◌≤◌, ◌<◌, ◌≡◌, refl, subst, ◌≢◌, ◌⊎◌, inl, inr, false, none, some, List, [],
  ◌∷◌, All, length, get_elem?, ltb, if◌then◌else◌, Option-cases, arith,
}
use rust_samp.Base.Words.{sign_bit}
use rust_samp.Debug.Opcode.{
  op_params, op_num_opcodes, op_variable_length, to_index, operand_cells, lookup, to_opcode,
  insert_all, new, is_nil, is_identity, decode,
}

-- No address stands twice.
abbrev pub Distinct : List ℕ → Type 0
Distinct [] = Unit
Distinct (a ∷ l) = All (λ b. b ≢ a) l × Distinct l

-- Inserting other keys leaves a key alone.
lookup-insert_all_ne :
    (op k : ℕ) (table : List ℕ) (m : List (ℕ × ℕ))
    → All (λ b. b ≢ k) table
    → lookup k (insert_all op table m) ≡ lookup k m
unfolding insert_all lookup
lookup-insert_all_ne op k [] m h = refl
lookup-insert_all_ne op k (a ∷ table) m h =
    ground (arith, lookup-insert_all_ne (op + 1) k table ((a, to_opcode op) ∷ m) h.1)

lookup-insert_all :
    (op i a : ℕ) (table : List ℕ) (m : List (ℕ × ℕ))
    → Distinct table
    → get_elem? table i ≡ some a
    → lookup a (insert_all op table m) ≡ some (to_opcode (op + i))
unfolding insert_all lookup
lookup-insert_all op i a [] m d e = cc
lookup-insert_all op zero a (b ∷ table) m d e =
    ground (arith, lookup-insert_all_ne (op + 1) b table ((b, to_opcode op) ∷ m) d.0)
lookup-insert_all op (suc i) a (b ∷ table) m d e =
    let n : op + 1 + i ≡ op + suc i = omega arith in
    rw (← n) (lookup-insert_all (op + 1) i a table ((b, to_opcode op) ∷ m) d.1 e)

insert_all-ne-nil :
    (op : ℕ) (table : List ℕ) (m : List (ℕ × ℕ))
    → is_nil m ≡ false
    → is_nil (insert_all op table m) ≡ false
unfolding insert_all is_nil
insert_all-ne-nil op [] m h = h
insert_all-ne-nil op (a ∷ table) m h = insert_all-ne-nil (op + 1) table _ refl

-- With a handler table of distinct addresses, the address of the i-th handler decodes to opcode i.
pub decode-new :
    (table : List ℕ) (i addr : ℕ)
    → Distinct table
    → get_elem? table i ≡ some addr
    → i < sign_bit
    → decode (new (some table)) addr ≡ some i
unfolding decode new is_identity is_nil to_opcode insert_all lookup
decode-new [] i addr d e h = cc
decode-new (a ∷ table) i addr d e h = ground (
  arith,
  lookup-insert_all 0 i addr (a ∷ table) [] d e,
  insert_all-ne-nil 1 table ((a, to_opcode 0) ∷ []) refl,
)

-- Without a table, and for a small cell that no handler has for an address, a cell is its own
-- opcode; any other cell decodes to nothing.
pub decode_plain :
    (table : List ℕ) (raw : ℕ)
    → All (λ a. a ≢ raw) table
    → table ≢ []
    → (decode (new none) raw ≡ some raw)
      × (decode (new (some table)) raw ≡ (if ltb raw op_num_opcodes then some raw else none))
unfolding decode new is_identity is_nil insert_all lookup
decode_plain [] raw h n = absurd (n refl)
decode_plain (a ∷ table) raw h n = (
  refl,
  ground (
    arith,
    lookup-insert_all_ne 0 raw (a ∷ table) [] h,
    insert_all-ne-nil 1 table ((a, to_opcode 0) ∷ []) refl,
  ),
)

get_elem?-All :
    (P : ℕ → Type 0) (xs : List ℕ) (i x : ℕ)
    → All P xs
    → get_elem? xs i ≡ some x
    → P x × (i < length xs)
get_elem?-All P [] i x h e = cc
get_elem?-All P (y ∷ xs) zero x h e = (subst P (ground arith) h.0, omega arith)
get_elem?-All P (y ∷ xs) (suc i) x h e =
    let r = get_elem?-All P xs i x h.1 e in (r.0, omega (arith, r.1))

table_entries : All (λ p. (p ≤ 5) ⊎ (p ≡ op_variable_length)) op_params
unfolding op_params
table_entries = omega arith

length-op_params : length op_params ≡ op_num_opcodes
unfolding op_params
length-op_params = refl

-- An operand count is given for an opcode of the table only, and is at most five.
pub operand_cells_bounds :
    (opcode n : ℕ) → operand_cells opcode ≡ some n → (opcode < op_num_opcodes) × (n ≤ 5)
unfolding operand_cells to_index
operand_cells_bounds opcode n e = elim (Option-cases (get_elem? op_params opcode)) [
  | inl past ↦ absurd (ground arith)
  | inr (p, found) ↦
      let r =
        get_elem?-All (λ p. (p ≤ 5) ⊎ (p ≡ op_variable_length)) op_params opcode p table_entries
          found in
      (omega (arith, r.1, length-op_params), ground (arith, r.0))
]
