-- ===== src/Debug/Reader/Reads.antt =====
-- What the reader of crates/samp-sdk/src/debug/parse.rs gives on bytes that are known: each method
-- reads exactly the bytes that encode its result.
use rust_samp.Base.Slices.{drop-nil}
use rust_samp.Base.{
  ℕ, zero, suc, ◌+◌, ◌-◌, ◌/◌, ◌%◌, ◌≡◌, refl, sym, subst, ap, ◌∙◌, ◌≢◌, some, List, [], ◌∷◌, ◌++◌,
  map, append_assoc, append-nil, length, length-append, length-drop, get_elem?, drop, drop-length,
  take-length, All, le→leb, arith,
}
use rust_samp.Debug.Reader.{
  ok, Reader, M, ◌>>=◌, pure, slice, take_bytes, u8, u16, i16, count, u32, i32, le_bytes, find_zero,
  cstr, repeat,
}

drop-drop : {A : Type 0} (n m : ℕ) (xs : List A) → drop (n + m) xs ≡ drop m (drop n xs)
drop-drop zero m xs = ap (λ k. drop k xs) (omega arith)
drop-drop (suc n) m [] = drop-nil (suc n + m) ∙ sym (drop-nil m)
drop-drop (suc n) m (x ∷ xs) =
    let e : suc n + m ≡ suc (n + m) = omega arith in ap (λ k. drop k (x ∷ xs)) e ∙ drop-drop n m xs

-- `m` reads the bytes `bs` wherever they stand, and gives `a`.
pub record Reads {A : Type 0} (m : M A) (bs : List ℕ) (a : A) : Type 0 where
  pub reads :
      (r : Reader) (rest : List ℕ)
      → drop r.pos r.buf ≡ bs ++ rest
      → m r ≡ ok (a, record r { pos = r.pos + length bs })

-- After `bs` the reader stands before what follows.
pub after :
    (bs rest : List ℕ) (r : Reader)
    → drop r.pos r.buf ≡ bs ++ rest
    → drop (r.pos + length bs) r.buf ≡ rest
after bs rest r e =
    drop-drop r.pos (length bs) r.buf ∙ ap (drop (length bs)) e ∙ drop-length bs rest

pub bind-ok :
    {A B : Type 0} (m : M A) (f : A → M B) (r r' : Reader) (a : A)
    → m r ≡ ok (a, r')
    → (m >>= f) r ≡ f a r'
unfolding ◌>>=◌
bind-ok m f r r' a h = rw (h, ◌>>=◌)

pub pure-Reads : {A : Type 0} (a : A) → Reads (pure a) [] a
unfolding pure
pure-Reads a = record {
  reads = λ r rest e. ap (λ (p : ℕ). ok (a, record r { pos = p })) (omega arith);
}

module _ {A B : Type 0} where
  pub bind-Reads :
      (f : A → M B) {m : M A} {bs cs : List ℕ} {a : A} {b : B}
      → Reads m bs a
      → Reads (f a) cs b
      → Reads (m >>= f) (bs ++ cs) b
  bind-Reads f {m} {bs} {cs} {a} {b} h k = record {
    reads = λ r rest e.
        let e' = e ∙ append_assoc bs cs rest in
        let r' : Reader = record r { pos = r.pos + length bs } in
        bind-ok m f r r' a (h.reads r (cs ++ rest) e')
        ∙ k.reads r' rest (after bs (cs ++ rest) r e')
        ∙ ap (λ (p : ℕ). ok (b, record r { pos = p })) (omega (arith, length-append bs cs));
  }

  -- The last step of a block takes no more bytes.
  pub map-Reads :
      (f : A → M B) {m : M A} {bs : List ℕ} {a : A} {b : B}
      → Reads m bs a
      → Reads (f a) [] b
      → Reads (m >>= f) bs b
  map-Reads f {m} {bs} {a} {b} h k =
      subst (λ l. Reads (m >>= f) l b) (append-nil bs) (bind-Reads f h k)

-- Where the bytes at `pos` begin with `bs`, the buffer reaches past them.
pub fits :
    (bs rest buf : List ℕ) (pos : ℕ)
    → drop pos buf ≡ bs ++ rest
    → length bs + length rest ≡ length buf - pos
fits bs rest buf pos e = omega (arith, ap length e, length-append bs rest, length-drop pos buf)

slice-Reads :
    (b : ℕ) (bs rest buf : List ℕ) (pos n : ℕ)
    → length (b ∷ bs) ≡ n
    → drop pos buf ≡ (b ∷ bs) ++ rest
    → slice buf pos (pos + n) ≡ some (b ∷ bs)
slice-Reads b bs rest buf pos n l e =
    let n' : pos + n - pos ≡ length (b ∷ bs) = omega (arith, l) in
    rw (le→leb (pos + n) (length buf) (omega (arith, fits (b ∷ bs) rest buf pos e, l)), e, n')
      (ap some (take-length (b ∷ bs) rest))

take_bytes-Reads :
    (b : ℕ) (bs : List ℕ) (n : ℕ) → length (b ∷ bs) ≡ n → Reads (take_bytes n) (b ∷ bs) (b ∷ bs)
unfolding take_bytes
take_bytes-Reads b bs n l = record {
  reads = λ r rest e.
      rw (slice-Reads b bs rest r.buf r.pos n l e, take_bytes)
        (ap (λ (k : ℕ). ok (b ∷ bs, record r { pos = r.pos + k })) (sym l));
}

-- The little-endian bytes of a number.
abbrev pub le16 : ℕ → List ℕ
le16 x = (x % 256) ∷ (x / 256) ∷ []

abbrev pub le32 : ℕ → List ℕ
le32 x = (x % 256) ∷ (x / 256 % 256) ∷ (x / 65_536 % 256) ∷ (x / 16_777_216) ∷ []

read_number :
    (n b x : ℕ) (bs : List ℕ)
    → length (b ∷ bs) ≡ n
    → le_bytes (b ∷ bs) ≡ x
    → Reads (take_bytes n >>= λ s. pure (le_bytes s)) (b ∷ bs) x
read_number n b x bs l e =
    map-Reads _ (take_bytes-Reads b bs n l)
      (subst (Reads (pure (le_bytes (b ∷ bs))) []) e (pure-Reads _))

pub u16-Reads : (x : ℕ) → Reads u16 (le16 x) x
unfolding u16 le_bytes
u16-Reads x = read_number 2 _ x _ refl (omega arith)

pub i16-Reads : (x : ℕ) → Reads i16 (le16 x) x
unfolding i16 le_bytes
i16-Reads x = read_number 2 _ x _ refl (omega arith)

pub count-Reads : (x : ℕ) → Reads count (le16 x) x
unfolding count
count-Reads x = u16-Reads x

pub u32-Reads : (x : ℕ) → Reads u32 (le32 x) x
unfolding u32 le_bytes
u32-Reads x = read_number 4 _ x _ refl (omega arith)

pub i32-Reads : (x : ℕ) → Reads i32 (le32 x) x
unfolding i32 le_bytes
i32-Reads x = read_number 4 _ x _ refl (omega arith)

get_elem?-drop : (n b : ℕ) (xs rest : List ℕ) → drop n xs ≡ b ∷ rest → get_elem? xs n ≡ some b
get_elem?-drop zero b [] rest e = cc
get_elem?-drop zero b (x ∷ xs) rest e = cc
get_elem?-drop (suc n) b [] rest e = cc
get_elem?-drop (suc n) b (x ∷ xs) rest e = get_elem?-drop n b xs rest e

pub u8-Reads : (b : ℕ) → Reads u8 (b ∷ []) b
unfolding u8
u8-Reads b = record { reads = λ r rest e. rw (get_elem?-drop r.pos b r.buf rest e, u8) }

-- A name is printed as its bytes, none of them zero, and a zero.
abbrev pub IsName : List ℕ → Type 0
IsName = All (λ b. b ≢ 0)

find_zero-name :
    (name rest : List ℕ) (at : ℕ)
    → IsName name
    → find_zero (name ++ 0 ∷ rest) at ≡ some (at + length name)
unfolding find_zero
find_zero-name [] rest at h = ap some (omega arith)
find_zero-name (b ∷ name) rest at h = ground (arith, find_zero-name name rest (at + 1) h.1)

pub cstr-Reads : (name : List ℕ) → IsName name → Reads cstr (name ++ 0 ∷ []) name
unfolding cstr
cstr-Reads name h = record {
  reads = λ r rest e.
      let e' = e ∙ append_assoc name (0 ∷ []) rest in
      let n : r.pos + length name - r.pos ≡ length name = omega arith in
      rw (e', find_zero-name name rest r.pos h, cstr)
        (rw (n, e', take-length name (0 ∷ rest))
          (ap (λ (p : ℕ). ok (name, record r { pos = p }))
            (omega (arith, length-append name (0 ∷ [])))));
}

-- The entries of a table, one after another.
abbrev pub print_all : {A : Type 0} → (A → List ℕ) → List A → List ℕ
print_all print [] = []
print_all print (x ∷ xs) = print x ++ print_all print xs

-- A table of entries that the body reads back.
pub repeat-Reads :
    {A B : Type 0} (m : M B) (print : A → List ℕ) (view : A → B) (xs : List A)
    → All (λ x. Reads m (print x) (view x)) xs
    → Reads (repeat (length xs) m) (print_all print xs) (map view xs)
unfolding repeat
repeat-Reads m print view [] h = pure-Reads []
repeat-Reads m print view (x ∷ xs) h =
    bind-Reads _ h.0
      (map-Reads _ (repeat-Reads m print view xs h.1) (pure-Reads (map view (x ∷ xs))))
