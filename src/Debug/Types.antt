-- ===== src/Debug/Types.antt =====
-- crates/samp-sdk/src/debug/types.rs: the debug block once decoded. Numbers are the bit patterns of
-- the source's integers; a name is the list of its characters' code points.
use rust_samp.Base.{ℕ, Bool, true, false, List, ◌==◌, if◌then◌else◌, ltb}
use rust_samp.Base.Words.{sign_bit, wrapping_add}

pub data DbgError : Type 0 where
  truncated : DbgError
  bad_magic : ℕ → DbgError
  unterminated_name : DbgError

pub data Ident : Type 0 where
  variable reference array ref_array function : Ident
  other : ℕ → Ident

unfoldable pub ident_from_byte : ℕ → Ident
ident_from_byte b =
    if b == 1
    then variable
    else if b == 2
    then reference
    else if b == 3
    then array
    else if b == 4
    then ref_array
    else if b == 9
    then function
    else Ident.other b

pub data VClass : Type 0 where
  global local argument : VClass
  other : ℕ → VClass

unfoldable pub vclass_from_byte : ℕ → VClass
vclass_from_byte b =
    if b == 0 then global else if b == 1 then local else if b == 2 then argument else VClass.other b

pub record DbgFile : Type 0 where
  pub address : ℕ
  pub name : List ℕ

pub record DbgLine : Type 0 where
  pub address : ℕ
  pub line : ℕ

pub record DbgSymDim : Type 0 where
  pub tag : ℕ
  pub size : ℕ

pub record DbgSymbol : Type 0 where
  pub address : ℕ
  pub tag : ℕ
  pub codestart : ℕ
  pub codeend : ℕ
  pub ident : Ident
  pub vclass : VClass
  pub name : List ℕ
  pub dims : List DbgSymDim

-- `i32::try_from(address).unwrap_or(0)` of an unsigned address.
effective_from : VClass → ℕ → ℕ → ℕ
effective_from global address frm = if ltb address sign_bit then address else 0
effective_from _ address frm = wrapping_add frm address

unfoldable pub effective_address : DbgSymbol → ℕ → ℕ
unfolding effective_from
effective_address s frm = effective_from s.vclass s.address frm

is_array_ident : Ident → Bool
is_array_ident array = true
is_array_ident ref_array = true
is_array_ident _ = false

unfoldable pub is_array : DbgSymbol → Bool
unfolding is_array_ident
is_array s = is_array_ident s.ident

pub record DbgTag : Type 0 where
  pub tag : ℕ
  pub name : List ℕ

pub record AmxDbg : Type 0 where
  pub file_version : ℕ
  pub amx_version : ℕ
  pub files : List DbgFile
  pub lines : List DbgLine
  pub symbols : List DbgSymbol
  pub tags : List DbgTag
