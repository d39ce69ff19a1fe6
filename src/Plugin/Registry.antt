-- ===== src/Plugin/Registry.antt =====
-- crates/samp/src/amx.rs, and the scripts in runtime.rs and interlayer.rs: the scripts that are loaded.
pub mod Counted
use rust_samp.Base.{
  ℕ, zero, suc, Option, none, some, List, [], ◌∷◌, ◌++◌, map, length, get_elem?, ◌==◌,
  if◌then◌else◌,
}
use rust_samp.Base.Search.{find, position}
use rust_samp.Plugin.Runtime.{Script, Runtime, amx_exports}

module _ {A : Type 0} where
  second : A → List A → List A
  second x [] = x ∷ []
  second x (last ∷ rest) = last ∷ x ∷ rest

  -- The last element in front of the others.
  pub last_first : A → List A → List A
  last_first x [] = x ∷ []
  last_first x (y ∷ ys) = second x (last_first y ys)

  -- `Vec::swap_remove`, which puts the last element in the place of the one removed.
  pub swap_remove : List A → ℕ → List A
  swap_remove [] i = []
  swap_remove (x ∷ []) zero = []
  swap_remove (x ∷ y ∷ ys) zero = last_first y ys
  swap_remove (x ∷ xs) (suc i) = x ∷ swap_remove xs i

pub insert_amx : ℕ → Runtime → Runtime
insert_amx amx rt = record rt {
  amx_list = rt.amx_list ++ record { ident = amx; fn_table = amx_exports rt } ∷ [];
}

pub remove_amx : ℕ → Runtime → Option Script × Runtime
remove_amx amx rt = elim (position (λ (s : Script). s.ident == amx) rt.amx_list) [
  | none ↦ (none, rt)
  | some at ↦ (get_elem? rt.amx_list at, record rt { amx_list = swap_remove rt.amx_list at })
]

unfoldable pub get : ℕ → Runtime → Option Script
get ident rt = find (λ (s : Script). s.ident == ident) rt.amx_list

unfoldable pub loaded : Runtime → List ℕ
loaded rt = map (λ (s : Script). s.ident) rt.amx_list

pub count : Runtime → ℕ
count rt = length rt.amx_list

-- `none` is a native called before there is a runtime.
pub native_amx : ℕ → Option Runtime → Option Script × Option Runtime
native_amx amx none = (none, none)
native_amx amx (some rt) = elim (get amx rt) [
  | some script ↦ (some script, some rt)
  | none ↦ (get amx (insert_amx amx rt), some (insert_amx amx rt))
]
