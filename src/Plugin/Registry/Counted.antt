-- ===== src/Plugin/Registry/Counted.antt =====
-- How often a script stands in the list (crates/samp/src/runtime.rs).
use rust_samp.Base.{
  ℕ, zero, suc, ◌+◌, ◌≡◌, ◌↔◌, refl, sym, ◌∙◌, inl, inr, Option, none, some, List, [], ◌∷◌, ◌++◌,
  map, get_elem?, ◌==◌, if◌then◌else◌, arith, Option-cases,
}
use rust_samp.Base.Search.{find, position}
use rust_samp.Plugin.Runtime.{Script, Runtime, amx_exports}
use rust_samp.Plugin.Registry.{second, last_first, swap_remove, insert_amx, remove_amx, get, loaded}

abbrev pub one_if : ℕ → ℕ → ℕ
one_if x y = if x == y then 1 else 0

-- How often `x` stands in the list.
abbrev pub times : ℕ → List ℕ → ℕ
times x [] = 0
times x (y ∷ ys) = one_if x y + times x ys

pub times-append : (x : ℕ) (ys zs : List ℕ) → times x (ys ++ zs) ≡ times x ys + times x zs
times-append x [] zs = omega arith
times-append x (y ∷ ys) zs = omega (arith, times-append x ys zs)

abbrev pub idents : List Script → List ℕ
idents scripts = map (λ (s : Script). s.ident) scripts

times-second :
    (x : ℕ) (s : Script) (ss : List Script)
    → times x (idents (second s ss)) ≡ times x (idents (s ∷ ss))
unfolding second
times-second x s [] = refl
times-second x s (last ∷ rest) = omega arith

times-last_first :
    (x : ℕ) (s : Script) (ss : List Script)
    → times x (idents (last_first s ss)) ≡ times x (idents (s ∷ ss))
unfolding last_first
times-last_first x s [] = refl
times-last_first x s (t ∷ ss) =
    omega (arith, times-second x s (last_first t ss), times-last_first x t ss)

-- What a search finds is taken out once.
times-swap_remove :
    (x amx at : ℕ) (ss : List Script)
    → position (λ (s : Script). s.ident == amx) ss ≡ some at
    → times x (idents ss) ≡ times x (idents (swap_remove ss at)) + one_if x amx
unfolding swap_remove position
times-swap_remove x amx at [] e = cc
times-swap_remove x amx zero (s ∷ []) e = ground arith
times-swap_remove x amx zero (s ∷ t ∷ ss) e = ground (arith, times-last_first x t ss)
times-swap_remove x amx (suc at) (s ∷ ss) e = ground (arith, times-swap_remove x amx at ss)

times-missing :
    (amx : ℕ) (ss : List Script)
    → position (λ (s : Script). s.ident == amx) ss ≡ none
    → times amx (idents ss) ≡ 0
unfolding position
times-missing amx [] e = refl
times-missing amx (s ∷ ss) e = ground (arith, times-missing amx ss)

-- What `remove_amx` found, for the count of `x`.
abbrev pub removed : ℕ → ℕ → Option Script → ℕ
removed x amx none = 0
removed x amx (some s) = one_if x amx

position_found :
    (amx at : ℕ) (ss : List Script)
    → position (λ (s : Script). s.ident == amx) ss ≡ some at
    → (s : Script) × (get_elem? ss at ≡ some s) × (s.ident ≡ amx)
unfolding position
position_found amx at [] e = cc
position_found amx zero (s ∷ ss) e = (s, refl, ground arith)
position_found amx (suc at) (s ∷ ss) e = position_found amx at ss (ground arith)

times-last :
    (x : ℕ) (s : Script) (ss : List Script)
    → times x (idents (ss ++ s ∷ [])) ≡ times x (idents ss) + one_if x s.ident
times-last x s [] = omega arith
times-last x s (t ∷ ss) = omega (arith, times-last x s ss)

-- `insert_amx` adds the script, and `remove_amx` takes out the script that it gives, and nothing else.
pub times-insert_amx :
    (x amx : ℕ) (rt : Runtime)
    → times x (loaded (insert_amx amx rt)) ≡ times x (loaded rt) + one_if x amx
unfolding insert_amx loaded
times-insert_amx x amx rt =
    times-last x (record { ident = amx; fn_table = amx_exports rt }) rt.amx_list

pub times-remove_amx :
    (x amx : ℕ) (rt : Runtime)
    → times x (loaded rt)
      ≡ times x (loaded (remove_amx amx rt).1) + removed x amx (remove_amx amx rt).0
unfolding remove_amx loaded
times-remove_amx x amx rt =
    elim (Option-cases (position (λ (s : Script). s.ident == amx) rt.amx_list)) [
      | inl missing ↦ rw (remove_amx, missing) (omega arith)
      | inr (at, found) ↦
          let (s, e, same) = position_found amx at rt.amx_list found in
          rw (remove_amx, found, e) (times-swap_remove x amx at rt.amx_list found)
    ]

find_missing :
    (amx : ℕ) (ss : List Script)
    → (find (λ (s : Script). s.ident == amx) ss ≡ none) ↔ (times amx (idents ss) ≡ 0)
unfolding find
find_missing amx [] = (λ e. refl, λ e. refl)
find_missing amx (s ∷ ss) =
    (λ e. ground (arith, find_missing amx ss), λ e. ground (arith, find_missing amx ss))

-- `get` finds nothing exactly where the script is not in the list.
pub get_missing : (amx : ℕ) (rt : Runtime) → (get amx rt ≡ none) ↔ (times amx (loaded rt) ≡ 0)
unfolding get loaded
get_missing amx rt = find_missing amx rt.amx_list

-- Of the runtime, only the list of the scripts changed.
abbrev pub OnlyScripts : Runtime → Runtime → Type 0
OnlyScripts rt rt' = (scripts : List Script) × (rt' ≡ record rt { amx_list = scripts })

pub insert_amx-OnlyScripts : (amx : ℕ) (rt : Runtime) → OnlyScripts rt (insert_amx amx rt)
unfolding insert_amx
insert_amx-OnlyScripts amx rt =
    (rt.amx_list ++ record { ident = amx; fn_table = amx_exports rt } ∷ [], refl)

pub remove_amx-OnlyScripts : (amx : ℕ) (rt : Runtime) → OnlyScripts rt (remove_amx amx rt).1
unfolding remove_amx
remove_amx-OnlyScripts amx rt =
    elim (Option-cases (position (λ (s : Script). s.ident == amx) rt.amx_list)) [
      | inl missing ↦ (rt.amx_list, rw (remove_amx, missing) refl)
      | inr (at, found) ↦ (swap_remove rt.amx_list at, rw (remove_amx, found) refl)
    ]

ident_at :
    (amx : ℕ) (rt : Runtime) (s : Script) (o : Option ℕ)
    → position (λ (t : Script). t.ident == amx) rt.amx_list ≡ o
    → (elim o as (λ x. Option Script × Runtime) [
      | none ↦ (none, rt)
      | some at ↦ (get_elem? rt.amx_list at, record rt { amx_list = swap_remove rt.amx_list at })
    ]).0
      ≡ some s
    → s.ident ≡ amx
ident_at amx rt s none p e = cc
ident_at amx rt s (some at) p e =
    let (t, here, same) = position_found amx at rt.amx_list p in
    let both : some t ≡ some s = sym here ∙ e in cc

-- What is removed is the script asked for.
pub remove_amx-ident :
    (amx : ℕ) (rt : Runtime) (s : Script) → (remove_amx amx rt).0 ≡ some s → s.ident ≡ amx
unfolding remove_amx
remove_amx-ident amx rt s e =
    ident_at amx rt s (position (λ (t : Script). t.ident == amx) rt.amx_list) refl e
