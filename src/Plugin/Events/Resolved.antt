-- ===== src/Plugin/Events/Resolved.antt =====
-- The tables of handlers (crates/samp/src/events.rs, runtime.rs) against the list of the events.
use rust_samp.Base.{
  ℕ, zero, suc, ◌≡◌, ◌≢◌, refl, ap, sym, ◌∙◌, inl, inr, Bool, true, false, not, Option, none, some,
  List, [], ◌∷◌, ◌++◌, append-nil, append_assoc, map, length, get_elem?, ◌==◌, ==_iff,
  if◌then◌else◌, arith, Bool-cases, Option-cases,
}
use rust_samp.Base.Words.{slt}
use rust_samp.Base.Search.{find, select}
use rust_samp.Base.Text.{Text}
use rust_samp.Plugin.Runtime.{Runtime, EventInfo, EventTable}
use rust_samp.Plugin.Events.{
  push_at, by_index, watched, remove_resolved_events, set_resolved_events, resolve_events_for_amx,
  has_events, on_amx_load, on_amx_unload, resolved_handlers,
}

-- The handlers at an index; past the end of the table there are none.
abbrev pub handlers_at : ℕ → List (List ℕ) → List ℕ
handlers_at i [] = []
handlers_at zero (hs ∷ table) = hs
handlers_at (suc i) (hs ∷ table) = handlers_at i table

-- The handlers of the events whose public has the index, in the order of the events.
abbrev pub watching : (Text → Option ℕ) → ℕ → List EventInfo → List ℕ
watching find_public i [] = []
watching find_public i (event ∷ events) = elim (find_public event.name) [
  | none ↦ watching find_public i events
  | some j ↦
      if i == j
      then event.handler ∷ watching find_public i events
      else watching find_public i events
]

handlers_at-push_at :
    (i j h : ℕ) (table : List (List ℕ))
    → handlers_at i (push_at j h table)
      ≡ (if i == j then handlers_at i table ++ h ∷ [] else handlers_at i table)
unfolding push_at
handlers_at-push_at zero zero h [] = refl
handlers_at-push_at zero zero h (hs ∷ table) = refl
handlers_at-push_at (suc i) zero h [] = ground arith
handlers_at-push_at (suc i) zero h (hs ∷ table) = ground arith
handlers_at-push_at zero (suc j) h [] = ground arith
handlers_at-push_at zero (suc j) h (hs ∷ table) = ground arith
handlers_at-push_at (suc i) (suc j) h [] = ground (arith, handlers_at-push_at i j h [])
handlers_at-push_at (suc i) (suc j) h (hs ∷ table) = ground (arith, handlers_at-push_at i j h table)

-- One event of the loop.
handlers_at-event :
    (found : Option ℕ) (i h : ℕ) (table : List (List ℕ)) (rest : List ℕ)
    → slt i 0 ≡ false
    → handlers_at i (elim found as (λ x. List (List ℕ)) [
      | none ↦ table
      | some index ↦ if slt index 0 then table else push_at index h table
    ])
        ++ rest
      ≡ handlers_at i table ++ (elim found as (λ x. List ℕ) [
        | none ↦ rest
        | some j ↦ if i == j then h ∷ rest else rest
      ])
handlers_at-event none i h table rest ok = refl
handlers_at-event (some j) i h table rest ok = elim (Bool-cases (i == j)) [
  | inl same ↦
      let ok' : slt j 0 ≡ false = ground (arith, ==_iff i j, ok) in
      rw (ok', handlers_at-push_at i j h table, same)
        (append_assoc (handlers_at i table) (h ∷ []) rest)
  | inr other ↦ elim (Bool-cases (slt j 0)) [
    | inl p ↦ rw (p, other) refl
    | inr p ↦ rw (p, handlers_at-push_at i j h table, other) refl
  ]
]

handlers_at-by_index :
    (find_public : Text → Option ℕ) (i : ℕ)
    → slt i 0 ≡ false
    → (events : List EventInfo) (table : List (List ℕ))
    → handlers_at i (by_index find_public events table)
      ≡ handlers_at i table ++ watching find_public i events
unfolding by_index
handlers_at-by_index find_public i ok [] table = sym (append-nil (handlers_at i table))
handlers_at-by_index find_public i ok (event ∷ events) table =
    let table' : List (List ℕ) = elim (find_public event.name) [
      | none ↦ table
      | some index ↦ if slt index 0 then table else push_at index event.handler table
    ] in
    handlers_at-by_index find_public i ok events table'
    ∙ handlers_at-event (find_public event.name) i event.handler table
        (watching find_public i events) ok

get_elem?-watched :
    (i : ℕ) (table : List (List ℕ))
    → (elim (get_elem? (map watched table) i) as (λ x. Option (List ℕ)) [
      | none ↦ none
      | some handlers ↦ handlers
    ])
      ≡ watched (handlers_at i table)
unfolding watched
get_elem?-watched i [] = refl
get_elem?-watched zero (hs ∷ table) = refl
get_elem?-watched (suc i) (hs ∷ table) = get_elem?-watched i table

find-select-gone :
    (ident : ℕ) (tables : List (ℕ × EventTable))
    → find
        (λ (p : ℕ × EventTable). p.0 == ident)
        (select (λ (p : ℕ × EventTable). not (p.0 == ident)) tables)
      ≡ none
unfolding find select
find-select-gone ident [] = refl
find-select-gone ident ((owner, table) ∷ tables) = ground (arith, find-select-gone ident tables)

find-append :
    (ident : ℕ) (t : EventTable) (tables : List (ℕ × EventTable))
    → find (λ (p : ℕ × EventTable). p.0 == ident) tables ≡ none
    → find (λ (p : ℕ × EventTable). p.0 == ident) (tables ++ (ident, t) ∷ []) ≡ some (ident, t)
unfolding find
find-append ident t [] e = ground arith
find-append ident t ((owner, table) ∷ tables) e = ground (arith, find-append ident t tables)

-- What `resolved_handlers` does with the table it finds.
abbrev handlers_in : ℕ → Option (ℕ × EventTable) → Option (List ℕ)
handlers_in i none = none
handlers_in i (some (owner, table)) =
    if slt i 0 then none else elim (get_elem? table i) [ none ↦ none | some handlers ↦ handlers ]

resolved_handlers-find :
    (ident i : ℕ) (rt : Runtime)
    → resolved_handlers ident i rt
      ≡ handlers_in i (find (λ (p : ℕ × EventTable). p.0 == ident) rt.resolved_events)
unfolding resolved_handlers
resolved_handlers-find ident i rt =
    elim (Option-cases (find (λ (p : ℕ × EventTable). p.0 == ident) rt.resolved_events)) [
      | inl p ↦ rw (resolved_handlers, p) refl
      | inr ((owner, table), p) ↦ rw (resolved_handlers, p) refl
    ]

nothing-either-way : (b : Bool) → Path (Option (List ℕ)) none (if b then none else none)
nothing-either-way true = refl
nothing-either-way false = refl

select-other :
    (ident other : ℕ) (tables : List (ℕ × EventTable))
    → ident ≢ other
    → find
        (λ (p : ℕ × EventTable). p.0 == other)
        (select (λ (p : ℕ × EventTable). not (p.0 == ident)) tables)
      ≡ find (λ (p : ℕ × EventTable). p.0 == other) tables
unfolding find select
select-other ident other [] ne = refl
select-other ident other ((owner, table) ∷ tables) ne =
    ground (arith, select-other ident other tables ne)

append-other :
    (ident other : ℕ) (t : EventTable) (tables : List (ℕ × EventTable))
    → ident ≢ other
    → find (λ (p : ℕ × EventTable). p.0 == other) (tables ++ (ident, t) ∷ [])
      ≡ find (λ (p : ℕ × EventTable). p.0 == other) tables
unfolding find
append-other ident other t [] ne = ground arith
append-other ident other t ((owner, table) ∷ tables) ne =
    ground (arith, append-other ident other t tables ne)

set_resolved_events-cons :
    (ident : ℕ) (t : Option (List ℕ)) (table : EventTable) (rt : Runtime)
    → (set_resolved_events ident (t ∷ table) rt).resolved_events
      ≡ (remove_resolved_events ident rt).resolved_events ++ (ident, t ∷ table) ∷ []
unfolding set_resolved_events
set_resolved_events-cons ident t table rt = ground arith

remove_resolved_events-own :
    (ident i : ℕ) (rt : Runtime)
    → resolved_handlers ident i (remove_resolved_events ident rt) ≡ none
unfolding remove_resolved_events
remove_resolved_events-own ident i rt =
    rw (resolved_handlers-find ident i (remove_resolved_events ident rt))
      (ap (handlers_in i) (find-select-gone ident rt.resolved_events))

remove_resolved_events-other :
    (ident other i : ℕ) (rt : Runtime)
    → ident ≢ other
    → resolved_handlers other i (remove_resolved_events ident rt) ≡ resolved_handlers other i rt
unfolding remove_resolved_events
remove_resolved_events-other ident other i rt ne =
    rw
      (
        resolved_handlers-find other i (remove_resolved_events ident rt),
        resolved_handlers-find other i rt,
      )
      (ap (handlers_in i) (select-other ident other rt.resolved_events ne))

set_resolved_events-own :
    (ident i : ℕ) (table : List (List ℕ)) (rt : Runtime)
    → resolved_handlers ident i (set_resolved_events ident (map watched table) rt)
      ≡ (if slt i 0 then none else watched (handlers_at i table))
unfolding set_resolved_events remove_resolved_events watched
set_resolved_events-own ident i [] rt =
    rw (remove_resolved_events-own ident i rt) (nothing-either-way (slt i 0))
set_resolved_events-own ident i (hs ∷ table) rt =
    rw
      (
        resolved_handlers-find ident i (set_resolved_events ident (map watched (hs ∷ table)) rt),
        set_resolved_events-cons ident (watched hs) (map watched table) rt,
        find-append ident (map watched (hs ∷ table))
            (remove_resolved_events ident rt).resolved_events
            (find-select-gone ident rt.resolved_events),
        get_elem?-watched i (hs ∷ table),
      )
      refl

set_resolved_events-other :
    (ident other i : ℕ) (table : EventTable) (rt : Runtime)
    → ident ≢ other
    → resolved_handlers other i (set_resolved_events ident table rt) ≡ resolved_handlers other i rt
unfolding set_resolved_events remove_resolved_events
set_resolved_events-other ident other i [] rt ne = remove_resolved_events-other ident other i rt ne
set_resolved_events-other ident other i (t ∷ table) rt ne =
    rw
      (
        resolved_handlers-find other i (set_resolved_events ident (t ∷ table) rt),
        resolved_handlers-find other i rt,
        set_resolved_events-cons ident t table rt,
      )
      (ap (handlers_in i) (
        append-other ident other (t ∷ table) (remove_resolved_events ident rt).resolved_events ne
        ∙ select-other ident other rt.resolved_events ne))

watched-by_index :
    (b : Bool) (find_public : Text → Option ℕ) (i : ℕ) (events : List EventInfo)
    → slt i 0 ≡ b
    → Path
        (Option (List ℕ))
        (if b then none else watched (handlers_at i (by_index find_public events [])))
        (if b then none else watched (watching find_public i events))
watched-by_index true find_public i events e = refl
watched-by_index false find_public i events e =
    ap watched (handlers_at-by_index find_public i e events [])

-- Where the plugin watches events, a script that arrives has, at the index of a public, the handlers of the events that `amx_FindPublic` finds there, in the order in which they were registered, and none where there are none or the index is negative; the handlers of every other script stay.
pub on_amx_load-watching :
    (find_public : Text → Option ℕ) (amx i : ℕ) (rt : Runtime)
    → has_events rt ≡ true
    → (resolved_handlers amx i (on_amx_load find_public amx rt)
        ≡ (if slt i 0 then none else watched (watching find_public i rt.events)))
      × ((other : ℕ)
          → amx ≢ other
          → resolved_handlers other i (on_amx_load find_public amx rt)
            ≡ resolved_handlers other i rt)
unfolding on_amx_load resolve_events_for_amx
on_amx_load-watching find_public amx i rt some_event = (
  rw (some_event) (
      set_resolved_events-own amx i (by_index find_public rt.events []) rt
      ∙ watched-by_index (slt i 0) find_public i rt.events refl),
  λ other ne. rw (some_event) (
      set_resolved_events-other amx other i (map watched (by_index find_public rt.events [])) rt
        ne),
)

-- Where the plugin watches events, a script that leaves has no handler at any index, and the handlers of every other script stay.
pub on_amx_unload-none :
    (amx i : ℕ) (rt : Runtime)
    → has_events rt ≡ true
    → (resolved_handlers amx i (on_amx_unload amx rt) ≡ none)
      × ((other : ℕ)
          → amx ≢ other
          → resolved_handlers other i (on_amx_unload amx rt) ≡ resolved_handlers other i rt)
unfolding on_amx_unload
on_amx_unload-none amx i rt some_event = (
  rw (some_event) (remove_resolved_events-own amx i rt),
  λ other ne. rw (some_event) (remove_resolved_events-other amx other i rt ne),
)

-- Of the runtime, only the tables changed.
abbrev pub OnlyTables : Runtime → Runtime → Type 0
OnlyTables rt rt' =
    (tables : List (ℕ × EventTable)) × (rt' ≡ record rt { resolved_events = tables })

pub on_amx_load-OnlyTables :
    (find_public : Text → Option ℕ) (amx : ℕ) (rt : Runtime)
    → OnlyTables rt (on_amx_load find_public amx rt)
unfolding on_amx_load resolve_events_for_amx set_resolved_events remove_resolved_events
on_amx_load-OnlyTables find_public amx rt =
    only (has_events rt) (map watched (by_index find_public rt.events []))
  where
    set :
        (b : Bool) (rest : Runtime) (table : EventTable)
        → OnlyTables rest (
            if b
            then rest
            else record rest { resolved_events = rest.resolved_events ++ (amx, table) ∷ [] })
    set true rest table = (rest.resolved_events, refl)
    set false rest table = (rest.resolved_events ++ (amx, table) ∷ [], refl)

    only :
        (b : Bool) (table : EventTable)
        → OnlyTables rt (if b then set_resolved_events amx table rt else rt)
    only true table = set (length table == 0) (remove_resolved_events amx rt) table
    only false table = (rt.resolved_events, refl)

pub on_amx_unload-OnlyTables : (amx : ℕ) (rt : Runtime) → OnlyTables rt (on_amx_unload amx rt)
unfolding on_amx_unload remove_resolved_events
on_amx_unload-OnlyTables amx rt = only (has_events rt)
  where
    only : (b : Bool) → OnlyTables rt (if b then remove_resolved_events amx rt else rt)
    only true = ((remove_resolved_events amx rt).resolved_events, refl)
    only false = (rt.resolved_events, refl)
