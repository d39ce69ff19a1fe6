-- ===== src/Plugin/Lifecycle/Scripts.antt =====
-- Where the scripts that arrived are (crates/samp/src/interlayer.rs).
use rust_samp.Base.{
  ℕ, zero, suc, ◌+◌, ◌≡◌, refl, ap, ◌∙◌, inl, inr, some, List, [], ◌∷◌, ◌++◌, ◌==◌, arith, map,
  Option-cases, Bool-cases,
}
use rust_samp.Plugin.Runtime.{Runtime, Script}
use rust_samp.Plugin.Registry.{insert_amx, remove_amx, get, loaded}
use rust_samp.Plugin.Registry.Counted.{
  one_if, times, times-append, removed, times-insert_amx, times-remove_amx, remove_amx-ident,
  insert_amx-OnlyScripts, remove_amx-OnlyScripts,
}
use rust_samp.Plugin.Events
use rust_samp.Plugin.Events.Resolved.{on_amx_load-OnlyTables, on_amx_unload-OnlyTables}
use rust_samp.Plugin.Lifecycle.{
  pawn_component_uid, omp_query_component, sdk_warn, new_pawn_handler, add_pawn_event_handler,
  Effect, register, on_amx_load, on_amx_unload, add, State, Server, amx_load, amx_unload,
  native_call, inner_amx_load, store_exports, listen, omp_on_init, ready_exports, amx_load_all,
  ready_pending,
}
use rust_samp.Plugin.Lifecycle.Calls.{total, total-append, is_load, is_unload, is_add, told}

-- From one state to another, `a` more arrived: each is told to the plugin or waits; what the plugin was
-- told of or a native added is in the list, and what left the list was told.
abbrev pub Moved : ℕ → ℕ → State → State → Type 0
Moved x a st st' =
    (told (is_load x) st' + times x st'.rt.omp_pending_amx
      ≡ told (is_load x) st + times x st.rt.omp_pending_amx + a)
    × (told (is_unload x) st' + times x (loaded st'.rt) + told (is_load x) st + told (is_add x) st
        ≡ told (is_unload x) st
          + times x (loaded st.rt)
          + told (is_load x) st'
          + told (is_add x) st')

pub then_Moved : (x a b : ℕ) (s t u : State) → Moved x a s t → Moved x b t u → Moved x (a + b) s u
then_Moved x a b s t u (p, q) (p', q') = (omega (arith, p, p'), omega (arith, q, q'))

-- The counts of what one operation does; `p` and `q` are what it adds to the list and to what waits.
pub move :
    (x : ℕ) (st : State) (rt : Runtime) (effects : List Effect) (a : ℕ)
    → total (is_load x) effects + times x rt.omp_pending_amx ≡ times x st.rt.omp_pending_amx + a
    → total (is_unload x) effects + times x (loaded rt)
      ≡ times x (loaded st.rt) + total (is_load x) effects + total (is_add x) effects
    → Moved x a st (record { rt = rt; effects = st.effects ++ effects })
move x st rt effects a p q = (
  omega (arith, p, total-append (is_load x) st.effects effects),
  omega (
    arith,
    q,
    total-append (is_load x) st.effects effects,
    total-append (is_unload x) st.effects effects,
    total-append (is_add x) st.effects effects,
  ),
)

-- What leaves the list and the queue alone, and tells of no script.
pub still :
    (x : ℕ) (st : State) (rt : Runtime) (effects : List Effect)
    → total (is_load x) effects ≡ 0
    → total (is_unload x) effects ≡ 0
    → total (is_add x) effects ≡ 0
    → rt.omp_pending_amx ≡ st.rt.omp_pending_amx
    → rt.amx_list ≡ st.rt.amx_list
    → Moved x 0 st (record { rt = rt; effects = st.effects ++ effects })
unfolding loaded
still x st rt effects l u a p q = move x st rt effects 0 (omega (arith, l, ap (times x) p)) (
    omega (arith, l, u, a, ap (λ (ss : List Script). times x (map (λ (s : Script). s.ident) ss)) q))

pub same : (x : ℕ) (st : State) → Moved x 0 st st
same x st = (omega arith, omega arith)

pub amx_load-Moved :
    (x : ℕ) (server : Server) (amx : ℕ) (natives : List ℕ) (st : State)
    → Moved x (one_if x amx) st (amx_load server amx natives st)
unfolding amx_load loaded
amx_load-Moved x server amx natives st =
    let inserted = insert_amx amx st.rt in
    let rt = Events.on_amx_load (server.find_public amx) amx inserted in
    let (scripts, e) = insert_amx-OnlyScripts amx st.rt in
    let (tables, f) = on_amx_load-OnlyTables (server.find_public amx) amx inserted in
    let pending : rt.omp_pending_amx ≡ st.rt.omp_pending_amx =
      ap (λ (r : Runtime). r.omp_pending_amx) f ∙ ap (λ (r : Runtime). r.omp_pending_amx) e in
    let list : times x (loaded rt) ≡ times x (loaded inserted) =
      ap (λ (r : Runtime). times x (loaded r)) f in
    move x st rt (register amx natives ∷ on_amx_load amx ∷ []) (one_if x amx)
      (omega (arith, ap (times x) pending)) (omega (arith, list, times-insert_amx x amx st.rt))

pub amx_unload-Moved : (x amx : ℕ) (st : State) → Moved x 0 st (amx_unload amx st)
unfolding amx_unload loaded
amx_unload-Moved x amx st =
    let before = Events.on_amx_unload amx st.rt in
    let (tables, f) = on_amx_unload-OnlyTables amx st.rt in
    let (scripts, e) = remove_amx-OnlyScripts amx before in
    let rt = (remove_amx amx before).1 in
    let pending : rt.omp_pending_amx ≡ st.rt.omp_pending_amx =
      ap (λ (r : Runtime). r.omp_pending_amx) e ∙ ap (λ (r : Runtime). r.omp_pending_amx) f in
    let list : times x (loaded before) ≡ times x (loaded st.rt) =
      ap (λ (r : Runtime). times x (loaded r)) f in
    elim (Option-cases (remove_amx amx before).0) [
      | inl gone ↦
          rw (amx_unload, gone)
            (
              omega (arith, ap (times x) pending),
              omega (arith, list, times-remove_amx x amx before, ap (removed x amx) gone),
            )
      | inr (script, gone) ↦
          rw (amx_unload, gone)
            (move x st rt (on_amx_unload script.ident ∷ []) 0 (omega (arith, ap (times x) pending))
              (omega (
                arith,
                list,
                times-remove_amx x amx before,
                ap (removed x amx) gone,
                ap (one_if x) (remove_amx-ident amx before script gone),
              )))
    ]

pub native_call-Moved : (x amx : ℕ) (st : State) → Moved x 0 st (native_call amx st)
unfolding native_call loaded
native_call-Moved x amx st =
    let (scripts, e) = insert_amx-OnlyScripts amx st.rt in
    let pending : (insert_amx amx st.rt).omp_pending_amx ≡ st.rt.omp_pending_amx =
      ap (λ (r : Runtime). r.omp_pending_amx) e in
    elim (Option-cases (get amx st.rt)) [
      | inr (script, found) ↦ rw (native_call, found) (same x st)
      | inl missing ↦
          rw (native_call, missing)
            (move x st (insert_amx amx st.rt) (add amx ∷ []) 0 (omega (arith, ap (times x) pending))
              (omega (arith, times-insert_amx x amx st.rt)))
    ]

pub inner_amx_load-Moved :
    (x : ℕ) (server : Server) (amx : ℕ) (st : State)
    → Moved x (one_if x amx) st (inner_amx_load server (some amx) st)
unfolding inner_amx_load loaded
inner_amx_load-Moved x server amx st = elim (Option-cases st.rt.omp_amx_exports) [
  | inr (exports, p) ↦ rw (inner_amx_load, p) (amx_load-Moved x server amx st.rt.omp_natives st)
  | inl p ↦
      rw (inner_amx_load, p)
        (omega (arith, times-append x st.rt.omp_pending_amx (amx ∷ [])), omega arith)
]

store_exports-Moved : (x exports : ℕ) (st : State) → Moved x 0 st (store_exports exports st)
unfolding store_exports loaded
store_exports-Moved x zero st = same x st
store_exports-Moved x (suc exports) st = (omega arith, omega arith)

listen-Moved :
    (x : ℕ) (server : Server) (pawn : ℕ) (st : State) → Moved x 0 st (listen server pawn st)
unfolding listen loaded
listen-Moved x server pawn st = elim (Option-cases (server.get_pawn_event_dispatcher pawn)) [
  | inl p ↦ rw (listen, p) (still x st st.rt (sdk_warn ∷ []) refl refl refl refl refl)
  | inr (dispatcher, p) ↦
      rw (listen, p)
        (still x st (record st.rt { pawn_event_handler = some server.new_box })
          (new_pawn_handler server.new_box ∷ add_pawn_event_handler dispatcher server.new_box ∷ [])
          refl refl refl refl refl)
]

-- A state whose runtime has another list of components.
listed : ℕ → State → State
listed components st = record st { rt = record st.rt { omp_component_list = some components } }

pub omp_on_init-Moved :
    (x : ℕ) (server : Server) (components : ℕ) (st : State)
    → Moved x 0 st (omp_on_init server components st)
unfolding omp_on_init loaded listed
omp_on_init-Moved x server components st =
    let s = listed components st in
    elim (Option-cases (server.query_component components pawn_component_uid)) [
      | inl p ↦ rw (omp_on_init, p) (still x st s.rt (sdk_warn ∷ []) refl refl refl refl refl)
      | inr (pawn, p) ↦
          rw (omp_on_init, p)
            (then_Moved x 0 0 st s
              (listen server pawn (store_exports (server.get_amx_functions pawn) s))
              (omega arith, omega arith)
              (then_Moved x 0 0 s (store_exports (server.get_amx_functions pawn) s)
                (listen server pawn (store_exports (server.get_amx_functions pawn) s))
                (store_exports-Moved x (server.get_amx_functions pawn) s)
                (listen-Moved x server pawn (store_exports (server.get_amx_functions pawn) s))))
    ]

pub ready_exports-Moved :
    (x : ℕ) (server : Server) (st : State) → Moved x 0 st (ready_exports server st)
unfolding ready_exports loaded
ready_exports-Moved x server st = elim (Option-cases st.rt.omp_amx_exports) [
  | inr (exports, p) ↦ rw (ready_exports, p) (same x st)
  | inl p ↦ elim (Option-cases (omp_query_component server st.rt pawn_component_uid)) [
    | inl q ↦ rw (ready_exports, p, q) (still x st st.rt (sdk_warn ∷ []) refl refl refl refl refl)
    | inr (pawn, q) ↦ elim (Bool-cases (server.get_amx_functions pawn == 0)) [
      | inl r ↦
          rw (ready_exports, p, q, r) (still x st st.rt (sdk_warn ∷ []) refl refl refl refl refl)
      | inr r ↦
          rw (ready_exports, p, q, r) (store_exports-Moved x (server.get_amx_functions pawn) st)
    ]
  ]
]

amx_load_all-Moved :
    (x : ℕ) (server : Server) (natives pending : List ℕ) (st : State)
    → Moved x (times x pending) st (amx_load_all server natives pending st)
unfolding amx_load_all
amx_load_all-Moved x server natives [] st = same x st
amx_load_all-Moved x server natives (amx ∷ pending) st =
    then_Moved x (one_if x amx) (times x pending) st (amx_load server amx natives st)
      (amx_load_all server natives pending (amx_load server amx natives st))
      (amx_load-Moved x server amx natives st)
      (amx_load_all-Moved x server natives pending (amx_load server amx natives st))

pub ready_pending-Moved :
    (x : ℕ) (server : Server) (st : State) → Moved x 0 st (ready_pending server st)
unfolding ready_pending loaded
ready_pending-Moved x server st = elim (Option-cases st.rt.omp_amx_exports) [
  | inl p ↦ rw (ready_pending, p) (same x st)
  | inr (exports, p) ↦
      let (a, b) =
        amx_load_all-Moved x server st.rt.omp_natives st.rt.omp_pending_amx
          (record st { rt = record st.rt { omp_pending_amx = [] } }) in
      rw (ready_pending, p) (omega (arith, a), omega (arith, b))
]
