-- ===== src/Plugin/Lifecycle/Ready.antt =====
-- Once the function table is there (crates/samp/src/interlayer.rs), no script waits.
use rust_samp.Base.{
  ℕ, zero, suc, ◌≡◌, refl, ap, ◌∙◌, inl, inr, Bool, true, false, Option, none, some, List, [], ◌∷◌,
  ◌==◌, arith, Option-cases, if◌then◌else◌,
}
use rust_samp.Plugin.Runtime.{Runtime, omp_tick_interval}
use rust_samp.Plugin.Registry.{insert_amx, remove_amx, get}
use rust_samp.Plugin.Registry.Counted.{insert_amx-OnlyScripts, remove_amx-OnlyScripts}
use rust_samp.Plugin.Events
use rust_samp.Plugin.Events.Resolved.{on_amx_load-OnlyTables, on_amx_unload-OnlyTables}
use rust_samp.Plugin.Lifecycle.{
  pawn_component_uid, timers_component_uid, interval_ms, State, Server, omp_query_component,
  then_do, with_rt, on_component_free, amx_load, amx_unload, native_call, inner_amx_load,
  store_exports, listen, omp_on_init, ready_exports, amx_load_all, ready_pending, start_timer,
  ready_timer, omp_on_ready, omp_on_free, kill_tick, drop_listener, omp_cleanup, comp_free, unload,
}

-- The table is known and no script waits.
abbrev pub IsReady : Runtime → Type 0
IsReady rt = (exports : ℕ) × (rt.omp_amx_exports ≡ some exports) × (rt.omp_pending_amx ≡ [])

abbrev pub KeepsReady : (State → State) → Type 0
KeepsReady f = (st : State) → IsReady st.rt → IsReady (f st).rt

pub amx_load-KeepsReady :
    (server : Server) (amx : ℕ) (natives : List ℕ) → KeepsReady (amx_load server amx natives)
unfolding amx_load
amx_load-KeepsReady server amx natives st (exports, p, q) =
    let inserted = insert_amx amx st.rt in
    let (scripts, e) = insert_amx-OnlyScripts amx st.rt in
    let (tables, f) = on_amx_load-OnlyTables (server.find_public amx) amx inserted in
    (
      exports,
      ap (λ (r : Runtime). r.omp_amx_exports) f ∙ ap (λ (r : Runtime). r.omp_amx_exports) e ∙ p,
      ap (λ (r : Runtime). r.omp_pending_amx) f ∙ ap (λ (r : Runtime). r.omp_pending_amx) e ∙ q,
    )

pub amx_unload-KeepsReady : (amx : ℕ) → KeepsReady (amx_unload amx)
unfolding amx_unload
amx_unload-KeepsReady amx st (exports, p, q) =
    let before = Events.on_amx_unload amx st.rt in
    let (tables, f) = on_amx_unload-OnlyTables amx st.rt in
    let (scripts, e) = remove_amx-OnlyScripts amx before in
    let kept : IsReady (remove_amx amx before).1 = (
      exports,
      ap (λ (r : Runtime). r.omp_amx_exports) e ∙ ap (λ (r : Runtime). r.omp_amx_exports) f ∙ p,
      ap (λ (r : Runtime). r.omp_pending_amx) e ∙ ap (λ (r : Runtime). r.omp_pending_amx) f ∙ q,
    ) in
    elim (Option-cases (remove_amx amx before).0) [
      | inl gone ↦ rw (amx_unload, gone) kept
      | inr (script, gone) ↦ rw (amx_unload, gone) kept
    ]

pub native_call-KeepsReady : (amx : ℕ) → KeepsReady (native_call amx)
unfolding native_call
native_call-KeepsReady amx st (exports, p, q) =
    let (scripts, e) = insert_amx-OnlyScripts amx st.rt in
    let kept : IsReady (insert_amx amx st.rt) = (
      exports,
      ap (λ (r : Runtime). r.omp_amx_exports) e ∙ p,
      ap (λ (r : Runtime). r.omp_pending_amx) e ∙ q,
    ) in
    elim (Option-cases (get amx st.rt)) [
      | inl missing ↦ rw (native_call, missing) kept
      | inr (script, found) ↦ rw (native_call, found) (exports, p, q)
    ]

pub inner_amx_load-KeepsReady :
    (server : Server) (script : Option ℕ) → KeepsReady (inner_amx_load server script)
unfolding inner_amx_load
inner_amx_load-KeepsReady server none st h = h
inner_amx_load-KeepsReady server (some amx) st (exports, p, q) =
    rw (inner_amx_load, p) (amx_load-KeepsReady server amx st.rt.omp_natives st (exports, p, q))

store_exports-KeepsReady : (exports : ℕ) → KeepsReady (store_exports exports)
unfolding store_exports
store_exports-KeepsReady zero st h = h
store_exports-KeepsReady (suc n) st (exports, p, q) = (suc n, refl, q)

listen-KeepsReady : (server : Server) (pawn : ℕ) → KeepsReady (listen server pawn)
unfolding listen
listen-KeepsReady server pawn st h = elim (Option-cases (server.get_pawn_event_dispatcher pawn)) [
  | inl p ↦ rw (listen, p) h
  | inr (dispatcher, p) ↦ rw (listen, p) h
]

pub omp_on_init-KeepsReady :
    (server : Server) (components : ℕ) → KeepsReady (omp_on_init server components)
unfolding omp_on_init
omp_on_init-KeepsReady server components st h =
    let s : State = record st { rt = record st.rt { omp_component_list = some components } } in
    elim (Option-cases (server.query_component components pawn_component_uid)) [
      | inl p ↦ rw (omp_on_init, p) h
      | inr (pawn, p) ↦
          rw (omp_on_init, p)
            (listen-KeepsReady server pawn (store_exports (server.get_amx_functions pawn) s)
              (store_exports-KeepsReady (server.get_amx_functions pawn) s h))
    ]

pub ready_exports-KeepsReady : (server : Server) → KeepsReady (ready_exports server)
unfolding ready_exports
ready_exports-KeepsReady server st (exports, p, q) = rw (ready_exports, p) (exports, p, q)

-- The table alone.
abbrev HasExports : Runtime → Type 0
HasExports rt = (exports : ℕ) × (rt.omp_amx_exports ≡ some exports)

amx_load_all-ready :
    (server : Server) (natives pending : List ℕ) → KeepsReady (amx_load_all server natives pending)
unfolding amx_load_all
amx_load_all-ready server natives [] st h = h
amx_load_all-ready server natives (amx ∷ pending) st h =
    amx_load_all-ready server natives pending (amx_load server amx natives st)
      (amx_load-KeepsReady server amx natives st h)

-- Where the table is known, the queue is emptied.
ready_pending-IsReady :
    (server : Server) (st : State) → HasExports st.rt → IsReady (ready_pending server st).rt
unfolding ready_pending
ready_pending-IsReady server st (exports, p) =
    rw (ready_pending, p)
      (amx_load_all-ready server st.rt.omp_natives st.rt.omp_pending_amx
        (record st { rt = record st.rt { omp_pending_amx = [] } }) (exports, p, refl))

start_timer-KeepsReady :
    (server : Server) (timers interval : ℕ) → KeepsReady (start_timer server timers interval)
unfolding start_timer
start_timer-KeepsReady server timers interval st h =
    elim (Option-cases (server.new_timer timers server.new_box (interval_ms interval))) [
      | inl p ↦ rw (start_timer, p) h
      | inr (timer, p) ↦ rw (start_timer, p) h
    ]

ready_timer-KeepsReady : (server : Server) → KeepsReady (ready_timer server)
unfolding ready_timer
ready_timer-KeepsReady server st h = elim (Option-cases (omp_tick_interval st.rt)) [
  | inl p ↦ rw (ready_timer, p) h
  | inr (interval, p) ↦ elim (Option-cases st.rt.omp_component_list) [
    | inl q ↦ rw (ready_timer, p, q) h
    | inr (components, q) ↦
        elim (Option-cases (server.query_component components timers_component_uid)) [
          | inl r ↦ rw (ready_timer, p, q, r) h
          | inr (timers, r) ↦
              rw (ready_timer, p, q, r) (start_timer-KeepsReady server timers interval st h)
        ]
  ]
]

-- The scripts' component has a table that is not null.
ready_exports-found :
    (server : Server) (st : State) (pawn n : ℕ)
    → omp_query_component server st.rt pawn_component_uid ≡ some pawn
    → server.get_amx_functions pawn ≡ suc n
    → HasExports (ready_exports server st).rt
unfolding ready_exports store_exports
ready_exports-found server st pawn n p q = elim (Option-cases st.rt.omp_amx_exports) [
  | inr (exports, r) ↦ rw (ready_exports, r) (exports, r)
  | inl r ↦
      let not_null : (suc n == 0) ≡ false = ground arith in
      rw (ready_exports, r, p, q, not_null) (suc n, refl)
]

pub omp_on_ready-IsReady :
    (server : Server) (st : State) (pawn n : ℕ)
    → omp_query_component server st.rt pawn_component_uid ≡ some pawn
    → server.get_amx_functions pawn ≡ suc n
    → IsReady (omp_on_ready server st).rt
unfolding omp_on_ready
omp_on_ready-IsReady server st pawn n p q =
    let s = ready_exports server st in
    ready_timer-KeepsReady server (ready_pending server s)
      (ready_pending-IsReady server s (ready_exports-found server st pawn n p q))

pub omp_on_ready-KeepsReady : (server : Server) → KeepsReady (omp_on_ready server)
unfolding omp_on_ready
omp_on_ready-KeepsReady server st h =
    let s = ready_exports server st in
    let (exports, p, q) = ready_exports-KeepsReady server st h in
    ready_timer-KeepsReady server (ready_pending server s)
      (ready_pending-IsReady server s (exports, p))

pub omp_on_free-KeepsReady :
    (server : Server) (component : ℕ) → KeepsReady (omp_on_free server component)
unfolding omp_on_free
omp_on_free-KeepsReady server component st h =
    by_case (elim (omp_query_component server st.rt timers_component_uid) [
      | none ↦ false
      | some timers ↦ timers == component
    ])
  where
    by_case :
        (b : Bool)
        → IsReady
            (then_do (on_component_free ∷ []) (
              if b
              then with_rt (record st.rt { omp_tick_timer = none; omp_tick_handler = none }) st
              else st)).rt
    by_case true = h
    by_case false = h

pub comp_free-KeepsReady : (server : Server) → KeepsReady (comp_free server)
unfolding comp_free omp_cleanup drop_listener kill_tick unload
comp_free-KeepsReady server st h = listener (kill_tick st) killed
  where
    killed : IsReady (kill_tick st).rt
    killed = elim (Option-cases st.rt.omp_tick_timer) [
      | inl p ↦ rw (kill_tick, p) h
      | inr (timer, p) ↦ rw (kill_tick, p) h
    ]

    listener : (s : State) → IsReady s.rt → IsReady (drop_listener server s).rt
    listener s k = elim (Option-cases s.rt.pawn_event_handler) [
      | inl p ↦ rw (drop_listener, p) k
      | inr (handler, p) ↦ rw (drop_listener, p) k
    ]
