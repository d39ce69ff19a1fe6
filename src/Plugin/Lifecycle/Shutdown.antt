-- ===== src/Plugin/Lifecycle/Shutdown.antt =====
-- The timer and the listener, from `omp_on_ready` to the end (crates/samp/src/interlayer.rs).
use rust_samp.Base.{
  ℕ, ◌≡◌, refl, ap, sym, inl, inr, Bool, true, false, none, some, List, [], ◌∷◌, ◌++◌, ◌==◌,
  ==_refl, subst, arith, Option-cases, Bool-cases, if◌then◌else◌,
}
use rust_samp.Plugin.Runtime.{omp_tick_interval}
use rust_samp.Plugin.Lifecycle.{
  pawn_component_uid, timers_component_uid, interval_ms, sdk_warn, on_omp_ready, on_component_free,
  drop_pawn_handler, new_tick_handler, drop_tick_handler, create_repeating_timer, kill_timer,
  flush_server_backlog, on_unload, State, Server, omp_query_component, then_do, with_rt, amx_load,
  ready_exports, amx_load_all, ready_pending, start_timer, ready_timer, omp_on_ready, omp_on_free,
  kill_tick, unlisten, drop_listener, omp_cleanup, comp_free, unload,
}
use rust_samp.Plugin.Lifecycle.Calls.{is_killed, is_dropped}
use rust_samp.Plugin.Lifecycle.Steady.{total-unlisten}
use rust_samp.Plugin.Lifecycle.Resources.{
  holds, Owned, then_Owned, kept, own, untouched, amx_load-Owned, store_exports-Owned,
}

ready_exports-Owned : (x : ℕ) (server : Server) (st : State) → Owned x st (ready_exports server st)
unfolding ready_exports
ready_exports-Owned x server st = elim (Option-cases st.rt.omp_amx_exports) [
  | inr (exports, p) ↦ rw (ready_exports, p) (kept x st)
  | inl p ↦ elim (Option-cases (omp_query_component server st.rt pawn_component_uid)) [
    | inl q ↦ rw (ready_exports, p, q) (untouched x st st.rt (sdk_warn ∷ []) refl refl refl refl)
    | inr (pawn, q) ↦ elim (Bool-cases (server.get_amx_functions pawn == 0)) [
      | inl r ↦
          rw (ready_exports, p, q, r) (untouched x st st.rt (sdk_warn ∷ []) refl refl refl refl)
      | inr r ↦
          rw (ready_exports, p, q, r) (store_exports-Owned x (server.get_amx_functions pawn) st)
    ]
  ]
]

amx_load_all-Owned :
    (x : ℕ) (server : Server) (natives pending : List ℕ) (st : State)
    → Owned x st (amx_load_all server natives pending st)
unfolding amx_load_all
amx_load_all-Owned x server natives [] st = kept x st
amx_load_all-Owned x server natives (amx ∷ pending) st =
    let s = amx_load server amx natives st in
    then_Owned x st s (amx_load_all server natives pending s)
      (amx_load-Owned x server amx natives st) (amx_load_all-Owned x server natives pending s)

ready_pending-Owned : (x : ℕ) (server : Server) (st : State) → Owned x st (ready_pending server st)
unfolding ready_pending
ready_pending-Owned x server st = elim (Option-cases st.rt.omp_amx_exports) [
  | inl p ↦ rw (ready_pending, p) (kept x st)
  | inr (exports, p) ↦
      rw (ready_pending, p)
        (amx_load_all-Owned x server st.rt.omp_natives st.rt.omp_pending_amx
          (record st { rt = record st.rt { omp_pending_amx = [] } }))
]

start_timer-Owned :
    (x : ℕ) (server : Server) (timers interval : ℕ) (st : State)
    → Owned x st (start_timer server timers interval st)
unfolding start_timer
start_timer-Owned x server timers interval st =
    elim (Option-cases (server.new_timer timers server.new_box (interval_ms interval))) [
      | inl p ↦
          rw (start_timer, p)
            (untouched x st st.rt
              (new_tick_handler server.new_box ∷ sdk_warn ∷ drop_tick_handler server.new_box ∷ [])
              refl refl refl refl)
      | inr (timer, p) ↦
          rw (start_timer, p)
            (own x st
              (record st.rt { omp_tick_timer = some timer; omp_tick_handler = some server.new_box })
              (new_tick_handler server.new_box
                ∷ create_repeating_timer timer server.new_box (interval_ms interval)
                ∷ [])
              (omega arith) (omega arith))
    ]

ready_timer-Owned : (x : ℕ) (server : Server) (st : State) → Owned x st (ready_timer server st)
unfolding ready_timer
ready_timer-Owned x server st = elim (Option-cases (omp_tick_interval st.rt)) [
  | inl p ↦ rw (ready_timer, p) (kept x st)
  | inr (interval, p) ↦ elim (Option-cases st.rt.omp_component_list) [
    | inl q ↦ rw (ready_timer, p, q) (kept x st)
    | inr (components, q) ↦
        elim (Option-cases (server.query_component components timers_component_uid)) [
          | inl r ↦
              rw (ready_timer, p, q, r) (untouched x st st.rt (sdk_warn ∷ []) refl refl refl refl)
          | inr (timers, r) ↦
              rw (ready_timer, p, q, r) (start_timer-Owned x server timers interval st)
        ]
  ]
]

pub omp_on_ready-Owned :
    (x : ℕ) (server : Server) (st : State) → Owned x st (omp_on_ready server st)
unfolding omp_on_ready
omp_on_ready-Owned x server st =
    let s = ready_exports server st in
    let t = ready_pending server s in
    let u = ready_timer server t in
    then_Owned x st u (omp_on_ready server st)
      (then_Owned x st t u
        (then_Owned x st s t (ready_exports-Owned x server st) (ready_pending-Owned x server s))
        (ready_timer-Owned x server t))
      (untouched x u u.rt (on_omp_ready ∷ []) refl refl refl refl)

pub omp_on_free-Owned :
    (x : ℕ) (server : Server) (component : ℕ) (st : State)
    → Owned x st (omp_on_free server component st)
unfolding omp_on_free
omp_on_free-Owned x server component st =
    by_case (elim (omp_query_component server st.rt timers_component_uid) [
      | none ↦ false
      | some timers ↦ timers == component
    ])
  where
    by_case :
        (b : Bool)
        → Owned x st (
            then_do (on_component_free ∷ []) (
              if b
              then with_rt (record st.rt { omp_tick_timer = none; omp_tick_handler = none }) st
              else st))
    by_case true =
        own x st (record st.rt { omp_tick_timer = none; omp_tick_handler = none })
          (on_component_free ∷ []) (omega arith) (omega arith)
    by_case false = untouched x st st.rt (on_component_free ∷ []) refl refl refl refl

-- What is done where there is a timer, and where there is a listener.
killed : ℕ → State → State
killed timer st = record {
  rt = record st.rt { omp_tick_timer = none; omp_tick_handler = none };
  effects = st.effects ++ kill_timer timer ∷ [];
}

kill_tick-killed :
    (timer : ℕ) (st : State) → st.rt.omp_tick_timer ≡ some timer → kill_tick st ≡ killed timer st
unfolding kill_tick killed
kill_tick-killed timer st p = rw (kill_tick, p) refl

dropped : Server → ℕ → State → State
dropped server handler st = record {
  rt = record st.rt { pawn_event_handler = none };
  effects = st.effects ++ (unlisten server handler st.rt ++ drop_pawn_handler handler ∷ []);
}

drop_listener-dropped :
    (server : Server) (handler : ℕ) (st : State)
    → st.rt.pawn_event_handler ≡ some handler
    → drop_listener server st ≡ dropped server handler st
unfolding drop_listener dropped unlisten omp_query_component
drop_listener-dropped server handler st p = rw (drop_listener, p) refl

kill_tick-Owned : (x : ℕ) (st : State) → Owned x st (kill_tick st)
unfolding kill_tick killed
kill_tick-Owned x st = elim (Option-cases st.rt.omp_tick_timer) [
  | inl p ↦ rw (kill_tick, p) (omega (arith, ap (holds x) p), omega arith)
  | inr (timer, p) ↦ subst (Owned x st) (sym (kill_tick-killed timer st p)) (
      own x st (record st.rt { omp_tick_timer = none; omp_tick_handler = none })
        (kill_timer timer ∷ []) (omega (arith, ap (holds x) p)) (omega arith))
]

drop_listener-Owned : (x : ℕ) (server : Server) (st : State) → Owned x st (drop_listener server st)
unfolding drop_listener dropped unlisten omp_query_component
drop_listener-Owned x server st = elim (Option-cases st.rt.pawn_event_handler) [
  | inl p ↦ rw (drop_listener, p) (omega arith, omega (arith, ap (holds x) p))
  | inr (handler, p) ↦ subst (Owned x st) (sym (drop_listener-dropped server handler st p)) (
      own x st (record st.rt { pawn_event_handler = none })
        (unlisten server handler st.rt ++ drop_pawn_handler handler ∷ [])
        (omega (arith, total-unlisten (is_killed x) server handler st.rt (λ d. refl)))
        (omega
          (arith, ap (holds x) p, total-unlisten (is_dropped x) server handler st.rt (λ d. refl))))
]

pub comp_free-Owned : (x : ℕ) (server : Server) (st : State) → Owned x st (comp_free server st)
unfolding comp_free omp_cleanup unload
comp_free-Owned x server st =
    let s = kill_tick st in
    let t = drop_listener server s in
    then_Owned x st t (comp_free server st)
      (then_Owned x st s t (kill_tick-Owned x st) (drop_listener-Owned x server s))
      (untouched x t t.rt (on_unload ∷ flush_server_backlog ∷ []) refl refl refl refl)

-- The runtime holds no timer and no listener.
abbrev pub HoldsNothing : State → Type 0
HoldsNothing st = (st.rt.omp_tick_timer ≡ none) × (st.rt.pawn_event_handler ≡ none)

kill_tick-none : (st : State) → (kill_tick st).rt.omp_tick_timer ≡ none
unfolding kill_tick
kill_tick-none st = elim (Option-cases st.rt.omp_tick_timer) [
  | inl p ↦ rw (kill_tick, p) p
  | inr (timer, p) ↦ rw (kill_tick, p) refl
]

drop_listener-none :
    (server : Server) (st : State)
    → st.rt.omp_tick_timer ≡ none
    → HoldsNothing (drop_listener server st)
unfolding drop_listener
drop_listener-none server st none_held = elim (Option-cases st.rt.pawn_event_handler) [
  | inl p ↦ rw (drop_listener, p) (none_held, p)
  | inr (handler, p) ↦ rw (drop_listener, p) (none_held, refl)
]

-- After the component is freed, the plugin holds no timer and no listener.
pub comp_free-HoldsNothing : (server : Server) (st : State) → HoldsNothing (comp_free server st)
unfolding comp_free omp_cleanup unload
comp_free-HoldsNothing server st = drop_listener-none server (kill_tick st) (kill_tick-none st)

-- Once the server freed the component of the timers, the plugin holds no timer.
pub omp_on_free-none :
    (server : Server) (timers : ℕ) (st : State)
    → omp_query_component server st.rt timers_component_uid ≡ some timers
    → (omp_on_free server timers st).rt.omp_tick_timer ≡ none
unfolding omp_on_free
omp_on_free-none server timers st p = rw (omp_on_free, p, ==_refl timers) refl
