-- ===== src/Plugin/Lifecycle/Steady.antt =====
-- The operations that bring no script and take none away (crates/samp/src/interlayer.rs).
use rust_samp.Base.{
  ℕ, ◌≡◌, refl, inl, inr, Bool, true, false, Option, none, some, List, [], ◌∷◌, ◌++◌, ◌==◌, arith,
  Option-cases, if◌then◌else◌,
}
use rust_samp.Plugin.Runtime.{Runtime, EventInfo, omp_tick_interval, record_tick}
use rust_samp.Plugin.Registry.{loaded}
use rust_samp.Plugin.Lifecycle.{
  pawn_component_uid, timers_component_uid, Effect, State, Server, TickSource, then_do, with_rt,
  flush_server_backlog, check_if_requested, on_load, on_unload, on_tick, kill_timer, run_pending,
  sdk_warn, drop_pawn_handler, remove_pawn_event_handler, new_tick_handler, drop_tick_handler,
  create_repeating_timer, on_omp_ready, on_component_free, interval_ms, omp_query_component,
  ready_exports, ready_pending, start_timer, ready_timer, omp_on_ready, omp_on_free, kill_tick,
  unlisten, drop_listener, omp_cleanup, comp_free, load, unload, omp_load, register_events, tick,
}
use rust_samp.Plugin.Lifecycle.Calls.{total, is_load, is_unload, is_add}
use rust_samp.Plugin.Lifecycle.Scripts.{
  Moved, then_Moved, still, same, ready_exports-Moved, ready_pending-Moved,
}

start_timer-Moved :
    (x : ℕ) (server : Server) (timers interval : ℕ) (st : State)
    → Moved x 0 st (start_timer server timers interval st)
unfolding start_timer
start_timer-Moved x server timers interval st =
    elim (Option-cases (server.new_timer timers server.new_box (interval_ms interval))) [
      | inl p ↦
          rw (start_timer, p)
            (still x st st.rt
              (new_tick_handler server.new_box ∷ sdk_warn ∷ drop_tick_handler server.new_box ∷ [])
              refl refl refl refl refl)
      | inr (timer, p) ↦
          rw (start_timer, p)
            (still x st
              (record st.rt { omp_tick_timer = some timer; omp_tick_handler = some server.new_box })
              (new_tick_handler server.new_box
                ∷ create_repeating_timer timer server.new_box (interval_ms interval)
                ∷ [])
              refl refl refl refl refl)
    ]

ready_timer-Moved : (x : ℕ) (server : Server) (st : State) → Moved x 0 st (ready_timer server st)
unfolding ready_timer loaded
ready_timer-Moved x server st = elim (Option-cases (omp_tick_interval st.rt)) [
  | inl p ↦ rw (ready_timer, p) (same x st)
  | inr (interval, p) ↦ elim (Option-cases st.rt.omp_component_list) [
    | inl q ↦ rw (ready_timer, p, q) (same x st)
    | inr (components, q) ↦
        elim (Option-cases (server.query_component components timers_component_uid)) [
          | inl r ↦
              rw (ready_timer, p, q, r) (still x st st.rt (sdk_warn ∷ []) refl refl refl refl refl)
          | inr (timers, r) ↦
              rw (ready_timer, p, q, r) (start_timer-Moved x server timers interval st)
        ]
  ]
]

pub omp_on_ready-Moved :
    (x : ℕ) (server : Server) (st : State) → Moved x 0 st (omp_on_ready server st)
unfolding omp_on_ready
omp_on_ready-Moved x server st =
    let s = ready_exports server st in
    let t = ready_pending server s in
    let u = ready_timer server t in
    then_Moved x 0 0 st u (omp_on_ready server st)
      (then_Moved x 0 0 st t u
        (then_Moved x 0 0 st s t (ready_exports-Moved x server st) (ready_pending-Moved x server s))
        (ready_timer-Moved x server t))
      (still x u u.rt (on_omp_ready ∷ []) refl refl refl refl refl)

kill_tick-Moved : (x : ℕ) (st : State) → Moved x 0 st (kill_tick st)
unfolding kill_tick loaded
kill_tick-Moved x st = elim (Option-cases st.rt.omp_tick_timer) [
  | inl p ↦ rw (kill_tick, p) (same x st)
  | inr (timer, p) ↦
      rw (kill_tick, p)
        (still x st (record st.rt { omp_tick_timer = none; omp_tick_handler = none })
          (kill_timer timer ∷ []) refl refl refl refl refl)
]

-- What is done with a dispatcher has no weight where its removal has none.
pub total-unlisten :
    (weight : Effect → ℕ) (server : Server) (handler : ℕ) (rt : Runtime)
    → ((dispatcher : ℕ) → weight (remove_pawn_event_handler dispatcher handler) ≡ 0)
    → total weight (unlisten server handler rt ++ drop_pawn_handler handler ∷ [])
      ≡ weight (drop_pawn_handler handler)
unfolding unlisten
total-unlisten weight server handler rt none_of =
    elim (Option-cases (omp_query_component server rt pawn_component_uid)) [
      | inl p ↦ rw (unlisten, p) (omega arith)
      | inr (pawn, p) ↦ elim (Option-cases (server.get_pawn_event_dispatcher pawn)) [
        | inl q ↦ rw (unlisten, p, q) (omega arith)
        | inr (dispatcher, q) ↦ rw (unlisten, p, q) (omega (arith, none_of dispatcher))
      ]
    ]

drop_listener-Moved :
    (x : ℕ) (server : Server) (st : State) → Moved x 0 st (drop_listener server st)
unfolding drop_listener loaded
drop_listener-Moved x server st = elim (Option-cases st.rt.pawn_event_handler) [
  | inl p ↦ rw (drop_listener, p) (same x st)
  | inr (handler, p) ↦
      rw (drop_listener, p)
        (still x st (record st.rt { pawn_event_handler = none })
          (unlisten server handler st.rt ++ drop_pawn_handler handler ∷ [])
          (total-unlisten (is_load x) server handler st.rt (λ d. refl))
          (total-unlisten (is_unload x) server handler st.rt (λ d. refl))
          (total-unlisten (is_add x) server handler st.rt (λ d. refl)) refl refl)
]

pub comp_free-Moved : (x : ℕ) (server : Server) (st : State) → Moved x 0 st (comp_free server st)
unfolding comp_free omp_cleanup unload
comp_free-Moved x server st =
    let s = kill_tick st in
    let t = drop_listener server s in
    then_Moved x 0 0 st t (unload t)
      (then_Moved x 0 0 st s t (kill_tick-Moved x st) (drop_listener-Moved x server s))
      (still x t t.rt (on_unload ∷ flush_server_backlog ∷ []) refl refl refl refl refl)

pub load-Moved : (x : ℕ) (exports : Option ℕ) (st : State) → Moved x 0 st (load exports st)
unfolding load
load-Moved x exports st =
    still x st (record st.rt { server_exports = exports })
      (flush_server_backlog ∷ on_load ∷ check_if_requested ∷ []) refl refl refl refl refl

pub unload-Moved : (x : ℕ) (st : State) → Moved x 0 st (unload st)
unfolding unload
unload-Moved x st =
    still x st st.rt (on_unload ∷ flush_server_backlog ∷ []) refl refl refl refl refl

pub register_events-Moved :
    (x : ℕ) (events : List EventInfo) (st : State) → Moved x 0 st (register_events events st)
unfolding register_events loaded
register_events-Moved x [] st = same x st
register_events-Moved x (e ∷ events) st = same x st

pub tick-Moved : (x now : ℕ) (source : TickSource) (st : State) → Moved x 0 st (tick now source st)
unfolding tick record_tick
tick-Moved x now source st =
    still x st (record_tick now st.rt).1
      (run_pending ∷ flush_server_backlog ∷ on_tick (record_tick now st.rt).0 source ∷ []) refl refl
      refl refl refl

pub omp_load-Moved : (x : ℕ) (core : Option ℕ) (st : State) → Moved x 0 st (omp_load core st)
unfolding omp_load
omp_load-Moved x none st =
    let s = record st { effects = st.effects ++ sdk_warn ∷ [] } in
    then_Moved x 0 0 st s (omp_load none st)
      (still x st st.rt (sdk_warn ∷ []) refl refl refl refl refl)
      (still x s (record s.rt { omp_core = none })
        (flush_server_backlog ∷ on_load ∷ check_if_requested ∷ []) refl refl refl refl refl)
omp_load-Moved x (some core) st =
    still x st (record st.rt { omp_core = some core })
      (flush_server_backlog ∷ on_load ∷ check_if_requested ∷ []) refl refl refl refl refl

pub omp_on_free-Moved :
    (x : ℕ) (server : Server) (component : ℕ) (st : State)
    → Moved x 0 st (omp_on_free server component st)
unfolding omp_on_free
omp_on_free-Moved x server component st =
    by_case (elim (omp_query_component server st.rt timers_component_uid) [
      | none ↦ false
      | some timers ↦ timers == component
    ])
  where
    by_case :
        (b : Bool)
        → Moved x 0 st (
            then_do (on_component_free ∷ []) (
              if b
              then with_rt (record st.rt { omp_tick_timer = none; omp_tick_handler = none }) st
              else st))
    by_case true =
        still x st (record st.rt { omp_tick_timer = none; omp_tick_handler = none })
          (on_component_free ∷ []) refl refl refl refl refl
    by_case false = still x st st.rt (on_component_free ∷ []) refl refl refl refl refl
