-- ===== src/Plugin/Lifecycle/Released.antt =====
-- What the plugin made is released once at most (crates/samp/src/interlayer.rs).
use rust_samp.Base.{ℕ, ◌+◌, ◌≤◌, refl, none, some, List, [], ◌∷◌, ◌++◌, arith}
use rust_samp.Plugin.Runtime.{record_tick, initialize}
use rust_samp.Plugin.Lifecycle
use rust_samp.Plugin.Lifecycle.{State}
use rust_samp.Plugin.Lifecycle.Calls.{
  Call, load, unload, register_events, amx_load, amx_unload, tick, native_call, omp_store_natives,
  pawn_on_amx_load, pawn_on_amx_unload, omp_load, omp_on_init, omp_on_ready, omp_on_free, comp_free,
  step, run, start, is_created, is_killed, is_new, is_dropped, told,
}
use rust_samp.Plugin.Lifecycle.Resources.{
  holds, Owned, then_Owned, kept, amx_load-Owned, amx_unload-Owned, native_call-Owned,
  inner_amx_load-Owned, inner_amx_unload-Owned, omp_on_init-Owned, untouched,
}
use rust_samp.Plugin.Lifecycle.Shutdown.{omp_on_ready-Owned, omp_on_free-Owned, comp_free-Owned}

step-Owned : (x : ℕ) (call : Call) (st : State) → Owned x st (step call st)
unfolding step Lifecycle.load Lifecycle.unload Lifecycle.register_events Lifecycle.tick
    Lifecycle.omp_load Lifecycle.omp_store_natives record_tick
step-Owned x (load exports) st =
    untouched x st (record st.rt { server_exports = exports })
      (Lifecycle.flush_server_backlog ∷ Lifecycle.Effect.on_load ∷ Lifecycle.check_if_requested
        ∷ [])
      refl refl refl refl
step-Owned x unload st =
    untouched x st st.rt (Lifecycle.Effect.on_unload ∷ Lifecycle.flush_server_backlog ∷ []) refl
      refl refl refl
step-Owned x (register_events []) st = kept x st
step-Owned x (register_events (e ∷ events)) st = kept x st
step-Owned x (amx_load server amx natives) st = amx_load-Owned x server amx natives st
step-Owned x (amx_unload amx) st = amx_unload-Owned x amx st
step-Owned x (tick now source) st =
    untouched x st (record_tick now st.rt).1
      (Lifecycle.run_pending
        ∷ Lifecycle.flush_server_backlog
        ∷ Lifecycle.on_tick (record_tick now st.rt).0 source
        ∷ [])
      refl refl refl refl
step-Owned x (native_call amx) st = native_call-Owned x amx st
step-Owned x (omp_store_natives natives) st = kept x st
step-Owned x (pawn_on_amx_load server script) st = inner_amx_load-Owned x server script st
step-Owned x (pawn_on_amx_unload script) st = inner_amx_unload-Owned x script st
step-Owned x (omp_load none) st =
    let s : State = record st { effects = st.effects ++ Lifecycle.sdk_warn ∷ [] } in
    then_Owned x st s (Lifecycle.omp_load none st)
      (untouched x st st.rt (Lifecycle.sdk_warn ∷ []) refl refl refl refl)
      (untouched x s (record s.rt { omp_core = none })
        (Lifecycle.flush_server_backlog ∷ Lifecycle.Effect.on_load ∷ Lifecycle.check_if_requested
          ∷ [])
        refl refl refl refl)
step-Owned x (omp_load (some core)) st =
    untouched x st (record st.rt { omp_core = some core })
      (Lifecycle.flush_server_backlog ∷ Lifecycle.Effect.on_load ∷ Lifecycle.check_if_requested
        ∷ [])
      refl refl refl refl
step-Owned x (omp_on_init server components) st = omp_on_init-Owned x server components st
step-Owned x (omp_on_ready server) st = omp_on_ready-Owned x server st
step-Owned x (omp_on_free server component) st = omp_on_free-Owned x server component st
step-Owned x (comp_free server) st = comp_free-Owned x server st

run-Owned : (x : ℕ) (calls : List Call) (st : State) → Owned x st (run calls st)
run-Owned x [] st = kept x st
run-Owned x (call ∷ calls) st =
    then_Owned x st (step call st) (run calls (step call st)) (step-Owned x call st)
      (run-Owned x calls (step call st))

-- Whatever calls the server makes, in any order, a timer is killed, counting the one still held, no more often than the server created it, and a listener is dropped, counting the one still held, no more often than it was made.
pub run_released :
    (x : ℕ) (calls : List Call)
    → let st = run calls start in
      (told (is_killed x) st + holds x st.rt.omp_tick_timer ≤ told (is_created x) st)
      × (told (is_dropped x) st + holds x st.rt.pawn_event_handler ≤ told (is_new x) st)
unfolding initialize
run_released x calls = let (p, q) = run-Owned x calls start in (omega (arith, p), omega (arith, q))
