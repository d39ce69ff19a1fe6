-- ===== src/Plugin/Lifecycle/Told.antt =====
-- After `omp_on_ready`, every script was told to the plugin (crates/samp/src/interlayer.rs).
use rust_samp.Base.{ℕ, suc, ◌≡◌, refl, ap, sym, none, some, List, [], ◌∷◌, ◌++◌, arith, subst}
use rust_samp.Plugin.Runtime.{record_tick}
use rust_samp.Plugin.Registry.Counted.{times}
use rust_samp.Plugin.Lifecycle.{
  State, Server, pawn_component_uid, omp_query_component, inner_amx_unload,
}
use rust_samp.Plugin.Lifecycle
use rust_samp.Plugin.Lifecycle.Calls.{
  Call, load, unload, register_events, amx_load, amx_unload, tick, native_call, omp_store_natives,
  pawn_on_amx_load, pawn_on_amx_unload, omp_load, omp_on_init, omp_on_ready, omp_on_free, comp_free,
  step, run, start, is_load, told,
}
use rust_samp.Plugin.Lifecycle.Arrivals.{arrivals, run_accounted}
use rust_samp.Plugin.Lifecycle.Ready.{
  IsReady, KeepsReady, amx_load-KeepsReady, amx_unload-KeepsReady, native_call-KeepsReady,
  inner_amx_load-KeepsReady, omp_on_init-KeepsReady, omp_on_ready-IsReady, omp_on_ready-KeepsReady,
  omp_on_free-KeepsReady, comp_free-KeepsReady,
}

step-KeepsReady : (call : Call) → KeepsReady (step call)
unfolding step Lifecycle.load Lifecycle.unload Lifecycle.register_events Lifecycle.tick
    Lifecycle.omp_load Lifecycle.omp_store_natives inner_amx_unload record_tick
step-KeepsReady (load exports) st h = h
step-KeepsReady unload st h = h
step-KeepsReady (register_events []) st h = h
step-KeepsReady (register_events (e ∷ events)) st h = h
step-KeepsReady (amx_load server amx natives) st h = amx_load-KeepsReady server amx natives st h
step-KeepsReady (amx_unload amx) st h = amx_unload-KeepsReady amx st h
step-KeepsReady (tick now source) st h = h
step-KeepsReady (native_call amx) st h = native_call-KeepsReady amx st h
step-KeepsReady (omp_store_natives natives) st h = h
step-KeepsReady (pawn_on_amx_load server script) st h = inner_amx_load-KeepsReady server script st h
step-KeepsReady (pawn_on_amx_unload none) st h = h
step-KeepsReady (pawn_on_amx_unload (some amx)) st h = amx_unload-KeepsReady amx st h
step-KeepsReady (omp_load none) st h = h
step-KeepsReady (omp_load (some core)) st h = h
step-KeepsReady (omp_on_init server components) st h = omp_on_init-KeepsReady server components st h
step-KeepsReady (omp_on_ready server) st h = omp_on_ready-KeepsReady server st h
step-KeepsReady (omp_on_free server component) st h = omp_on_free-KeepsReady server component st h
step-KeepsReady (comp_free server) st h = comp_free-KeepsReady server st h

run-KeepsReady : (calls : List Call) → KeepsReady (run calls)
run-KeepsReady [] st h = h
run-KeepsReady (call ∷ calls) st h = run-KeepsReady calls (step call st) (step-KeepsReady call st h)

run-append :
    (before after : List Call) (st : State) → run (before ++ after) st ≡ run after (run before st)
run-append [] after st = refl
run-append (call ∷ before) after st = run-append before after (step call st)

-- After an `omp_on_ready` at which the server's component for the scripts has a function table, whatever calls came before and come after it, each script that arrived, before or after, was told to the plugin exactly as often as it arrived.
pub told-run :
    (x : ℕ) (before after : List Call) (server : Server) (pawn n : ℕ)
    → omp_query_component server (run before start).rt pawn_component_uid ≡ some pawn
    → server.get_amx_functions pawn ≡ suc n
    → told (is_load x) (run (before ++ omp_on_ready server ∷ after) start)
      ≡ arrivals x (before ++ omp_on_ready server ∷ after)
unfolding step
told-run x before after server pawn n p q =
    let calls = before ++ omp_on_ready server ∷ after in
    let at_ready = omp_on_ready-IsReady server (run before start) pawn n p q in
    let later = run-KeepsReady after (step (omp_on_ready server) (run before start)) at_ready in
    let (exports, e, none_waits) : IsReady (run calls start).rt =
      subst (λ (st : State). IsReady st.rt)
        (sym (run-append before (omp_on_ready server ∷ after) start)) later in
    omega (arith, (run_accounted x calls).0, ap (times x) none_waits)
