-- ===== src/Plugin/Lifecycle/Arrivals.antt =====
-- Every script that arrives is told to the plugin (crates/samp/src/interlayer.rs).
use rust_samp.Base.{ℕ, ◌+◌, ◌≡◌, none, some, List, [], ◌∷◌, arith}
use rust_samp.Plugin.Runtime.{initialize}
use rust_samp.Plugin.Registry.{loaded}
use rust_samp.Plugin.Registry.Counted.{one_if, times}
use rust_samp.Plugin.Lifecycle.{State, Server, inner_amx_load, inner_amx_unload}
use rust_samp.Plugin.Lifecycle
use rust_samp.Plugin.Lifecycle.Calls.{
  Call, load, unload, register_events, amx_load, amx_unload, tick, native_call, omp_store_natives,
  pawn_on_amx_load, pawn_on_amx_unload, omp_load, omp_on_init, omp_on_ready, omp_on_free, comp_free,
  step, run, start, is_load, is_unload, is_add, told,
}
use rust_samp.Plugin.Lifecycle.Scripts.{
  Moved, then_Moved, same, amx_load-Moved, amx_unload-Moved, native_call-Moved,
  inner_amx_load-Moved, omp_on_init-Moved,
}
use rust_samp.Plugin.Lifecycle.Steady.{
  load-Moved, unload-Moved, register_events-Moved, tick-Moved, omp_load-Moved, omp_on_ready-Moved,
  omp_on_free-Moved, comp_free-Moved,
}

-- How often a call brings the script.
abbrev pub arrives : ℕ → Call → ℕ
arrives x call = elim call [
  | amx_load server amx natives ↦ one_if x amx
  | pawn_on_amx_load server script ↦ (elim script [ none ↦ 0 | some amx ↦ one_if x amx ])
  | _ ↦ 0
]

abbrev pub arrivals : ℕ → List Call → ℕ
arrivals x [] = 0
arrivals x (call ∷ calls) = arrives x call + arrivals x calls

step-Moved : (x : ℕ) (call : Call) (st : State) → Moved x (arrives x call) st (step call st)
unfolding step Lifecycle.omp_store_natives inner_amx_load inner_amx_unload loaded
step-Moved x (load exports) st = load-Moved x exports st
step-Moved x unload st = unload-Moved x st
step-Moved x (register_events events) st = register_events-Moved x events st
step-Moved x (amx_load server amx natives) st = amx_load-Moved x server amx natives st
step-Moved x (amx_unload amx) st = amx_unload-Moved x amx st
step-Moved x (tick now source) st = tick-Moved x now source st
step-Moved x (native_call amx) st = native_call-Moved x amx st
step-Moved x (omp_store_natives natives) st = same x st
step-Moved x (pawn_on_amx_load server none) st = same x st
step-Moved x (pawn_on_amx_load server (some amx)) st = inner_amx_load-Moved x server amx st
step-Moved x (pawn_on_amx_unload none) st = same x st
step-Moved x (pawn_on_amx_unload (some amx)) st = amx_unload-Moved x amx st
step-Moved x (omp_load core) st = omp_load-Moved x core st
step-Moved x (omp_on_init server components) st = omp_on_init-Moved x server components st
step-Moved x (omp_on_ready server) st = omp_on_ready-Moved x server st
step-Moved x (omp_on_free server component) st = omp_on_free-Moved x server component st
step-Moved x (comp_free server) st = comp_free-Moved x server st

run-Moved : (x : ℕ) (calls : List Call) (st : State) → Moved x (arrivals x calls) st (run calls st)
run-Moved x [] st = same x st
run-Moved x (call ∷ calls) st =
    then_Moved x (arrives x call) (arrivals x calls) st (step call st) (run calls (step call st))
      (step-Moved x call st) (run-Moved x calls (step call st))

-- Whatever calls the server makes, in any order: each arrival of a script was told to the plugin or waits for the function table, and the scripts the plugin was told of or a native added are those that the list holds and those whose end the plugin was told of, counted as often as each happened.
pub run_accounted :
    (x : ℕ) (calls : List Call)
    → let st = run calls start in
      (told (is_load x) st + times x st.rt.omp_pending_amx ≡ arrivals x calls)
      × (told (is_unload x) st + times x (loaded st.rt) ≡ told (is_load x) st + told (is_add x) st)
unfolding loaded initialize
run_accounted x calls = let (p, q) = run-Moved x calls start in (omega (arith, p), omega (arith, q))
