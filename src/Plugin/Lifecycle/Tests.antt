-- ===== src/Plugin/Lifecycle/Tests.antt =====
-- An open.mp server that loads the plugin, with a script that arrives early (crates/samp/src/interlayer.rs).
use rust_samp.Base.{ℕ, ◌+◌, ◌≤◌, ◌≡◌, refl, none, some, List, [], ◌∷◌, ◌++◌, ◌==◌, if◌then◌else◌}
use rust_samp.Plugin.Runtime.{initialize}
use rust_samp.Plugin.Registry.{loaded}
use rust_samp.Plugin.Registry.Counted.{times}
use rust_samp.Plugin.Lifecycle.{
  State, Server, pawn_component_uid, timers_component_uid, omp_query_component, store_exports,
  listen,
}
use rust_samp.Plugin.Lifecycle
use rust_samp.Plugin.Lifecycle.Calls.{
  Call, omp_store_natives, pawn_on_amx_load, pawn_on_amx_unload, omp_load, omp_on_init,
  omp_on_ready, comp_free, step, run, start, is_load, is_unload, is_add, is_created, is_killed,
  is_new, is_dropped, told,
}
use rust_samp.Plugin.Lifecycle.Arrivals.{run_accounted}
use rust_samp.Plugin.Lifecycle.Told.{told-run}
use rust_samp.Plugin.Lifecycle.Resources.{holds}
use rust_samp.Plugin.Lifecycle.Released.{run_released}

-- The component for the scripts is at 1000, the timers at 2000; the function table is there in `on_ready`.
abbrev server : ℕ → Server
server exports = record {
  query_component = λ components uid. if uid == pawn_component_uid then some 1000 else some 2000;
  get_amx_functions = λ pawn. exports;
  get_pawn_event_dispatcher = λ pawn. some 1001;
  new_timer = λ timers handler ms. some 2001;
  new_box = 2001;
  find_public = λ amx name. none;
}

abbrev before : List Call
before =
    omp_load (some 1)
    ∷ omp_store_natives (10 ∷ [])
    ∷ omp_on_init (server 0) 4
    ∷ pawn_on_amx_load (server 0) (some 7)
    ∷ []

abbrev after : List Call
after = pawn_on_amx_load (server 5) (some 8) ∷ pawn_on_amx_unload (some 7) ∷ []

abbrev calls : List Call
calls = before ++ omp_on_ready (server 5) ∷ after ++ comp_free (server 5) ∷ []

run_accounted_example :
    let st = run calls start in
    (told (is_load 7) st + times 7 st.rt.omp_pending_amx ≡ 1)
    × (told (is_unload 7) st + times 7 (loaded st.rt) ≡ told (is_load 7) st + told (is_add 7) st)
run_accounted_example = run_accounted 7 calls

told-run_example : told (is_load 7) (run (before ++ omp_on_ready (server 5) ∷ after) start) ≡ 1
unfolding step initialize omp_query_component Lifecycle.omp_load Lifecycle.omp_store_natives
    Lifecycle.omp_on_init Lifecycle.inner_amx_load store_exports listen
told-run_example = told-run 7 before after (server 5) 1000 4 refl refl

run_released_example :
    let st = run calls start in
    (told (is_killed 2001) st + holds 2001 st.rt.omp_tick_timer ≤ told (is_created 2001) st)
    × (told (is_dropped 2001) st + holds 2001 st.rt.pawn_event_handler ≤ told (is_new 2001) st)
run_released_example = run_released 2001 calls
