-- ===== src/Plugin/Lifecycle/Calls.antt =====
-- The calls a server makes of the plugin, in any order (crates/samp/src/interlayer.rs), and how often
-- something happened in them.
use rust_samp.Base.{ℕ, ◌+◌, ◌≡◌, Option, List, [], ◌∷◌, ◌++◌, arith}
use rust_samp.Plugin.Runtime.{EventInfo, initialize}
use rust_samp.Plugin.Registry.Counted.{one_if}
use rust_samp.Plugin.Lifecycle.{
  TickSource, Effect, on_amx_load, on_amx_unload, add, new_pawn_handler, drop_pawn_handler,
  create_repeating_timer, kill_timer, State, Server,
}
use rust_samp.Plugin.Lifecycle

pub data Call : Type 0 where
  load : Option ℕ → Call
  unload : Call
  register_events : List EventInfo → Call
  amx_load : Server → ℕ → List ℕ → Call
  amx_unload : ℕ → Call
  tick : ℕ → TickSource → Call
  native_call : ℕ → Call
  omp_store_natives : List ℕ → Call
  pawn_on_amx_load : Server → Option ℕ → Call
  pawn_on_amx_unload : Option ℕ → Call
  omp_load : Option ℕ → Call
  omp_on_init : Server → ℕ → Call
  omp_on_ready : Server → Call
  omp_on_free : Server → ℕ → Call
  comp_free : Server → Call

unfoldable pub step : Call → State → State
step (load exports) = Lifecycle.load exports
step unload = Lifecycle.unload
step (register_events events) = Lifecycle.register_events events
step (amx_load server amx natives) = Lifecycle.amx_load server amx natives
step (amx_unload amx) = Lifecycle.amx_unload amx
step (tick now source) = Lifecycle.tick now source
step (native_call amx) = Lifecycle.native_call amx
step (omp_store_natives natives) = Lifecycle.omp_store_natives natives
step (pawn_on_amx_load server script) = Lifecycle.inner_amx_load server script
step (pawn_on_amx_unload script) = Lifecycle.inner_amx_unload script
step (omp_load core) = Lifecycle.omp_load core
step (omp_on_init server components) = Lifecycle.omp_on_init server components
step (omp_on_ready server) = Lifecycle.omp_on_ready server
step (omp_on_free server component) = Lifecycle.omp_on_free server component
step (comp_free server) = Lifecycle.comp_free server

abbrev pub run : List Call → State → State
run [] st = st
run (call ∷ calls) st = run calls (step call st)

-- Before any call.
abbrev pub start : State
start = record { rt = initialize; effects = [] }

-- The sum of what each effect counts.
abbrev pub total : (Effect → ℕ) → List Effect → ℕ
total weight [] = 0
total weight (e ∷ effects) = weight e + total weight effects

pub total-append :
    (weight : Effect → ℕ) (before after : List Effect)
    → total weight (before ++ after) ≡ total weight before + total weight after
total-append weight [] after = omega arith
total-append weight (e ∷ before) after = omega (arith, total-append weight before after)

abbrev pub is_load : ℕ → Effect → ℕ
is_load x e = elim e [ on_amx_load a ↦ one_if x a | _ ↦ 0 ]

abbrev pub is_unload : ℕ → Effect → ℕ
is_unload x e = elim e [ on_amx_unload a ↦ one_if x a | _ ↦ 0 ]

abbrev pub is_add : ℕ → Effect → ℕ
is_add x e = elim e [ add a ↦ one_if x a | _ ↦ 0 ]

abbrev pub is_created : ℕ → Effect → ℕ
is_created x e = elim e [ create_repeating_timer t h ms ↦ one_if x t | _ ↦ 0 ]

abbrev pub is_killed : ℕ → Effect → ℕ
is_killed x e = elim e [ kill_timer t ↦ one_if x t | _ ↦ 0 ]

abbrev pub is_new : ℕ → Effect → ℕ
is_new x e = elim e [ new_pawn_handler h ↦ one_if x h | _ ↦ 0 ]

abbrev pub is_dropped : ℕ → Effect → ℕ
is_dropped x e = elim e [ drop_pawn_handler h ↦ one_if x h | _ ↦ 0 ]

-- How often it happened until now.
abbrev pub told : (Effect → ℕ) → State → ℕ
told weight st = total weight st.effects
