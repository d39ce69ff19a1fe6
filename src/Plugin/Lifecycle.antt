-- ===== src/Plugin/Lifecycle.antt =====
-- crates/samp/src/interlayer.rs: what the server's calls do to the runtime, and what they do outside of
-- it, in order. The server is a parameter: its components, its timers, the addresses it hands out.
pub mod Calls
pub mod Scripts
pub mod Steady
pub mod Arrivals
pub mod Ready
pub mod Told
pub mod Resources
pub mod Shutdown
pub mod Released
mod Tests
use rust_samp.Base.{
  ℕ, zero, suc, ◌+◌, ◌^◌, ◌-◌, ◌/◌, Bool, true, false, Option, none, some, List, [], ◌∷◌, ◌++◌, min,
  ◌==◌, if◌then◌else◌,
}
use rust_samp.Base.Text.{Text}
use rust_samp.Plugin.Runtime.{Runtime, EventInfo, amx_exports, omp_tick_interval, record_tick}
use rust_samp.Plugin.Registry.{insert_amx, remove_amx, get, native_amx}
use rust_samp.Plugin.Events

pub data TickSource : Type 0 where
  sa_mp_process_tick : TickSource
  omp_timer : TickSource

-- What happens outside of the runtime: calls of the plugin, of the server and of the allocator.
pub data Effect : Type 0 where
  flush_server_backlog : Effect
  on_load : Effect
  check_if_requested : Effect
  on_unload : Effect
  -- `amx_Register` with the script's function table.
  register : ℕ → List ℕ → Effect
  on_amx_load : ℕ → Effect
  on_amx_unload : ℕ → Effect
  -- `crate::amx::add` from a native.
  add : ℕ → Effect
  run_pending : Effect
  on_tick : ℕ → TickSource → Effect
  on_omp_ready : Effect
  on_component_free : Effect
  sdk_warn : Effect
  -- `Box::into_raw` and `Box::from_raw` of the two kinds of handler.
  new_pawn_handler : ℕ → Effect
  drop_pawn_handler : ℕ → Effect
  new_tick_handler : ℕ → Effect
  drop_tick_handler : ℕ → Effect
  add_pawn_event_handler : ℕ → ℕ → Effect
  remove_pawn_event_handler : ℕ → ℕ → Effect
  -- The timer, its handler and its interval in milliseconds.
  create_repeating_timer : ℕ → ℕ → ℕ → Effect
  kill_timer : ℕ → Effect

pub record State : Type 0 where
  pub rt : Runtime
  pub effects : List Effect

-- What the server answers while one of its calls is handled. A null pointer is `none`, or 0 for the
-- function table. Each allocation is at a fresh address.
pub record Server : Type 0 where
  pub query_component : ℕ → ℕ → Option ℕ
  pub get_amx_functions : ℕ → ℕ
  pub get_pawn_event_dispatcher : ℕ → Option ℕ
  pub new_timer : ℕ → ℕ → ℕ → Option ℕ
  pub new_box : ℕ
  pub find_public : ℕ → Text → Option ℕ

abbrev pub pawn_component_uid : ℕ
pawn_component_uid = 0x7890_6cd9_f19c_36a6

abbrev pub timers_component_uid : ℕ
timers_component_uid = 0x2ad8_124c_5ea2_57a3

abbrev pub then_do : List Effect → State → State
then_do effects st = record st { effects = st.effects ++ effects }

abbrev pub with_rt : Runtime → State → State
with_rt rt st = record st { rt = rt }

pub load : Option ℕ → State → State
load exports st =
    then_do (flush_server_backlog ∷ on_load ∷ check_if_requested ∷ [])
      (with_rt (record st.rt { server_exports = exports }) st)

pub unload : State → State
unload st = then_do (on_unload ∷ flush_server_backlog ∷ []) st

pub register_events : List EventInfo → State → State
register_events [] st = st
register_events (e ∷ events) st = with_rt (record st.rt { events = st.rt.events ++ e ∷ events }) st

pub amx_load : Server → ℕ → List ℕ → State → State
amx_load server amx natives st =
    then_do (register amx natives ∷ on_amx_load amx ∷ [])
      (with_rt (Events.on_amx_load (server.find_public amx) amx (insert_amx amx st.rt)) st)

pub amx_unload : ℕ → State → State
amx_unload amx st =
    let (removed, rt) = remove_amx amx (Events.on_amx_unload amx st.rt) in
    elim removed [
      | none ↦ with_rt rt st
      | some script ↦ then_do (on_amx_unload script.ident ∷ []) (with_rt rt st)
    ]

-- At a clock in nanoseconds.
pub tick : ℕ → TickSource → State → State
tick now source st =
    let (elapsed, rt) = record_tick now st.rt in
    then_do (run_pending ∷ flush_server_backlog ∷ on_tick elapsed source ∷ []) (with_rt rt st)

-- A native that is called with a runtime.
pub native_call : ℕ → State → State
native_call amx st = elim (get amx st.rt) [
  | some script ↦ st
  | none ↦ then_do (add amx ∷ []) (with_rt (insert_amx amx st.rt) st)
]

pub omp_store_natives : List ℕ → State → State
omp_store_natives natives st = with_rt (record st.rt { omp_natives = natives }) st

-- `Runtime::omp_query_component`.
pub omp_query_component : Server → Runtime → ℕ → Option ℕ
omp_query_component server rt uid = elim rt.omp_component_list [
  | none ↦ none
  | some components ↦ server.query_component components uid
]

-- `inner_amx_load` and `inner_amx_unload`, which the two calls of the handler's table run.
pub inner_amx_load : Server → Option ℕ → State → State
inner_amx_load server none st = st
inner_amx_load server (some amx) st = elim st.rt.omp_amx_exports [
  | some exports ↦ amx_load server amx st.rt.omp_natives st
  | none ↦ with_rt (record st.rt { omp_pending_amx = st.rt.omp_pending_amx ++ amx ∷ [] }) st
]

pub inner_amx_unload : Option ℕ → State → State
inner_amx_unload none st = st
inner_amx_unload (some amx) st = amx_unload amx st

pub omp_load : Option ℕ → State → State
omp_load core st =
    let warned : State = elim core [ none ↦ then_do (sdk_warn ∷ []) st | some c ↦ st ] in
    then_do (flush_server_backlog ∷ on_load ∷ check_if_requested ∷ [])
      (with_rt (record warned.rt { omp_core = core }) warned)

-- `set_omp_amx_exports` of a table that is not null.
pub store_exports : ℕ → State → State
store_exports zero st = st
store_exports (suc exports) st = with_rt (record st.rt { omp_amx_exports = some (suc exports) }) st

-- The handler for the scripts' arrivals, given to the dispatcher.
pub listen : Server → ℕ → State → State
listen server pawn st = elim (server.get_pawn_event_dispatcher pawn) [
  | none ↦ then_do (sdk_warn ∷ []) st
  | some dispatcher ↦
      then_do
        (new_pawn_handler server.new_box ∷ add_pawn_event_handler dispatcher server.new_box ∷ [])
        (with_rt (record st.rt { pawn_event_handler = some server.new_box }) st)
]

pub omp_on_init : Server → ℕ → State → State
omp_on_init server components st =
    let listed = with_rt (record st.rt { omp_component_list = some components }) st in
    elim (server.query_component components pawn_component_uid) [
      | none ↦ then_do (sdk_warn ∷ []) listed
      | some pawn ↦ listen server pawn (store_exports (server.get_amx_functions pawn) listed)
    ]

-- The first part of `omp_on_ready`: the exports, where `omp_on_init` found none.
pub ready_exports : Server → State → State
ready_exports server st = elim st.rt.omp_amx_exports [
  | some exports ↦ st
  | none ↦ elim (omp_query_component server st.rt pawn_component_uid) [
    | none ↦ then_do (sdk_warn ∷ []) st
    | some pawn ↦
        if server.get_amx_functions pawn == 0
        then then_do (sdk_warn ∷ []) st
        else store_exports (server.get_amx_functions pawn) st
  ]
]

pub amx_load_all : Server → List ℕ → List ℕ → State → State
amx_load_all server natives [] st = st
amx_load_all server natives (amx ∷ pending) st =
    amx_load_all server natives pending (amx_load server amx natives st)

-- The second part: the scripts that arrived before the exports. The natives are those of before.
pub ready_pending : Server → State → State
ready_pending server st = elim st.rt.omp_amx_exports [
  | none ↦ st
  | some exports ↦
      amx_load_all server st.rt.omp_natives st.rt.omp_pending_amx
        (with_rt (record st.rt { omp_pending_amx = [] }) st)
]

-- `as_millis`, clamped to `i64::MAX`.
pub interval_ms : ℕ → ℕ
interval_ms interval = min (interval / 1000000) (2 ^ 63 - 1)

pub start_timer : Server → ℕ → ℕ → State → State
start_timer server timers interval st =
    elim (server.new_timer timers server.new_box (interval_ms interval)) [
      | none ↦
          then_do
            (new_tick_handler server.new_box ∷ sdk_warn ∷ drop_tick_handler server.new_box ∷ []) st
      | some timer ↦
          then_do
            (new_tick_handler server.new_box
              ∷ create_repeating_timer timer server.new_box (interval_ms interval)
              ∷ [])
            (with_rt
              (record st.rt { omp_tick_timer = some timer; omp_tick_handler = some server.new_box })
              st)
    ]

-- The third part: the timer, where the plugin asked for ticks.
pub ready_timer : Server → State → State
ready_timer server st = elim (omp_tick_interval st.rt) [
  | none ↦ st
  | some interval ↦ elim st.rt.omp_component_list [
    | none ↦ st
    | some components ↦ elim (server.query_component components timers_component_uid) [
      | none ↦ then_do (sdk_warn ∷ []) st
      | some timers ↦ start_timer server timers interval st
    ]
  ]
]

pub omp_on_ready : Server → State → State
omp_on_ready server st =
    then_do (on_omp_ready ∷ [])
      (ready_timer server (ready_pending server (ready_exports server st)))

-- The server frees a component; the timer dies with its component.
pub omp_on_free : Server → ℕ → State → State
omp_on_free server component st =
    let found : Bool = elim (omp_query_component server st.rt timers_component_uid) [
      | none ↦ false
      | some timers ↦ timers == component
    ] in
    then_do (on_component_free ∷ []) (
      if found
      then with_rt (record st.rt { omp_tick_timer = none; omp_tick_handler = none }) st
      else st)

-- The first part of `omp_cleanup`.
pub kill_tick : State → State
kill_tick st = elim st.rt.omp_tick_timer [
  | none ↦ st
  | some timer ↦
      then_do (kill_timer timer ∷ [])
        (with_rt (record st.rt { omp_tick_timer = none; omp_tick_handler = none }) st)
]

-- What is done with the handler's dispatcher, if there still is one.
pub unlisten : Server → ℕ → Runtime → List Effect
unlisten server handler rt = elim (omp_query_component server rt pawn_component_uid) [
  | none ↦ []
  | some pawn ↦ elim (server.get_pawn_event_dispatcher pawn) [
    | none ↦ []
    | some dispatcher ↦ remove_pawn_event_handler dispatcher handler ∷ []
  ]
]

-- The second part.
pub drop_listener : Server → State → State
drop_listener server st = elim st.rt.pawn_event_handler [
  | none ↦ st
  | some handler ↦
      then_do (unlisten server handler st.rt ++ drop_pawn_handler handler ∷ [])
        (with_rt (record st.rt { pawn_event_handler = none }) st)
]

pub omp_cleanup : Server → State → State
omp_cleanup server st = drop_listener server (kill_tick st)

-- The `free` of the component's table, less the release of the component itself.
pub comp_free : Server → State → State
comp_free server st = unload (omp_cleanup server st)
