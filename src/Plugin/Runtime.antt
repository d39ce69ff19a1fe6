-- ===== src/Plugin/Runtime.antt =====
-- crates/samp/src/runtime.rs: the state of the plugin. Pointers are addresses, never 0; a pointer that
-- may be null is an option. A script is known by the address of its machine.
use rust_samp.Base.{ℕ, Bool, false, Option, none, some, List, [], if◌then◌else◌, ◌+◌, ◌-◌}
use rust_samp.Base.Text.{Text}

-- An `Amx`: its identity and the function table it was made with.
pub record Script : Type 0 where
  pub ident : ℕ
  pub fn_table : ℕ

pub record TickConfig : Type 0 where
  pub sa_mp : Bool
  pub omp : Bool
  pub omp_interval : ℕ

-- A handler is its address.
pub record EventInfo : Type 0 where
  pub name : Text
  pub handler : ℕ

abbrev pub EventTable : Type 0
EventTable = List (Option (List ℕ))

pub record Runtime : Type 0 where
  pub tick_config : Option TickConfig
  pub last_tick_at : Option ℕ
  -- The AMX function table in what `Load` was given.
  pub server_exports : Option ℕ
  pub omp_amx_exports : Option ℕ
  pub omp_core : Option ℕ
  pub omp_component_list : Option ℕ
  pub pawn_event_handler : Option ℕ
  pub omp_natives : List ℕ
  pub omp_pending_amx : List ℕ
  pub omp_tick_timer : Option ℕ
  pub omp_tick_handler : Option ℕ
  pub amx_list : List Script
  pub events : List EventInfo
  pub resolved_events : List (ℕ × EventTable)
  pub dispatching : List (ℕ × ℕ)

-- `Runtime::initialize`.
unfoldable pub initialize : Runtime
initialize = record {
  tick_config = none;
  last_tick_at = none;
  server_exports = none;
  omp_amx_exports = none;
  omp_core = none;
  omp_component_list = none;
  pawn_event_handler = none;
  omp_natives = [];
  omp_pending_amx = [];
  omp_tick_timer = none;
  omp_tick_handler = none;
  amx_list = [];
  events = [];
  resolved_events = [];
  dispatching = [];
}

pub amx_exports : Runtime → ℕ
amx_exports rt = elim rt.omp_amx_exports [
  | some exports ↦ exports
  | none ↦ elim rt.server_exports [ none ↦ 0 | some exports ↦ exports ]
]

pub tick_enabled_for_sa_mp : Runtime → Bool
tick_enabled_for_sa_mp rt = elim rt.tick_config [ none ↦ false | some c ↦ c.sa_mp ]

-- `VERSION | AMX_NATIVES`, with `PROCESS_TICK`; the flags are different bits.
pub supports : Runtime → ℕ
supports rt = if tick_enabled_for_sa_mp rt then 512 + 0x1_0000 + 0x2_0000 else 512 + 0x1_0000

pub omp_tick_interval : Runtime → Option ℕ
omp_tick_interval rt = elim rt.tick_config [
  | none ↦ none
  | some c ↦ if c.omp then some c.omp_interval else none
]

-- The time since the tick before, at a clock that does not go back, in nanoseconds.
unfoldable pub record_tick : ℕ → Runtime → ℕ × Runtime
record_tick now rt = (
  elim rt.last_tick_at [ none ↦ 0 | some previous ↦ now - previous ],
  record rt { last_tick_at = some now },
)
