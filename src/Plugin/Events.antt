-- ===== src/Plugin/Events.antt =====
-- crates/samp/src/events.rs: the callbacks of the scripts that the plugin watches. The detour library's
-- trampoline, `amx_FindPublic` and the handlers are parameters; a public's index is a 32-bit pattern.
pub mod Resolved
pub mod Dispatch
pub mod Stack
pub mod Arguments
pub mod Nested
mod Tests
use rust_samp.Base.{
  ℕ, zero, suc, ◌+◌, ◌*◌, ◌-◌, ◌<◌, Bool, true, false, not, Option, none, some, List, [], ◌∷◌, ◌++◌,
  ◌&&◌, ◌||◌, map, length, get_elem?, leb, ltb, ◌==◌, if◌then◌else◌,
}
use rust_samp.Base.Words.{u32_mod, sign_bit, slt}
use rust_samp.Base.Search.{find, select, any}
use rust_samp.Base.Text.{Text}
use rust_samp.Amx.Memory.{Vm, read_cell, checked_add}
use rust_samp.Cell.Args.{Args, reset}
use rust_samp.Cell.Args
use rust_samp.Plugin.Runtime.{Runtime, EventInfo, EventTable, Script}
use rust_samp.Plugin.Registry.{get}

-- `by_index[index].push(handler)` on a table made long enough.
pub push_at : ℕ → ℕ → List (List ℕ) → List (List ℕ)
push_at zero handler [] = (handler ∷ []) ∷ []
push_at zero handler (handlers ∷ table) = (handlers ++ handler ∷ []) ∷ table
push_at (suc index) handler [] = [] ∷ push_at index handler []
push_at (suc index) handler (handlers ∷ table) = handlers ∷ push_at index handler table

-- The loop over the events. `none` is a public that the script does not define.
pub by_index : (Text → Option ℕ) → List EventInfo → List (List ℕ) → List (List ℕ)
by_index find_public [] table = table
by_index find_public (event ∷ events) table =
    by_index find_public events (elim (find_public event.name) [
      | none ↦ table
      | some index ↦ if slt index 0 then table else push_at index event.handler table
    ])

pub watched : List ℕ → Option (List ℕ)
watched [] = none
watched (h ∷ handlers) = some (h ∷ handlers)

pub remove_resolved_events : ℕ → Runtime → Runtime
remove_resolved_events ident rt = record rt {
  resolved_events = select (λ (p : ℕ × EventTable). not (p.0 == ident)) rt.resolved_events;
}

pub set_resolved_events : ℕ → EventTable → Runtime → Runtime
set_resolved_events ident table rt =
    let rest = remove_resolved_events ident rt in
    if length table == 0
    then rest
    else record rest { resolved_events = rest.resolved_events ++ (ident, table) ∷ [] }

pub resolve_events_for_amx : (Text → Option ℕ) → ℕ → Runtime → Runtime
resolve_events_for_amx find_public amx rt =
    set_resolved_events amx (map watched (by_index find_public rt.events [])) rt

pub has_events : Runtime → Bool
has_events rt = ltb 0 (length rt.events)

-- What `on_amx_load` and `on_amx_unload` do to the runtime.
pub on_amx_load : (Text → Option ℕ) → ℕ → Runtime → Runtime
on_amx_load find_public amx rt =
    if has_events rt then resolve_events_for_amx find_public amx rt else rt

pub on_amx_unload : ℕ → Runtime → Runtime
on_amx_unload amx rt = if has_events rt then remove_resolved_events amx rt else rt

pub resolved_handlers : ℕ → ℕ → Runtime → Option (List ℕ)
resolved_handlers ident index rt =
    elim (find (λ (p : ℕ × EventTable). p.0 == ident) rt.resolved_events) [
      | none ↦ none
      | some (owner, table) ↦
          if slt index 0
          then none
          else (elim (get_elem? table index) [ none ↦ none | some handlers ↦ handlers ])
    ]

eq_key : ℕ × ℕ → ℕ × ℕ → Bool
eq_key (a, i) (b, j) = a == b && i == j

pub contains_key : ℕ × ℕ → List (ℕ × ℕ) → Bool
unfolding eq_key
contains_key key keys = any (eq_key key) keys

pub remove_last : ℕ × ℕ → List (ℕ × ℕ) → List (ℕ × ℕ)
unfolding eq_key
remove_last key [] = []
remove_last key (k ∷ keys) =
    let rest = remove_last key keys in
    if contains_key key keys then k ∷ rest else if eq_key key k then keys else k ∷ keys

-- `false` where the key is being dispatched already.
pub enter_dispatch : ℕ × ℕ → Runtime → Bool × Runtime
enter_dispatch key rt =
    if contains_key key rt.dispatching
    then (false, rt)
    else (true, record rt { dispatching = rt.dispatching ++ key ∷ [] })

pub leave_dispatch : ℕ × ℕ → Runtime → Runtime
leave_dispatch key rt = record rt { dispatching = remove_last key rt.dispatching }

-- A script's machine: its blocks and registers, and the number of arguments that were pushed.
pub record Machine : Type 0 where
  pub vm : Vm
  pub paramcount : ℕ

-- The cells of the arguments, from an address of the stack.
pub read_params : Vm → ℕ → ℕ → Option (List ℕ)
read_params vm zero addr = some []
read_params vm (suc n) addr = elim (read_cell vm addr) [
  | none ↦ none
  | some cell ↦ elim (checked_add addr 4) [
    | none ↦ none
    | some next ↦ elim (read_params vm n next) [ none ↦ none | some cells ↦ some (cell ∷ cells) ]
  ]
]

-- `checked_mul(4)` of a number that is not negative.
pub checked_bytes : ℕ → Option ℕ
checked_bytes n = if ltb (n * 4) sign_bit then some (n * 4) else none

-- The cells and their number in bytes; the buffer that they are put in is as long as they are.
pub read_stack_params : Machine → Option (List ℕ)
read_stack_params m = if slt m.paramcount 0 then none else elim (checked_bytes m.paramcount) [
  | none ↦ none
  | some bytes ↦ elim (read_params m.vm m.paramcount m.vm.stk) [
    | none ↦ none
    | some cells ↦ some (bytes ∷ cells)
  ]
]

pub consume_arguments : Machine → Machine
consume_arguments m =
    let count = if slt m.paramcount 0 then 0 else m.paramcount in
    let consumed : Option ℕ = elim (checked_bytes count) [
      | none ↦ none
      | some bytes ↦ checked_add m.vm.stk bytes
    ] in
    record {
      vm = elim consumed [ none ↦ m.vm | some stk ↦ record m.vm { stk = stk } ];
      paramcount = 0;
    }

-- What a handler answers, or that it panics.
pub data Outcome : Type 0 where
  continue_public : Outcome
  suppress : ℕ → Outcome
  panicked : Outcome

pub record World (W : Type 0) : Type 0 where
  pub rt : Runtime
  pub machines : ℕ → Machine
  pub other : W

-- A call of `amx_Exec`: its return code, and what it writes to `retval`: nothing where that is null.
pub record Executed : Type 0 where
  pub code : ℕ
  pub retval : Option ℕ

-- `-1` and `-2` are no publics.
pub is_user_public : ℕ → Bool
is_user_public index = not (index == u32_mod - 1 || index == u32_mod - 2)

-- What a handler answers, and its arguments and the world as it leaves them.
abbrev pub Answer : Type 0 → Type 0
Answer W = Outcome × Args × World W

module _ {W : Type 0} (run_handler : ℕ → Args → World W → Answer W) where
  -- The handlers share the arguments, which are read from the start by each.
  pub run_handlers : List ℕ → Args → World W → Outcome × World W
  run_handlers [] args w = (continue_public, w)
  run_handlers (h ∷ handlers) args w =
      let (answer, left, after) = run_handler h (reset args) w in
      elim answer [
        | continue_public ↦ run_handlers handlers left after
        | suppress value ↦ (suppress value, after)
        | panicked ↦ (panicked, after)
      ]

  leave : ℕ × ℕ → Outcome × World W → Outcome × World W
  leave key (answer, w) = (answer, record w { rt = leave_dispatch key w.rt })

  -- What `dispatch` does with the guard held.
  pub guarded : ℕ → List ℕ → World W → Outcome × World W
  guarded amx handlers w = elim (get amx w.rt) [
    | none ↦ (continue_public, w)
    | some script ↦ elim (read_stack_params (w.machines amx)) [
      | none ↦ (continue_public, w)
      | some params ↦ run_handlers handlers (Args.new params) w
    ]
  ]

  pub dispatch : Option ℕ → ℕ → World W → Outcome × World W
  unfolding leave guarded
  dispatch none index w = (continue_public, w)
  dispatch (some amx) index w =
      if not (is_user_public index)
      then (continue_public, w)
      else elim (resolved_handlers amx index w.rt) [
        | none ↦ (continue_public, w)
        | some handlers ↦
            let (entered, rt) = enter_dispatch (amx, index) w.rt in
            if entered
            then leave (amx, index) (guarded amx handlers (record w { rt = rt }))
            else (continue_public, w)
      ]

set_machine : {W : Type 0} → ℕ → Machine → World W → World W
set_machine amx m w = record w { machines = λ a. if a == amx then m else w.machines a }

-- A successful call that gave a value; `has_retval` is false where `retval` is null.
pub returned : Bool → ℕ → Executed
returned has_retval value = record { code = 0; retval = if has_retval then some value else none }

-- Where a handler suppressed the public.
pub suppressed : {W : Type 0} → Option ℕ → Bool → ℕ → World W → Executed × World W
unfolding set_machine
suppressed none has_retval value w = (returned has_retval value, w)
suppressed (some amx) has_retval value w =
    (returned has_retval value, set_machine amx (consume_arguments (w.machines amx)) w)

-- `exec` is the public itself, behind the detour.
module _ {W : Type 0} (run_handler : ℕ → Args → World W → Answer W)
    (exec : Option ℕ → Bool → ℕ → World W → Executed × World W) where
  finish : Option ℕ → Bool → ℕ → Outcome × World W → Executed × World W
  finish amx has_retval index (suppress value, w) = suppressed amx has_retval value w
  finish amx has_retval index (continue_public, w) = exec amx has_retval index w
  finish amx has_retval index (panicked, w) = exec amx has_retval index w

  pub exec_detour : Option ℕ → Bool → ℕ → World W → Executed × World W
  unfolding finish
  exec_detour amx has_retval index w =
      finish amx has_retval index (dispatch run_handler amx index w)
