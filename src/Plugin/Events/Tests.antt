-- ===== src/Plugin/Events/Tests.antt =====
-- A plugin that watches two publics of a script, and runs of its detour (crates/samp/src/events.rs).
use rust_samp.Base.{
  ℕ, ◌+◌, ◌≡◌, ◌≢◌, refl, ap, Bool, true, Option, none, some, List, [], ◌∷◌, ◌==◌, if◌then◌else◌,
  length, arith,
}
use rust_samp.Base.Words.{slt}
use rust_samp.Base.Search.{find}
use rust_samp.Base.Text.{Text}
use rust_samp.Amx.Memory.{Vm, read_cell, data_ptr, segment, inaccessible, copy_word, from_ne_bytes}
use rust_samp.Cell.Args.{Args}
use rust_samp.Plugin.Registry.{get}
use rust_samp.Plugin.Runtime.{Runtime, initialize}
use rust_samp.Plugin.Events.{
  has_events, resolve_events_for_amx, set_resolved_events, by_index, push_at,
  remove_resolved_events, on_amx_load, on_amx_unload, watched, resolved_handlers, Machine, Outcome,
  continue_public, suppress, Answer, World, Executed, guarded, exec_detour,
}
use rust_samp.Plugin.Events.Dispatch.{exec_detour-Keeps}
use rust_samp.Plugin.Events.Nested.{exec_detour_nested}
use rust_samp.Plugin.Events.Resolved.{watching, on_amx_load-watching, on_amx_unload-none}
use rust_samp.Plugin.Events.Stack.{popped}
use rust_samp.Plugin.Events.Arguments.{reading_handler, each_given, guarded-each_given}

-- Two handlers of one public and one of another.
abbrev rt : Runtime
rt = record initialize {
  amx_list = record { ident = 5; fn_table = 0 } ∷ [];
  events =
      record { name = 97 ∷ []; handler = 100 }
      ∷ record { name = 98 ∷ []; handler = 101 }
      ∷ record { name = 97 ∷ []; handler = 102 }
      ∷ [];
}

-- The first public is `b`, the second `a`.
abbrev find_public : Text → Option ℕ
find_public [] = none
find_public (c ∷ name) = if c == 97 then some 1 else some 0

abbrev empty : Vm
empty = record { base = some []; data_block = some []; cod = 0; dat = 0; hea = 0; stk = 0; stp = 0 }

-- Two arguments, at 8.
abbrev machine : Machine
machine = record {
  vm = record {
    base = some [];
    data_block =
        some (1 ∷ 0 ∷ 0 ∷ 0 ∷ 2 ∷ 0 ∷ 0 ∷ 0 ∷ 7 ∷ 0 ∷ 0 ∷ 0 ∷ 9 ∷ 0 ∷ 0 ∷ 0 ∷ 0 ∷ 0 ∷ 0 ∷ 0 ∷ []);
    cod = 0;
    dat = 0;
    hea = 4;
    stk = 8;
    stp = 20;
  };
  paramcount = 2;
}

abbrev world : World ℕ
world = record { rt = on_amx_load find_public 5 rt; machines = λ amx. machine; other = 0 }

-- The handlers count their calls; the second handler of `a` suppresses it.
abbrev run_handler : ℕ → Args → World ℕ → Answer ℕ
run_handler h args w =
    (if h == 102 then suppress 42 else continue_public, args, record w { other = w.other + 1 })

-- The public itself counts by hundreds and takes its arguments off the stack.
abbrev exec : Option ℕ → Bool → ℕ → World ℕ → Executed × World ℕ
exec amx has_retval index w = (
  record { code = 0; retval = some 1 },
  record w { machines = λ a. popped (w.machines a); other = w.other + 100 },
)

exec_detour-Keeps_example :
    (exec_detour run_handler exec (some 5) true 1 world).1.rt.dispatching ≡ world.rt.dispatching
exec_detour-Keeps_example =
    exec_detour-Keeps run_handler exec (λ h args w. refl) (λ amx has_retval index w. refl) (some 5)
      true 1 world

-- A handler that calls the public that it handles.
abbrev calls : (World ℕ → Executed × World ℕ) → ℕ → Args → World ℕ → Answer ℕ
calls run h args w = (continue_public, args, (run w).1)

exec_detour_nested_example :
    exec_detour (calls (exec_detour run_handler exec (some 5) true 1)) exec (some 5) true 1 world
    ≡ exec_detour (calls (exec (some 5) true 1)) exec (some 5) true 1 world
exec_detour_nested_example =
    exec_detour_nested 5 1 calls run_handler exec true
      (λ f g same h args w held.
        ap (λ (r : Executed × World ℕ). (continue_public, args, r.1)) (same w held))
      (λ h args w. refl) world

on_amx_load-watching_example :
    (resolved_handlers 5 1 (on_amx_load find_public 5 rt)
      ≡ (if slt 1 0 then none else watched (watching find_public 1 rt.events)))
    × ((other : ℕ)
        → 5 ≢ other
        → resolved_handlers other 1 (on_amx_load find_public 5 rt) ≡ resolved_handlers other 1 rt)
unfolding has_events
on_amx_load-watching_example = on_amx_load-watching find_public 5 1 rt refl

handlers_of_a : watched (watching find_public 1 rt.events) ≡ some (100 ∷ 102 ∷ [])
unfolding watched
handlers_of_a = refl

on_amx_unload-none_example :
    (resolved_handlers 5 1 (on_amx_unload 5 rt) ≡ none)
    × ((other : ℕ)
        → 5 ≢ other
        → resolved_handlers other 1 (on_amx_unload 5 rt) ≡ resolved_handlers other 1 rt)
unfolding has_events
on_amx_unload-none_example = on_amx_unload-none 5 1 rt refl

-- The first handler reads one argument and the others read three; they add up how many they were given.
abbrev act : ℕ → List (Option ℕ) → World ℕ → Outcome × World ℕ
act h values w = (continue_public, record w { other = w.other + length values })

guarded-each_given_example :
    guarded
      (reading_handler (λ cell. some cell) (λ h. if h == 100 then 1 else 3) act)
      5
      (100 ∷ 102 ∷ [])
      world
    ≡ each_given
        (λ cell. some cell)
        (λ h. if h == 100 then 1 else 3)
        act
        (7 ∷ 9 ∷ [])
        (100 ∷ 102 ∷ [])
        world
unfolding read_cell data_ptr segment inaccessible copy_word from_ne_bytes get find on_amx_load
    has_events resolve_events_for_amx set_resolved_events by_index push_at remove_resolved_events
guarded-each_given_example =
    guarded-each_given (λ cell. some cell) (λ h. if h == 100 then 1 else 3) act 5 (7 ∷ 9 ∷ [])
      (100 ∷ 102 ∷ []) world (record { ident = 5; fn_table = 0 }) refl refl (omega arith)
      (refl, (refl, tt))
