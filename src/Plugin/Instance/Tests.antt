-- ===== src/Plugin/Instance/Tests.antt =====
-- A job that calls into a native of its own plugin (crates/samp/src/plugin.rs).
use rust_samp.Base.{◌≡◌, refl, false, some, [], ◌∷◌}
use rust_samp.Plugin.Instance.{
  inside_native, borrows_alias, lent, returned, entered, left, warned, State, Code, finished,
  panics, with_instance, native, warn_alias, enter, leave, borrow, release, lend, run,
}
use rust_samp.Plugin.Instance.Exclusive.{Restored, run-Restored}

abbrev idle : State
idle = record {
  plugin_borrowed = false;
  native_depth = 0;
  alias_warned = false;
  plugin_type = some 1;
  trace = [];
}

-- The closure runs a native, which asks for the plugin again, and panics.
abbrev job : Code
job = with_instance 1 (native (with_instance 1 finished finished) panics) finished

run-Restored_example : Restored idle (run job idle).1
run-Restored_example = run-Restored job idle refl

traced :
    (run job idle).1.trace
    ≡ lent ∷ warned borrows_alias ∷ entered ∷ warned inside_native ∷ left ∷ returned ∷ []
unfolding run lend release borrow leave enter warn_alias
traced = refl
