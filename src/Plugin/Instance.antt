-- ===== src/Plugin/Instance.antt =====
-- crates/samp/src/plugin.rs: who holds the plugin, `with_instance` and `NativeFrame`. All of it runs on
-- the main thread, so the atomics are fields. A type is a number.
pub mod Exclusive
mod Tests
use rust_samp.Base.{
  ℕ, zero, suc, ◌+◌, ◌-◌, Bool, true, false, not, Option, none, some, List, [], ◌∷◌, ◌++◌, ◌&&◌,
  ltb, ◌==◌, if◌then◌else◌,
}

pub data Warning : Type 0 where
  inside_native : Warning
  already_borrowed : Warning
  wrong_type : Warning
  no_plugin : Warning
  borrows_alias : Warning

-- What happens, in order: a closure gets the plugin and gives it back, a native starts and ends.
pub data Happened : Type 0 where
  lent : Happened
  returned : Happened
  entered : Happened
  left : Happened
  warned : Warning → Happened

pub record State : Type 0 where
  pub plugin_borrowed : Bool
  pub native_depth : ℕ
  -- The flag of the warning that is given once.
  pub alias_warned : Bool
  -- The type of the plugin, once it is set.
  pub plugin_type : Option ℕ
  pub trace : List Happened

-- What code on the main thread does: it ends, panics, or first calls `with_instance` with a type and a
-- closure, or a native of the plugin, and goes on behind it.
pub data Code : Type 0 where
  finished : Code
  panics : Code
  with_instance : ℕ → Code → Code → Code
  native : Code → Code → Code

abbrev pub note : Happened → State → State
note h s = record s { trace = s.trace ++ h ∷ [] }

-- `NativeFrame::enter` and `drop`.
pub warn_alias : State → State
warn_alias s =
    if s.plugin_borrowed && not s.alias_warned
    then note (warned borrows_alias) (record s { alias_warned = true })
    else s

pub enter : State → State
enter s =
    let checked = warn_alias s in
    note entered (record checked { native_depth = checked.native_depth + 1 })

pub leave : State → State
leave s = note left (record s { native_depth = s.native_depth - 1 })

-- The plugin is lent to a closure, and given back whether or not the closure panics.
pub borrow : State → State
borrow s = note lent (record s { plugin_borrowed = true })

pub release : State → State
release s = note returned (record s { plugin_borrowed = false })

-- The answer of `with_instance`, with what its closure does with the plugin: whether it panicked.
pub lend : ℕ → (Bool × State) → State → Bool × State
lend type (panicked, inner) s =
    if ltb 0 s.native_depth
    then (false, note (warned inside_native) s)
    else if s.plugin_borrowed
    then (false, note (warned already_borrowed) s)
    else elim s.plugin_type [
      | none ↦ (false, note (warned no_plugin) s)
      | some t ↦
          if t == type then (panicked, release inner) else (false, note (warned wrong_type) s)
    ]

-- Whether the code panics, and the state it leaves. A native does not panic to its caller.
pub run : Code → State → Bool × State
run finished s = (false, s)
run panics s = (true, s)
run (with_instance type body rest) s =
    let (panicked, after) = lend type (run body (borrow s)) s in
    let later = run rest after in if panicked then (true, after) else later
run (native body rest) s = run rest (leave (run body (enter s)).1)
