-- ===== src/Plugin/Events/Dispatch.antt =====
-- What the detour keeps (crates/samp/src/events.rs).
use rust_samp.Base.{
  ℕ, ◌≡◌, refl, ap, ◌∙◌, inl, inr, Bool, true, false, Option, none, some, List, [], ◌∷◌, ◌++◌,
  ==_refl, arith, Bool-cases, Option-cases,
}
use rust_samp.Base.Search.{any}
use rust_samp.Cell.Args.{Args, reset}
use rust_samp.Cell.Args
use rust_samp.Plugin.Runtime.{Runtime}
use rust_samp.Plugin.Registry.{get}
use rust_samp.Plugin.Events.{
  eq_key, contains_key, remove_last, enter_dispatch, leave_dispatch, read_stack_params, Outcome,
  continue_public, suppress, panicked, Answer, World, Executed, run_handlers, leave, guarded,
  is_user_public, dispatch, suppressed, set_machine, finish, exec_detour, resolved_handlers,
}

pub contains_key-append :
    (key : ℕ × ℕ) (keys : List (ℕ × ℕ)) → contains_key key (keys ++ key ∷ []) ≡ true
unfolding contains_key eq_key any
contains_key-append (a, i) [] = rw (==_refl a, ==_refl i) refl
contains_key-append (a, i) ((b, j) ∷ keys) = ground (arith, contains_key-append (a, i) keys)

remove_last-append : (key : ℕ × ℕ) (keys : List (ℕ × ℕ)) → remove_last key (keys ++ key ∷ []) ≡ keys
unfolding remove_last contains_key eq_key any
remove_last-append (a, i) [] = rw (remove_last, ==_refl a, ==_refl i) refl
remove_last-append (a, i) (k ∷ keys) =
    rw (remove_last, contains_key-append (a, i) keys) (ap (◌∷◌ k) (remove_last-append (a, i) keys))

pub enter_dispatch-entered :
    (key : ℕ × ℕ) (rt : Runtime)
    → contains_key key rt.dispatching ≡ false
    → (enter_dispatch key rt).0 ≡ true
unfolding enter_dispatch
enter_dispatch-entered key rt p = rw (p) refl

pub enter_dispatch-held :
    (key : ℕ × ℕ) (rt : Runtime)
    → contains_key key rt.dispatching ≡ true
    → (enter_dispatch key rt).0 ≡ false
unfolding enter_dispatch
enter_dispatch-held key rt p = rw (p) refl

-- The publics that are being dispatched are the same afterwards.
abbrev pub Keeps : {A W : Type 0} → (World W → A × World W) → Type 0
Keeps {A} {W} f = (w : World W) → (f w).1.rt.dispatching ≡ w.rt.dispatching

module _ {W : Type 0} (run_handler : ℕ → Args → World W → Answer W)
    (exec : Option ℕ → Bool → ℕ → World W → Executed × World W)
    (handlers_keep : (h : ℕ) (args : Args) (w : World W)
      → (run_handler h args w).2.rt.dispatching ≡ w.rt.dispatching)
    (exec_keeps : (amx : Option ℕ) (has_retval : Bool) (index : ℕ)
      → Keeps (exec amx has_retval index)) where
  -- One handler answered: the others run, or the dispatch is over.
  Outcome-Keeps :
      (answer : Outcome) (after w : World W) (rest : Outcome × World W)
      → after.rt.dispatching ≡ w.rt.dispatching
      → rest.1.rt.dispatching ≡ after.rt.dispatching
      → (elim answer as (λ x. Outcome × World W) [
        | continue_public ↦ rest
        | suppress value ↦ (suppress value, after)
        | panicked ↦ (panicked, after)
      ]).1.rt.dispatching
        ≡ w.rt.dispatching
  Outcome-Keeps continue_public after w rest p q = q ∙ p
  Outcome-Keeps (suppress value) after w rest p q = p
  Outcome-Keeps panicked after w rest p q = p

  run_handlers-Keeps : (hs : List ℕ) (args : Args) → Keeps (run_handlers run_handler hs args)
  unfolding run_handlers
  run_handlers-Keeps [] args w = refl
  run_handlers-Keeps (h ∷ hs) args w =
      let (answer, left, after) = run_handler h (reset args) w in
      Outcome-Keeps answer after w (run_handlers run_handler hs left after)
        (handlers_keep h (reset args) w) (run_handlers-Keeps hs left after)

  guarded-Keeps : (amx : ℕ) (hs : List ℕ) → Keeps (guarded run_handler amx hs)
  unfolding guarded
  guarded-Keeps amx hs w = elim (Option-cases (get amx w.rt)) [
    | inl p ↦ rw (guarded, p) refl
    | inr (script, p) ↦ elim (Option-cases (read_stack_params (w.machines amx))) [
      | inl q ↦ rw (guarded, p, q) refl
      | inr (params, q) ↦ rw (guarded, p, q) (run_handlers-Keeps hs (Args.new params) w)
    ]
  ]

  -- Where the guard was taken, leaving gives back the list from before it.
  leave-Keeps :
      (amx index : ℕ) (hs : List ℕ) (w : World W)
      → contains_key (amx, index) w.rt.dispatching ≡ false
      → (leave run_handler
          (amx, index)
          (guarded run_handler amx hs
            (record w { rt = (enter_dispatch (amx, index) w.rt).1 }))).1.rt.dispatching
        ≡ w.rt.dispatching
  unfolding leave leave_dispatch enter_dispatch
  leave-Keeps amx index hs w p =
      let rt = (enter_dispatch (amx, index) w.rt).1 in
      ap (remove_last (amx, index))
        (guarded-Keeps amx hs (record w { rt = rt }) ∙ rw (enter_dispatch, p) refl)
      ∙ remove_last-append (amx, index) w.rt.dispatching

  dispatch-Keeps : (amx : Option ℕ) (index : ℕ) → Keeps (dispatch run_handler amx index)
  unfolding dispatch enter_dispatch
  dispatch-Keeps none index w = refl
  dispatch-Keeps (some amx) index w = elim (Bool-cases (is_user_public index)) [
    | inr p ↦ rw (p) refl
    | inl p ↦ elim (Option-cases (resolved_handlers amx index w.rt)) [
      | inl q ↦ rw (p, q) refl
      | inr (hs, q) ↦ elim (Bool-cases (contains_key (amx, index) w.rt.dispatching)) [
        | inl r ↦ rw (p, q, r) refl
        | inr r ↦
            rw (p, q, enter_dispatch-entered (amx, index) w.rt r) (leave-Keeps amx index hs w r)
      ]
    ]
  ]

  finish-Keeps :
      (amx : Option ℕ) (has_retval : Bool) (index : ℕ) (answer : Outcome) (w : World W)
      → (finish run_handler exec amx has_retval index (answer, w)).1.rt.dispatching
        ≡ w.rt.dispatching
  unfolding finish suppressed set_machine
  finish-Keeps amx has_retval index continue_public w = exec_keeps amx has_retval index w
  finish-Keeps amx has_retval index panicked w = exec_keeps amx has_retval index w
  finish-Keeps none has_retval index (suppress value) w = refl
  finish-Keeps (some amx) has_retval index (suppress value) w = refl

  -- Where no handler and no public changes the list of the publics that are being dispatched, the detour does not change it either, whether the handlers continue, suppress or panic and whether or not the script is known.
  pub exec_detour-Keeps :
      (amx : Option ℕ) (has_retval : Bool) (index : ℕ)
      → Keeps (exec_detour run_handler exec amx has_retval index)
  unfolding exec_detour
  exec_detour-Keeps amx has_retval index w =
      let (answer, after) = dispatch run_handler amx index w in
      finish-Keeps amx has_retval index answer after ∙ dispatch-Keeps amx index w

module _ {W : Type 0} (run_handler : ℕ → Args → World W → Answer W)
    (exec : Option ℕ → Bool → ℕ → World W → Executed × World W) where
  dispatch-held :
      (amx index : ℕ) (w : World W)
      → contains_key (amx, index) w.rt.dispatching ≡ true
      → dispatch run_handler (some amx) index w ≡ (continue_public, w)
  unfolding dispatch
  dispatch-held amx index w r = elim (Bool-cases (is_user_public index)) [
    | inr p ↦ rw (p) refl
    | inl p ↦ elim (Option-cases (resolved_handlers amx index w.rt)) [
      | inl q ↦ rw (p, q) refl
      | inr (hs, q) ↦ rw (p, q, enter_dispatch-held (amx, index) w.rt r) refl
    ]
  ]

  pub exec_detour-held :
      (amx index : ℕ) (has_retval : Bool) (w : World W)
      → contains_key (amx, index) w.rt.dispatching ≡ true
      → exec_detour run_handler exec (some amx) has_retval index w
        ≡ exec (some amx) has_retval index w
  unfolding exec_detour finish
  exec_detour-held amx index has_retval w r = rw (exec_detour, dispatch-held amx index w r) refl
