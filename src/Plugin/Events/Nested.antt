-- ===== src/Plugin/Events/Nested.antt =====
-- A handler that calls the public that it watches (crates/samp/src/events.rs).
use rust_samp.Base.{
  ℕ, ◌≡◌, refl, ap, sym, ◌∙◌, inl, inr, Bool, true, false, Option, some, List, [], ◌∷◌, Bool-cases,
  Option-cases,
}
use rust_samp.Cell.Args.{Args, reset}
use rust_samp.Cell.Args
use rust_samp.Plugin.Registry.{get}
use rust_samp.Plugin.Events.{
  contains_key, enter_dispatch, read_stack_params, Outcome, continue_public, suppress, panicked,
  Answer, World, Executed, run_handlers, leave, guarded, is_user_public, dispatch, finish,
  exec_detour, resolved_handlers,
}
use rust_samp.Plugin.Events.Dispatch.{
  contains_key-append, enter_dispatch-entered, enter_dispatch-held, exec_detour-held,
}

module _ {W : Type 0} (amx index : ℕ) where
  -- The public is being dispatched.
  abbrev pub Held : World W → Type 0
  Held w = contains_key (amx, index) w.rt.dispatching ≡ true

  -- The function of the handlers, or another that does the same while the public is being dispatched.
  module _ (f g : ℕ → Args → World W → Answer W)
      (keeps : (h : ℕ) (args : Args) (w : World W)
        → (f h args w).2.rt.dispatching ≡ w.rt.dispatching)
      (same : (h : ℕ) (args : Args) (w : World W) → Held w → f h args w ≡ g h args w) where
    run_handlers_same :
        (hs : List ℕ) (args : Args) (w : World W)
        → Held w
        → run_handlers f hs args w ≡ run_handlers g hs args w
    unfolding run_handlers
    run_handlers_same [] args w held = refl
    run_handlers_same (h ∷ hs) args w held =
        let (answer, left, after) = f h (reset args) w in
        let still = ap (contains_key (amx, index)) (keeps h (reset args) w) ∙ held in
        let go : (r : Answer W) → Outcome × World W = λ r. elim r.0 [
          | continue_public ↦ run_handlers g hs r.1 r.2
          | suppress value ↦ (suppress value, r.2)
          | panicked ↦ (panicked, r.2)
        ] in
        ap
          (λ rest. elim answer as (λ x. Outcome × World W) [
            | continue_public ↦ rest
            | suppress value ↦ (suppress value, after)
            | panicked ↦ (panicked, after)
          ])
          (run_handlers_same hs left after still)
        ∙ ap go (same h (reset args) w held)

    guarded_same : (hs : List ℕ) (w : World W) → Held w → guarded f amx hs w ≡ guarded g amx hs w
    unfolding guarded
    guarded_same hs w held = elim (Option-cases (get amx w.rt)) [
      | inl p ↦ rw (guarded, p) refl
      | inr (script, p) ↦ elim (Option-cases (read_stack_params (w.machines amx))) [
        | inl q ↦ rw (guarded, p, q) refl
        | inr (params, q) ↦ rw (guarded, p, q) (run_handlers_same hs (Args.new params) w held)
      ]
    ]

    entered-Held :
        (w : World W)
        → contains_key (amx, index) w.rt.dispatching ≡ false
        → Held (record w { rt = (enter_dispatch (amx, index) w.rt).1 })
    unfolding enter_dispatch
    entered-Held w p = rw (p) (contains_key-append (amx, index) w.rt.dispatching)

    dispatch_same : (w : World W) → dispatch f (some amx) index w ≡ dispatch g (some amx) index w
    unfolding dispatch leave
    dispatch_same w = elim (Bool-cases (is_user_public index)) [
      | inr p ↦ rw (p) refl
      | inl p ↦ elim (Option-cases (resolved_handlers amx index w.rt)) [
        | inl q ↦ rw (p, q) refl
        | inr (hs, q) ↦ elim (Bool-cases (contains_key (amx, index) w.rt.dispatching)) [
          | inl r ↦ rw (p, q, enter_dispatch-held (amx, index) w.rt r) refl
          | inr r ↦
              rw (p, q, enter_dispatch-entered (amx, index) w.rt r)
                (ap (leave f (amx, index)) (
                  guarded_same hs (record w { rt = (enter_dispatch (amx, index) w.rt).1 })
                    (entered-Held w r)))
        ]
      ]
    ]

  -- A handler that calls the public that it handles gets the public itself: where `handler` is given the function that its calls of the public run, uses it only while the public is still being dispatched, and does not change what is being dispatched, the detour of the public does the same whether those calls go through the detour again, with any handlers, or directly to the public.
  pub exec_detour_nested :
      (handler : (World W → Executed × World W) → ℕ → Args → World W → Answer W)
      (inner : ℕ → Args → World W → Answer W)
      (exec : Option ℕ → Bool → ℕ → World W → Executed × World W) (has_retval : Bool)
      → ((f g : World W → Executed × World W)
          → ((w : World W) → Held w → f w ≡ g w)
          → (h : ℕ) (args : Args) (w : World W) → Held w
          → handler f h args w ≡ handler g h args w)
      → ((h : ℕ) (args : Args) (w : World W)
          → (handler (exec (some amx) has_retval index) h args w).2.rt.dispatching
            ≡ w.rt.dispatching)
      → (w : World W)
      → exec_detour
          (handler (exec_detour inner exec (some amx) has_retval index))
          exec
          (some amx)
          has_retval
          index
          w
        ≡ exec_detour
            (handler (exec (some amx) has_retval index))
            exec
            (some amx)
            has_retval
            index
            w
  unfolding exec_detour
  exec_detour_nested handler inner exec has_retval uses keeps w =
      let direct = exec (some amx) has_retval index in
      let hooked = exec_detour inner exec (some amx) has_retval index in
      let itself : (v : World W) → Held v → direct v ≡ hooked v =
        λ v held. sym (exec_detour-held inner exec amx index has_retval v held) in
      ap (finish (handler direct) exec (some amx) has_retval index)
        (sym (dispatch_same (handler direct) (handler hooked) keeps (uses direct hooked itself) w))
