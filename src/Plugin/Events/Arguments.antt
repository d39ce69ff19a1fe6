-- ===== src/Plugin/Events/Arguments.antt =====
-- What the handlers of a public read of its arguments (crates/samp/src/events.rs).
use rust_samp.Base.{
  ℕ, ◌+◌, ◌*◌, ◌<◌, ◌≡◌, refl, ap, ◌∙◌, Option, some, List, [], ◌∷◌, ◌++◌, map, length, take, arith,
}
use rust_samp.Base.Words.{sign_bit}
use rust_samp.Cell.Args.{Args, next_args, after_args, reset}
use rust_samp.Cell.Args
use rust_samp.Cell.Args.Order.{
  nothing, after_args-params, reset-params, new-params, next_args-first,
}
use rust_samp.Plugin.Registry.{get}
use rust_samp.Plugin.Runtime.{Script}
use rust_samp.Plugin.Events.{
  Outcome, continue_public, suppress, panicked, Answer, World, run_handlers, guarded,
}
use rust_samp.Plugin.Events.Stack.{OnStack, read_stack_params-OnStack}

-- Handlers that read some of their arguments, each `reads h` times, and go on by what they read.
module _ {W T : Type 0} (from_raw : ℕ → Option T) (reads : ℕ → ℕ)
    (act : ℕ → List (Option T) → World W → Outcome × World W) where
  pub reading_handler : ℕ → Args → World W → Answer W
  reading_handler h args w =
      let (answer, after) = act h (next_args from_raw (reads h) args) w in
      (answer, after_args from_raw (reads h) args, after)

  -- The handlers in order, up to one that does not let the public run. Each is given the arguments from the first on, and nothing after the last one.
  pub each_given : List ℕ → List ℕ → World W → Outcome × World W
  each_given cells [] w = (continue_public, w)
  each_given cells (h ∷ hs) w =
      let (answer, after) = act h (take (reads h) (map from_raw cells ++ nothing (reads h))) w in
      elim answer [
        | continue_public ↦ each_given cells hs after
        | suppress value ↦ (suppress value, after)
        | panicked ↦ (panicked, after)
      ]

  run_handlers-each_given :
      (cells hs : List ℕ) (args : Args) (w : World W)
      → length cells < 0x2000_0000
      → args.params ≡ 4 * length cells ∷ cells
      → run_handlers reading_handler hs args w ≡ each_given cells hs w
  unfolding run_handlers each_given reading_handler
  run_handlers-each_given cells [] args w h e = refl
  run_handlers-each_given cells (x ∷ hs) args w h e =
      let given = next_args-first from_raw cells (reads x) args h e in
      let left = after_args from_raw (reads x) (reset args) in
      let same : left.params ≡ 4 * length cells ∷ cells =
        after_args-params from_raw (reads x) (reset args) ∙ reset-params args ∙ e in
      let (answer, after) = act x (next_args from_raw (reads x) (reset args)) w in
      let go : Outcome × World W → Outcome × World W = λ r. elim r.0 [
        | continue_public ↦ each_given cells hs r.1
        | suppress value ↦ (suppress value, r.1)
        | panicked ↦ (panicked, r.1)
      ] in
      ap
        (λ rest. elim answer as (λ y. Outcome × World W) [
          | continue_public ↦ rest
          | suppress value ↦ (suppress value, after)
          | panicked ↦ (panicked, after)
        ])
        (run_handlers-each_given cells hs left after h same)
      ∙ ap (λ values. go (act x values w)) given

  -- Where the script is known and its arguments lie on its stack, every handler that is run is given the arguments from the first on, converted and in order, and nothing after the last one, however many of them the handlers before it read and however many it asks for.
  pub guarded-each_given :
      (amx : ℕ) (cells hs : List ℕ) (w : World W) (script : Script)
      → get amx w.rt ≡ some script
      → (w.machines amx).paramcount ≡ length cells
      → (w.machines amx).vm.stk + 4 * length cells < sign_bit
      → OnStack (w.machines amx).vm (w.machines amx).vm.stk cells
      → guarded reading_handler amx hs w ≡ each_given cells hs w
  unfolding guarded
  guarded-each_given amx cells hs w script known count h on =
      rw (guarded, known, read_stack_params-OnStack (w.machines amx) cells count h on)
        (run_handlers-each_given cells hs (Args.new (4 * length cells ∷ cells)) w (omega (arith, h))
          (new-params (4 * length cells ∷ cells)))
