-- ===== src/Plugin/Lifecycle/Resources.antt =====
-- The timer and the listener that the plugin owns (crates/samp/src/interlayer.rs).
use rust_samp.Base.{
  ℕ, zero, suc, ◌+◌, ◌≤◌, ◌≡◌, refl, ap, ◌∙◌, inl, inr, Option, none, some, List, [], ◌∷◌, ◌++◌,
  arith, Option-cases,
}
use rust_samp.Plugin.Runtime.{Runtime}
use rust_samp.Plugin.Registry.{insert_amx, remove_amx, get}
use rust_samp.Plugin.Registry.Counted.{one_if, insert_amx-OnlyScripts, remove_amx-OnlyScripts}
use rust_samp.Plugin.Events
use rust_samp.Plugin.Events.Resolved.{on_amx_load-OnlyTables, on_amx_unload-OnlyTables}
use rust_samp.Plugin.Lifecycle.{
  pawn_component_uid, Effect, register, on_amx_load, on_amx_unload, add, sdk_warn, new_pawn_handler,
  add_pawn_event_handler, State, Server, amx_load, amx_unload, native_call, inner_amx_load,
  inner_amx_unload, store_exports, listen, omp_on_init,
}
use rust_samp.Plugin.Lifecycle.Calls.{
  total, total-append, is_created, is_killed, is_new, is_dropped, told,
}

-- Whether the runtime holds it.
abbrev pub holds : ℕ → Option ℕ → ℕ
holds x none = 0
holds x (some y) = one_if x y

-- From one state to another, what is released and what is held grew by no more than what was made.
abbrev pub Owned : ℕ → State → State → Type 0
Owned x st st' =
    (told (is_killed x) st' + holds x st'.rt.omp_tick_timer + told (is_created x) st
      ≤ told (is_killed x) st + holds x st.rt.omp_tick_timer + told (is_created x) st')
    × (told (is_dropped x) st' + holds x st'.rt.pawn_event_handler + told (is_new x) st
        ≤ told (is_dropped x) st + holds x st.rt.pawn_event_handler + told (is_new x) st')

pub then_Owned : (x : ℕ) (s t u : State) → Owned x s t → Owned x t u → Owned x s u
then_Owned x s t u (p, q) (p', q') = (omega (arith, p, p'), omega (arith, q, q'))

pub kept : (x : ℕ) (st : State) → Owned x st st
kept x st = (omega arith, omega arith)

pub own :
    (x : ℕ) (st : State) (rt : Runtime) (effects : List Effect)
    → total (is_killed x) effects + holds x rt.omp_tick_timer
      ≤ holds x st.rt.omp_tick_timer + total (is_created x) effects
    → total (is_dropped x) effects + holds x rt.pawn_event_handler
      ≤ holds x st.rt.pawn_event_handler + total (is_new x) effects
    → Owned x st (record { rt = rt; effects = st.effects ++ effects })
own x st rt effects p q = (
  omega (
    arith,
    p,
    total-append (is_killed x) st.effects effects,
    total-append (is_created x) st.effects effects,
  ),
  omega (
    arith,
    q,
    total-append (is_dropped x) st.effects effects,
    total-append (is_new x) st.effects effects,
  ),
)

-- An operation that touches neither.
pub untouched :
    (x : ℕ) (st : State) (rt : Runtime) (effects : List Effect)
    → total (is_killed x) effects ≡ 0
    → total (is_dropped x) effects ≡ 0
    → rt.omp_tick_timer ≡ st.rt.omp_tick_timer
    → rt.pawn_event_handler ≡ st.rt.pawn_event_handler
    → Owned x st (record { rt = rt; effects = st.effects ++ effects })
untouched x st rt effects k d p q =
    own x st rt effects (omega (arith, k, ap (holds x) p)) (omega (arith, d, ap (holds x) q))

pub amx_load-Owned :
    (x : ℕ) (server : Server) (amx : ℕ) (natives : List ℕ) (st : State)
    → Owned x st (amx_load server amx natives st)
unfolding amx_load
amx_load-Owned x server amx natives st =
    let inserted = insert_amx amx st.rt in
    let (scripts, e) = insert_amx-OnlyScripts amx st.rt in
    let (tables, f) = on_amx_load-OnlyTables (server.find_public amx) amx inserted in
    untouched x st (Events.on_amx_load (server.find_public amx) amx inserted)
      (register amx natives ∷ on_amx_load amx ∷ []) refl refl
      (ap (λ (r : Runtime). r.omp_tick_timer) f ∙ ap (λ (r : Runtime). r.omp_tick_timer) e)
      (ap (λ (r : Runtime). r.pawn_event_handler) f ∙ ap (λ (r : Runtime). r.pawn_event_handler) e)

pub amx_unload-Owned : (x amx : ℕ) (st : State) → Owned x st (amx_unload amx st)
unfolding amx_unload
amx_unload-Owned x amx st =
    let before = Events.on_amx_unload amx st.rt in
    let rt = (remove_amx amx before).1 in
    let (tables, f) = on_amx_unload-OnlyTables amx st.rt in
    let (scripts, e) = remove_amx-OnlyScripts amx before in
    let timer : rt.omp_tick_timer ≡ st.rt.omp_tick_timer =
      ap (λ (r : Runtime). r.omp_tick_timer) e ∙ ap (λ (r : Runtime). r.omp_tick_timer) f in
    let handler : rt.pawn_event_handler ≡ st.rt.pawn_event_handler =
      ap (λ (r : Runtime). r.pawn_event_handler) e ∙ ap (λ (r : Runtime). r.pawn_event_handler) f in
    elim (Option-cases (remove_amx amx before).0) [
      | inl gone ↦
          rw (amx_unload, gone)
            (omega (arith, ap (holds x) timer), omega (arith, ap (holds x) handler))
      | inr (script, gone) ↦
          rw (amx_unload, gone)
            (untouched x st rt (on_amx_unload script.ident ∷ []) refl refl timer handler)
    ]

pub native_call-Owned : (x amx : ℕ) (st : State) → Owned x st (native_call amx st)
unfolding native_call
native_call-Owned x amx st =
    let (scripts, e) = insert_amx-OnlyScripts amx st.rt in
    elim (Option-cases (get amx st.rt)) [
      | inr (script, found) ↦ rw (native_call, found) (kept x st)
      | inl missing ↦
          rw (native_call, missing)
            (untouched x st (insert_amx amx st.rt) (add amx ∷ []) refl refl
              (ap (λ (r : Runtime). r.omp_tick_timer) e)
              (ap (λ (r : Runtime). r.pawn_event_handler) e))
    ]

pub inner_amx_load-Owned :
    (x : ℕ) (server : Server) (script : Option ℕ) (st : State)
    → Owned x st (inner_amx_load server script st)
unfolding inner_amx_load
inner_amx_load-Owned x server none st = kept x st
inner_amx_load-Owned x server (some amx) st = elim (Option-cases st.rt.omp_amx_exports) [
  | inr (exports, p) ↦ rw (inner_amx_load, p) (amx_load-Owned x server amx st.rt.omp_natives st)
  | inl p ↦ rw (inner_amx_load, p) (omega arith, omega arith)
]

pub inner_amx_unload-Owned :
    (x : ℕ) (script : Option ℕ) (st : State) → Owned x st (inner_amx_unload script st)
unfolding inner_amx_unload
inner_amx_unload-Owned x none st = kept x st
inner_amx_unload-Owned x (some amx) st = amx_unload-Owned x amx st

pub store_exports-Owned : (x exports : ℕ) (st : State) → Owned x st (store_exports exports st)
unfolding store_exports
store_exports-Owned x zero st = kept x st
store_exports-Owned x (suc exports) st = (omega arith, omega arith)

listen-Owned :
    (x : ℕ) (server : Server) (pawn : ℕ) (st : State) → Owned x st (listen server pawn st)
unfolding listen
listen-Owned x server pawn st = elim (Option-cases (server.get_pawn_event_dispatcher pawn)) [
  | inl p ↦ rw (listen, p) (untouched x st st.rt (sdk_warn ∷ []) refl refl refl refl)
  | inr (dispatcher, p) ↦
      rw (listen, p)
        (own x st (record st.rt { pawn_event_handler = some server.new_box })
          (new_pawn_handler server.new_box ∷ add_pawn_event_handler dispatcher server.new_box ∷ [])
          (omega arith) (omega arith))
]

pub omp_on_init-Owned :
    (x : ℕ) (server : Server) (components : ℕ) (st : State)
    → Owned x st (omp_on_init server components st)
unfolding omp_on_init
omp_on_init-Owned x server components st =
    let s : State = record st { rt = record st.rt { omp_component_list = some components } } in
    elim (Option-cases (server.query_component components pawn_component_uid)) [
      | inl p ↦ rw (omp_on_init, p) (untouched x st s.rt (sdk_warn ∷ []) refl refl refl refl)
      | inr (pawn, p) ↦
          let t = store_exports (server.get_amx_functions pawn) s in
          rw (omp_on_init, p)
            (then_Owned x s t (listen server pawn t)
              (store_exports-Owned x (server.get_amx_functions pawn) s)
              (listen-Owned x server pawn t))
    ]
