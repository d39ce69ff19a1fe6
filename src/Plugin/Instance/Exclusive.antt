-- ===== src/Plugin/Instance/Exclusive.antt =====
-- The plugin is never lent twice (crates/samp/src/plugin.rs).
use rust_samp.Base.{
  ℕ, ◌+◌, ◌-◌, ◌<◌, ◌≡◌, refl, ap, sym, ◌∙◌, inl, inr, Bool, true, false, not, Option, none, some,
  List, [], ◌∷◌, ◌++◌, ◌&&◌, ltb, ◌==◌, if◌then◌else◌, arith, Bool-cases, subst,
}
use rust_samp.Plugin.Instance.{
  Warning, inside_native, already_borrowed, wrong_type, no_plugin, borrows_alias, Happened, lent,
  returned, entered, left, warned, State, Code, finished, panics, with_instance, native, note,
  warn_alias, enter, leave, borrow, release, lend, run,
}

-- Whether the plugin is lent, and how many natives are running.
abbrev pub Holding : Type 0
Holding = Bool × ℕ

-- One thing that happens; none where the plugin is lent to a second holder or given back by none.
abbrev pub follow : Holding → Happened → Option Holding
follow (held, depth) lent = if held then none else if ltb 0 depth then none else some (true, depth)
follow (held, depth) returned = if held then some (false, depth) else none
follow (held, depth) entered = some (held, depth + 1)
follow (held, depth) left = if ltb 0 depth then some (held, depth - 1) else none
follow (held, depth) (warned w) = some (held, depth)

abbrev pub follow_all : Holding → List Happened → Option Holding
follow_all h [] = some h
follow_all h (x ∷ trace) = elim (follow h x) [ none ↦ none | some h' ↦ follow_all h' trace ]

as_it_is :
    (o : Option Holding) → (elim o as (λ x. Option Holding) [ none ↦ none | some h ↦ some h ]) ≡ o
as_it_is none = refl
as_it_is (some h) = refl

follow_on :
    (o : Option Holding) (h' : Holding) (trace : List Happened) (x : Happened)
    → ((h : Holding) → follow_all h trace ≡ some h' → follow_all h (trace ++ x ∷ []) ≡ follow h' x)
    → (elim o as (λ k. Option Holding) [ none ↦ none | some h ↦ follow_all h trace ]) ≡ some h'
    → (elim o as (λ k. Option Holding) [ none ↦ none | some h ↦ follow_all h (trace ++ x ∷ []) ])
      ≡ follow h' x
follow_on none h' trace x ih e = cc
follow_on (some h) h' trace x ih e = ih h e

follow_all-append :
    (h h' : Holding) (trace : List Happened) (x : Happened)
    → follow_all h trace ≡ some h'
    → follow_all h (trace ++ x ∷ []) ≡ follow h' x
follow_all-append h h' [] x e =
    let same : h ≡ h' = cc in as_it_is (follow h x) ∙ ap (λ k. follow k x) same
follow_all-append h h' (y ∷ trace) x e =
    follow_on (follow h y) h' trace x (λ k f. follow_all-append k h' trace x f) e

-- What happened until now is in order, and the flags tell what it led to.
abbrev pub InOrder : State → Type 0
InOrder s = follow_all (false, 0) s.trace ≡ some (s.plugin_borrowed, s.native_depth)

-- The flags are as before.
abbrev pub Same : State → State → Type 0
Same s s' =
    (s'.plugin_borrowed ≡ s.plugin_borrowed)
    × (s'.native_depth ≡ s.native_depth)
    × (s'.plugin_type ≡ s.plugin_type)

Same-refl : (s : State) → Same s s
Same-refl s = (refl, refl, refl)

Same-trans : (s t u : State) → Same s t → Same t u → Same s u
Same-trans s t u (a, b, c) (a', b', c') = (a' ∙ a, b' ∙ b, c' ∙ c)

-- A state with its trace in order, and the flags of one before.
abbrev pub Restored : State → State → Type 0
Restored s s' = InOrder s' × Same s s'

warned-InOrder : (w : Warning) (s : State) → InOrder s → Restored s (note (warned w) s)
warned-InOrder w s h = (
  follow_all-append (false, 0) (s.plugin_borrowed, s.native_depth) s.trace (warned w) h,
  (refl, refl, refl),
)

borrow-InOrder :
    (s : State)
    → s.plugin_borrowed ≡ false
    → ltb 0 s.native_depth ≡ false
    → InOrder s
    → InOrder (borrow s)
unfolding borrow
borrow-InOrder s p q h =
    follow_all-append (false, 0) (s.plugin_borrowed, s.native_depth) s.trace lent h
    ∙ free s.plugin_borrowed s.native_depth p q
  where
    free : (b : Bool) (d : ℕ) → b ≡ false → ltb 0 d ≡ false → follow (b, d) lent ≡ some (true, d)
    free b d p q = rw (p, q) refl

-- The closure gave the plugin back.
release-Restored :
    (s inner : State)
    → s.plugin_borrowed ≡ false
    → Restored (borrow s) inner
    → Restored s (release inner)
unfolding borrow release
release-Restored s inner p (h, (held, depth, type)) = (
  follow_all-append (false, 0) (inner.plugin_borrowed, inner.native_depth) inner.trace returned h
      ∙ back inner.plugin_borrowed inner.native_depth held,
  (sym p, depth, type),
)
  where
    back : (b : Bool) (d : ℕ) → b ≡ true → follow (b, d) returned ≡ some (false, d)
    back b d p = rw (p) refl

-- What `lend` does with the flags and the type taken apart.
by_flags : Bool → Bool → Option ℕ → ℕ → Bool × State → State → Bool × State
by_flags true held o type r s = (false, note (warned inside_native) s)
by_flags false true o type r s = (false, note (warned already_borrowed) s)
by_flags false false none type r s = (false, note (warned no_plugin) s)
by_flags false false (some t) type (panicked, inner) s =
    if t == type then (panicked, release inner) else (false, note (warned wrong_type) s)

lend-by_flags :
    (inside held : Bool) (o : Option ℕ) (type : ℕ) (r : Bool × State) (s : State)
    → (if inside
        then (false, note (warned inside_native) s)
        else if held
        then (false, note (warned already_borrowed) s)
        else elim o [
          | none ↦ (false, note (warned no_plugin) s)
          | some t ↦ if t == type then (r.0, release r.1) else (false, note (warned wrong_type) s)
        ])
      ≡ by_flags inside held o type r s
unfolding by_flags
lend-by_flags true held o type r s = refl
lend-by_flags false true o type r s = refl
lend-by_flags false false none type r s = refl
lend-by_flags false false (some t) type r s = refl

by_flags-Restored :
    (inside held : Bool) (o : Option ℕ) (type : ℕ) (r : Bool × State) (s : State)
    → InOrder s
    → s.plugin_borrowed ≡ held
    → (held ≡ false → inside ≡ false → Restored (borrow s) r.1)
    → Restored s (by_flags inside held o type r s).1
unfolding by_flags
by_flags-Restored true held o type r s h e closure = warned-InOrder inside_native s h
by_flags-Restored false true o type r s h e closure = warned-InOrder already_borrowed s h
by_flags-Restored false false none type r s h e closure = warned-InOrder no_plugin s h
by_flags-Restored false false (some t) type (panicked, inner) s h e closure =
    elim (Bool-cases (t == type)) [
      | inl p ↦ rw (p) (release-Restored s inner e (closure refl refl))
      | inr p ↦ rw (p) (warned-InOrder wrong_type s h)
    ]

lend-Restored :
    (type : ℕ) (r : Bool × State) (s : State)
    → InOrder s
    → (s.plugin_borrowed ≡ false → ltb 0 s.native_depth ≡ false → Restored (borrow s) r.1)
    → Restored s (lend type r s).1
unfolding lend
lend-Restored type r s h closure =
    subst (λ (x : Bool × State). Restored s x.1)
      (sym (lend-by_flags (ltb 0 s.native_depth) s.plugin_borrowed s.plugin_type type r s))
      (by_flags-Restored (ltb 0 s.native_depth) s.plugin_borrowed s.plugin_type type r s h refl
        closure)

warn_alias-Restored : (s : State) → InOrder s → Restored s (warn_alias s)
unfolding warn_alias
warn_alias-Restored s h = by_case (s.plugin_borrowed && not s.alias_warned)
  where
    by_case :
        (b : Bool)
        → Restored s
            (if b then note (warned borrows_alias) (record s { alias_warned = true }) else s)
    by_case true = (
      follow_all-append (false, 0) (s.plugin_borrowed, s.native_depth) s.trace
          (warned borrows_alias) h,
      (refl, refl, refl),
    )
    by_case false = (h, Same-refl s)

-- A native is entered and left around its body.
enter-InOrder :
    (s : State)
    → InOrder s
    → InOrder (enter s)
      × ((enter s).plugin_borrowed ≡ s.plugin_borrowed)
      × ((enter s).native_depth ≡ s.native_depth + 1)
      × ((enter s).plugin_type ≡ s.plugin_type)
unfolding enter
enter-InOrder s h =
    let c = warn_alias s in
    let (k, (held, depth, type)) = warn_alias-Restored s h in
    (
      follow_all-append (false, 0) (c.plugin_borrowed, c.native_depth) c.trace entered k,
      held,
      ap (λ d. d + 1) depth,
      type,
    )

leave-Restored : (s inner : State) → InOrder s → Restored (enter s) inner → Restored s (leave inner)
unfolding leave
leave-Restored s inner hs (h, (held, depth, type)) =
    let (k, held', depth', type') = enter-InOrder s hs in
    (
      follow_all-append (false, 0) (inner.plugin_borrowed, inner.native_depth) inner.trace left h
          ∙ out inner.plugin_borrowed inner.native_depth (omega (arith, depth, depth')),
      (held ∙ held', omega (arith, depth, depth'), type ∙ type'),
    )
  where
    out : (b : Bool) (d : ℕ) → 0 < d → follow (b, d) left ≡ some (b, d - 1)
    out b d p = ground (arith, p)

-- What code on the main thread does, nested in any way and with a panic anywhere, leaves the plugin as it found it, lent or free, and in as many natives; and at every moment the plugin was lent to one closure at most, with no native running when it was lent.
pub run-Restored : (code : Code) (s : State) → InOrder s → Restored s (run code s).1
unfolding run
run-Restored finished s h = (h, Same-refl s)
run-Restored panics s h = (h, Same-refl s)
run-Restored (native body rest) s h =
    let inner = (run body (enter s)).1 in
    let (k, same) = leave-Restored s inner h (run-Restored body (enter s) (enter-InOrder s h).0) in
    let (k', same') = run-Restored rest (leave inner) k in
    (k', Same-trans s (leave inner) (run rest (leave inner)).1 same same')
run-Restored (with_instance type body rest) s h =
    let r = lend type (run body (borrow s)) s in
    let (k, same) =
      lend-Restored type (run body (borrow s)) s h
        (λ p q. run-Restored body (borrow s) (borrow-InOrder s p q h)) in
    go_on r.0 r.1 k same (run-Restored rest r.1 k)
  where
    go_on :
        (panicked : Bool) (after : State)
        → InOrder after
        → Same s after
        → Restored after (run rest after).1
        → Restored s (if panicked then (true, after) else run rest after).1
    go_on true after k same later = (k, same)
    go_on false after k same (k', same') = (k', Same-trans s after (run rest after).1 same same')
