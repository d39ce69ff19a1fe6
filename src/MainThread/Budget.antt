-- ===== src/MainThread/Budget.antt =====
-- How many jobs one drain of crates/samp/src/mainthread.rs runs, and when it stops early.
use rust_samp.Base.{
  ℕ, suc, ◌+◌, ◌≤◌, ◌<◌, ◌≡◌, refl, sym, ap, ◌∙◌, ◌≢◌, inl, inr, Bool, true, false, Option, none,
  some, List, [], ◌∷◌, ◌++◌, append-nil, append_assoc, length, take, drop, arith, Bool-cases,
  Option-cases, ◌==◌, if◌then◌else◌, leb→le, min, max,
}
use rust_samp.MainThread.{
  State, Env, take_all, warn_backlog, post, post_all, set_budget, budget, execute, past_deadline,
  drain, start_deadline, finish, run_taken, run_pending, u64_max,
}

eq_nil_of_length : {J : Type 0} (l : List J) → length l ≡ 0 → l ≡ []
eq_nil_of_length [] h = refl
eq_nil_of_length (x ∷ l) h = absurd (omega arith)

module _ {J W : Type 0} where
  executed-post : (job : J) (s : State J W) → (post job s).executed ≡ s.executed
  unfolding post warn_backlog
  executed-post job s = ground arith

  executed-post_all : (jobs : List J) (s : State J W) → (post_all jobs s).executed ≡ s.executed
  unfolding post_all
  executed-post_all [] s = refl
  executed-post_all (job ∷ jobs) s = executed-post_all jobs (post job s) ∙ executed-post job s

  -- What `budget()` gives after `set_budget(b)`: nothing for none, and otherwise the budget held
  -- between one nanosecond and the largest 64-bit number.
  pub budget-set_budget :
      (b : Option ℕ) (s : State J W)
      → budget (set_budget b s) ≡ (elim b [ none ↦ none | some n ↦ some (max (min n u64_max) 1) ])
  unfolding budget set_budget
  budget-set_budget none s = refl
  budget-set_budget (some n) s = ground arith

module _ {J W : Type 0} (env : Env J W) where
  executed-execute :
      (job : J) (s : State J W) → (execute env job s).executed ≡ s.executed ++ job ∷ []
  unfolding execute
  executed-execute job s = executed-post_all (env.run_job job s.world).posts _

  executed-past_deadline :
      (d : Option ℕ) (s : State J W) → (past_deadline env d s).1.executed ≡ s.executed
  unfolding past_deadline
  executed-past_deadline none s = refl
  executed-past_deadline (some t) s = refl

  -- The clock was read at or after the deadline, and its world is the one left behind.
  abbrev pub Passed : Option ℕ → State J W → Type 0
  Passed d s = (t : ℕ) × (w : W) × (d ≡ some t) × (t ≤ (env.now w).0) × (s.world ≡ (env.now w).1)

  past_deadline-Passed :
      (d : Option ℕ) (s : State J W)
      → (past_deadline env d s).0 ≡ true
      → Passed d (past_deadline env d s).1
  unfolding past_deadline
  past_deadline-Passed none s h = cc
  past_deadline-Passed (some t) s h = (t, s.world, refl, leb→le _ _ h, refl)

  -- The first `count` of the jobs ran, in order, and the rest is left; something is left only when
  -- the deadline has passed.
  pub record Drained (jobs : List J) (d : Option ℕ) (n : ℕ) (s : State J W)
      (r : ℕ × List J × State J W) : Type 0 where
    pub count : ℕ
    pub total : r.0 ≡ n + count
    pub within : count ≤ length jobs
    pub progress : jobs ≢ [] → 0 < count
    pub ran : r.2.executed ≡ s.executed ++ take count jobs
    pub left : r.1 ≡ drop count jobs
    pub stopped : count ≢ length jobs → Passed d r.2

  drain-Drained :
      (jobs : List J) (d : Option ℕ) (n : ℕ) (s : State J W)
      → Drained jobs d n s (drain env jobs d n s)
  unfolding drain
  drain-Drained [] d n s = record {
    count = 0;
    total = omega arith;
    within = omega arith;
    progress = λ h. absurd (h refl);
    ran = sym (append-nil _);
    left = refl;
    stopped = λ h. absurd (h refl);
  }
  drain-Drained (job ∷ jobs) d n s =
      let rest = drain-Drained jobs d (n + 1) s'.1 in
      elim (Bool-cases s'.0) [
        | inl over ↦
            rw (over, if◌then◌else◌)
              (record {
                count = 1;
                total = refl;
                within = omega arith;
                progress = λ h. omega arith;
                ran = now_run;
                left = refl;
                stopped = λ h. past_deadline-Passed d (execute env job s) over;
              })
        | inr on ↦
            rw (on, if◌then◌else◌)
              (record {
                count = suc rest.count;
                total = omega (arith, rest.total);
                within = omega (arith, rest.within);
                progress = λ h. omega arith;
                ran =
                    rest.ran
                    ∙ ap (λ l. l ++ take rest.count jobs) now_run
                    ∙ append_assoc s.executed (job ∷ []) _;
                left = rest.left;
                stopped = λ h. rest.stopped (λ e. h (ap suc e));
              })
      ]
    where
      s' : Bool × State J W
      s' = past_deadline env d (execute env job s)

      now_run : s'.1.executed ≡ s.executed ++ job ∷ []
      now_run = executed-past_deadline d (execute env job s) ∙ executed-execute job s

  -- One drain from state `s` with `jobs` queued, which reports `r.0` jobs and leaves `r.1`.
  pub record Runs (jobs : List J) (s : State J W) (r : ℕ × State J W) : Type 0 where
    pub within : r.0 ≤ length jobs
    pub progress : jobs ≢ [] → 0 < r.0
    pub ran : r.1.executed ≡ s.executed ++ take r.0 jobs
    -- Something is left only after the budget, counted from the drain's start, is used up.
    pub stopped :
        r.0 ≢ length jobs
        → (b : ℕ) × (w : W) × (budget s ≡ some b)
          × ((env.now s.world).0 + b ≤ (env.now w).0)
          × (r.1.world ≡ (env.now w).1)

  finish-fields :
      (r : ℕ × List J × State J W)
      → ((finish env r).0 ≡ r.0)
        × ((finish env r).1.executed ≡ r.2.executed)
        × ((finish env r).1.world ≡ r.2.world)
  unfolding finish
  finish-fields (n, [], s) = (refl, refl, refl)
  finish-fields (n, job ∷ jobs, s) = (refl, refl, refl)

  -- The deadline of a drain is its starting time plus the budget; without a budget there is none.
  start_deadline-Passed :
      (s s' : State J W)
      → Passed (start_deadline env s).0 s'
      → (b : ℕ) × (w : W) × (budget s ≡ some b)
        × ((env.now s.world).0 + b ≤ (env.now w).0)
        × (s'.world ≡ (env.now w).1)
  unfolding start_deadline
  start_deadline-Passed s s' (t, w, d, late, world) = elim (Option-cases (budget s)) [
    | inl off ↦ absurd (impossible off d)
    | inr (b, on) ↦ (b, w, on, ground arith, world)
  ]
    where
      impossible : budget s ≡ none → (start_deadline env s).0 ≡ some t → ⊥
      impossible off e = ground arith

  executed-start : (s : State J W) → (start_deadline env s).1.executed ≡ s.executed
  unfolding start_deadline
  executed-start s = ground arith

  run_taken-Runs :
      (job : J) (jobs : List J) (s : State J W) → Runs (job ∷ jobs) s (run_taken env (job ∷ jobs) s)
  unfolding run_taken
  run_taken-Runs job jobs s =
      let d = (start_deadline env s).0 in
      let s' = (start_deadline env s).1 in
      let r = drain env (job ∷ jobs) d 0 s' in
      let dr = drain-Drained (job ∷ jobs) d 0 s' in
      let fields = finish-fields r in
      let n : (finish env r).0 ≡ dr.count = omega (arith, dr.total, fields.0) in
      record {
        within = rw n dr.within;
        progress = λ h. omega (arith, dr.progress h, n);
        ran =
            rw n (fields.1 ∙ dr.ran ∙ ap (λ l. l ++ take dr.count (job ∷ jobs)) (executed-start s));
        stopped = λ h.
            let (b, w, set, late, world) =
              start_deadline-Passed s r.2 (dr.stopped (λ e. h (n ∙ e))) in
            (b, w, set, late, fields.2 ∙ world);
      }

  run_taken_ne-Runs :
      (jobs : List J) (s : State J W) → jobs ≢ [] → Runs jobs s (run_taken env jobs s)
  run_taken_ne-Runs [] s h = absurd (h refl)
  run_taken_ne-Runs (job ∷ jobs) s h = run_taken-Runs job jobs s

  -- A drain runs the longest-queued jobs, in order, each once; at least one if any is queued; and
  -- all of them unless a budget is set and the clock has reached the start plus the budget.
  pub run_pending-Runs :
      (s : State J W) → s.queue.len ≡ length s.queue.jobs → Runs s.queue.jobs s (run_pending env s)
  unfolding run_pending take_all budget run_taken
  run_pending-Runs s m = elim (Bool-cases (s.queue.len == 0)) [
    | inl z ↦ rw z (
        let e = eq_nil_of_length s.queue.jobs (ground arith) in
        record {
          within = omega arith;
          progress = λ h. absurd (h e);
          ran = sym (append-nil s.executed);
          stopped = λ h. absurd (h (sym (ap length e)));
        })
    | inr nz ↦ rw nz (
        let r =
          run_taken_ne-Runs s.queue.jobs (record s { queue = record { jobs = []; len = 0 } })
            (λ e. ne_zero nz (m ∙ ap length e)) in
        record { within = r.within; progress = r.progress; ran = r.ran; stopped = r.stopped })
  ]
    where
      ne_zero : (s.queue.len == 0) ≡ false → s.queue.len ≢ 0
      ne_zero nz e = ground arith
