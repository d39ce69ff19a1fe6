-- ===== src/MainThread/Warning.antt =====
-- The backlog warning of `post` in crates/samp/src/mainthread.rs.
use rust_samp.Base.{
  ℕ, suc, ◌+◌, ◌≡◌, Option, none, some, List, [], ◌∷◌, ◌++◌, ◌||◌, length, length-append, arith,
  inl, inr, Bool-cases, if◌then◌else◌, leb,
}
use rust_samp.MainThread.{
  State, Env, Event, backlog_warning, job_panicked, push, warn_backlog, post, post_all, set_budget,
  execute, past_deadline, drain, start_deadline, finish, run_taken, run_pending, backlog_limit,
}
use rust_samp.MainThread.Order.{Op, posts, sets_budget, runs, step, steps}

abbrev pub count_warnings : List Event → ℕ
count_warnings [] = 0
count_warnings (backlog_warning n ∷ l) = suc (count_warnings l)
count_warnings (job_panicked ∷ l) = count_warnings l

count_warnings-append :
    (l m : List Event) → count_warnings (l ++ m) ≡ count_warnings l + count_warnings m
count_warnings-append [] m = omega arith
count_warnings-append (backlog_warning n ∷ l) m = omega (arith, count_warnings-append l m)
count_warnings-append (job_panicked ∷ l) m = count_warnings-append l m

module _ {J W : Type 0} where
  -- One warning is in the log if `WARNED` is set, none otherwise.
  abbrev pub WarnedOnce : State J W → Type 0
  WarnedOnce s = count_warnings s.log ≡ (if s.warned then 1 else 0)

  -- `post` sets `WARNED` exactly when the backlog, the new job included, reaches the limit, and
  -- never clears it.
  pub warned-post :
      (job : J) (s : State J W)
      → (post job s).warned ≡ (s.warned || leb backlog_limit (length s.queue.jobs + 1))
  unfolding post push warn_backlog
  warned-post job s = ground (arith, length-append s.queue.jobs (job ∷ []))

  post-WarnedOnce : (job : J) (s : State J W) → WarnedOnce s → WarnedOnce (post job s)
  unfolding post push warn_backlog
  post-WarnedOnce job s h = ground (
    arith,
    count_warnings-append s.log (backlog_warning (length (s.queue.jobs ++ job ∷ [])) ∷ []),
  )

  post_all-WarnedOnce :
      (jobs : List J) (s : State J W) → WarnedOnce s → WarnedOnce (post_all jobs s)
  unfolding post_all
  post_all-WarnedOnce [] s h = h
  post_all-WarnedOnce (job ∷ jobs) s h = post_all-WarnedOnce jobs _ (post-WarnedOnce job s h)

module _ {J W : Type 0} (env : Env J W) where
  execute-WarnedOnce : (job : J) (s : State J W) → WarnedOnce s → WarnedOnce (execute env job s)
  unfolding execute
  execute-WarnedOnce job s h =
      let r = env.run_job job s.world in
      let s' = post_all r.posts (record s { world = r.after; executed = s.executed ++ job ∷ [] }) in
      let kept =
        post_all-WarnedOnce r.posts
          (record s { world = r.after; executed = s.executed ++ job ∷ [] }) h in
      elim (Bool-cases r.panics) [
        | inl p ↦
            rw (p, if◌then◌else◌)
              (omega (arith, count_warnings-append s'.log (job_panicked ∷ []), kept))
        | inr p ↦ rw (p, if◌then◌else◌) kept
      ]

  past_deadline-WarnedOnce :
      (d : Option ℕ) (s : State J W) → WarnedOnce s → WarnedOnce (past_deadline env d s).1
  unfolding past_deadline
  past_deadline-WarnedOnce none s h = h
  past_deadline-WarnedOnce (some t) s h = h

  drain-WarnedOnce :
      (jobs : List J) (d : Option ℕ) (n : ℕ) (s : State J W)
      → WarnedOnce s
      → WarnedOnce (drain env jobs d n s).2
  unfolding drain
  drain-WarnedOnce [] d n s h = h
  drain-WarnedOnce (job ∷ jobs) d n s h =
      let r = past_deadline env d (execute env job s) in
      let kept = past_deadline-WarnedOnce d _ (execute-WarnedOnce job s h) in
      elim (Bool-cases r.0) [
        | inl over ↦ rw (over, if◌then◌else◌) kept
        | inr on ↦ rw (on, if◌then◌else◌) (drain-WarnedOnce jobs d (n + 1) r.1 kept)
      ]

  finish-WarnedOnce : (r : ℕ × List J × State J W) → WarnedOnce r.2 → WarnedOnce (finish env r).1
  unfolding finish
  finish-WarnedOnce (n, [], s) h = h
  finish-WarnedOnce (n, job ∷ jobs, s) h = h

  start-WarnedOnce : (s : State J W) → WarnedOnce s → WarnedOnce (start_deadline env s).1
  unfolding start_deadline
  start-WarnedOnce s h = ground arith

  run_taken-WarnedOnce :
      (jobs : List J) (s : State J W) → WarnedOnce s → WarnedOnce (run_taken env jobs s).1
  unfolding run_taken
  run_taken-WarnedOnce [] s h = h
  run_taken-WarnedOnce (job ∷ jobs) s h =
      finish-WarnedOnce _ (drain-WarnedOnce (job ∷ jobs) _ 0 _ (start-WarnedOnce s h))

  step-WarnedOnce : (op : Op J) (s : State J W) → WarnedOnce s → WarnedOnce (step env op s)
  unfolding step set_budget run_pending
  step-WarnedOnce (posts job) s h = post-WarnedOnce job s h
  step-WarnedOnce (sets_budget none) s h = h
  step-WarnedOnce (sets_budget (some b)) s h = h
  step-WarnedOnce runs s h = run_taken-WarnedOnce _ _ h

  -- Over any sequence of posts, budget changes and drains, the log holds one backlog warning if
  -- `WARNED` is set and none otherwise: it is given at most once.
  pub steps-WarnedOnce :
      (ops : List (Op J)) (s : State J W) → WarnedOnce s → WarnedOnce (steps env ops s)
  unfolding steps
  steps-WarnedOnce [] s h = h
  steps-WarnedOnce (op ∷ ops) s h = steps-WarnedOnce ops _ (step-WarnedOnce op s h)
