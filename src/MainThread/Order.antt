-- ===== src/MainThread/Order.antt =====
-- In which order the jobs of crates/samp/src/mainthread.rs run, and how many of them in one drain.
use rust_samp.Base.{
  ℕ, ◌+◌, ◌≡◌, refl, sym, ap, ◌∙◌, inl, inr, Option, none, some, List, [], ◌∷◌, ◌++◌, append-nil,
  append_assoc, length, arith, Bool-cases, Option-cases, ◌==◌, if◌then◌else◌,
}
use rust_samp.MainThread.{
  State, Env, JobRun, push, take_all, put_back, warn_backlog, post, post_all, set_budget, budget,
  execute, past_deadline, drain, start_deadline, finish, run_taken, run_pending,
}

module _ {J W : Type 0} where
  -- The mirrored count is the queue's length, and with `held` taken out for running, the jobs run,
  -- those held and those queued are the jobs posted, in the order of posting.
  pub record InOrder (held : List J) (s : State J W) : Type 0 where
    pub mirrored : s.queue.len ≡ length s.queue.jobs
    pub fifo : s.executed ++ (held ++ s.queue.jobs) ≡ s.posted

  warn_backlog-InOrder :
      (held : List J) (n : ℕ) (s : State J W) → InOrder held s → InOrder held (warn_backlog n s)
  unfolding warn_backlog
  warn_backlog-InOrder held n s h = ground arith

  post-InOrder :
      (held : List J) (job : J) (s : State J W) → InOrder held s → InOrder held (post job s)
  unfolding post push
  post-InOrder held job s h = warn_backlog-InOrder held _ _ (record {
    mirrored = refl;
    fifo =
        sym (ap (λ l. s.executed ++ l) (append_assoc held s.queue.jobs (job ∷ [])))
        ∙ sym (append_assoc s.executed (held ++ s.queue.jobs) (job ∷ []))
        ∙ ap (λ l. l ++ job ∷ []) h.fifo;
  })

  post_all-InOrder :
      (held jobs : List J) (s : State J W) → InOrder held s → InOrder held (post_all jobs s)
  unfolding post_all
  post_all-InOrder held [] s h = h
  post_all-InOrder held (job ∷ jobs) s h = post_all-InOrder held jobs _ (post-InOrder held job s h)

module _ {J W : Type 0} (env : Env J W) where
  execute-InOrder :
      (held : List J) (job : J) (s : State J W)
      → InOrder (job ∷ held) s
      → InOrder held (execute env job s)
  unfolding execute
  execute-InOrder held job s h = record { mirrored = kept.mirrored; fifo = kept.fifo }
    where
      r : JobRun J W
      r = env.run_job job s.world

      kept :
          InOrder held
            (post_all r.posts (record s { world = r.after; executed = s.executed ++ job ∷ [] }))
      kept =
          post_all-InOrder held r.posts _
            (record { mirrored = h.mirrored; fifo = append_assoc s.executed (job ∷ []) _ ∙ h.fifo })

  past_deadline-InOrder :
      (held : List J) (d : Option ℕ) (s : State J W)
      → InOrder held s
      → InOrder held (past_deadline env d s).1
  unfolding past_deadline
  past_deadline-InOrder held none s h = h
  past_deadline-InOrder held (some t) s h = record { mirrored = h.mirrored; fifo = h.fifo }

  drain-InOrder :
      (jobs : List J) (d : Option ℕ) (n : ℕ) (s : State J W)
      → InOrder jobs s
      → let (_, left, s') = drain env jobs d n s in InOrder left s'
  unfolding drain
  drain-InOrder [] d n s h = h
  drain-InOrder (job ∷ jobs) d n s h =
      let s' = past_deadline env d (execute env job s) in
      let kept = past_deadline-InOrder jobs d _ (execute-InOrder jobs job s h) in
      elim (Bool-cases s'.0) [
        | inl over ↦ rw (over, if◌then◌else◌) kept
        | inr on ↦ rw (on, if◌then◌else◌) (drain-InOrder jobs d (n + 1) s'.1 kept)
      ]

  finish-InOrder : (r : ℕ × List J × State J W) → InOrder r.1 r.2 → InOrder [] (finish env r).1
  unfolding finish put_back
  finish-InOrder (n, [], s) h = h
  finish-InOrder (n, job ∷ jobs, s) h = record { mirrored = refl; fifo = h.fifo }

  start-InOrder :
      (held : List J) (s : State J W) → InOrder held s → InOrder held (start_deadline env s).1
  unfolding start_deadline
  start-InOrder held s h = elim (Option-cases (budget s)) [
    | inl off ↦ rw (off, start_deadline) h
    | inr (b, on) ↦ rw (on, start_deadline) (record { mirrored = h.mirrored; fifo = h.fifo })
  ]

  run_taken-InOrder :
      (jobs : List J) (s : State J W) → InOrder jobs s → InOrder [] (run_taken env jobs s).1
  unfolding run_taken
  run_taken-InOrder [] s h = h
  run_taken-InOrder (job ∷ jobs) s h =
      finish-InOrder _ (drain-InOrder _ _ 0 _ (start-InOrder _ s h))

  run_pending-InOrder : (s : State J W) → InOrder [] s → InOrder [] (run_pending env s).1
  unfolding run_pending take_all
  run_pending-InOrder s h = elim (Bool-cases (s.queue.len == 0)) [
    | inl empty ↦ rw empty (run_taken-InOrder [] s h)
    | inr some_jobs ↦ rw some_jobs (
        run_taken-InOrder s.queue.jobs _ (record {
          mirrored = refl;
          fifo = ap (λ l. s.executed ++ l) (append-nil s.queue.jobs) ∙ h.fifo;
        }))
  ]

-- What the plugin and its workers do with the module, one call after another.
pub data Op (J : Type 0) : Type 0 where
  posts : J → Op J
  sets_budget : Option ℕ → Op J
  runs : Op J

module _ {J W : Type 0} (env : Env J W) where
  unfoldable pub step : Op J → State J W → State J W
  step (posts job) s = post job s
  step (sets_budget b) s = set_budget b s
  step runs s = (run_pending env s).1

  unfoldable pub steps : List (Op J) → State J W → State J W
  steps [] s = s
  steps (op ∷ ops) s = steps ops (step op s)

  step-InOrder : (op : Op J) (s : State J W) → InOrder [] s → InOrder [] (step op s)
  unfolding step set_budget
  step-InOrder (posts job) s h = post-InOrder [] job s h
  step-InOrder (sets_budget none) s h = record { mirrored = h.mirrored; fifo = h.fifo }
  step-InOrder (sets_budget (some b)) s h = record { mirrored = h.mirrored; fifo = h.fifo }
  step-InOrder runs s h = run_pending-InOrder env s h

  -- From an ordered state every sequence of posts, budget changes and drains keeps the mirrored
  -- count equal to the queue's length and the jobs run so far, followed by those queued, equal to
  -- the jobs posted, in the order of posting: none is lost, repeated or overtaken.
  pub steps-InOrder : (ops : List (Op J)) (s : State J W) → InOrder [] s → InOrder [] (steps ops s)
  unfolding steps
  steps-InOrder [] s h = h
  steps-InOrder (op ∷ ops) s h = steps-InOrder ops _ (step-InOrder op s h)
