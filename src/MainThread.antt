-- ===== src/MainThread.antt =====
-- crates/samp/src/mainthread.rs: handing work back to the server's main thread. A worker posts a
-- job; the main thread takes every queued job on its tick and runs them in order, within a budget
-- of time when one is set.
-- What a job does is not in that file: `Env` gives, for each job, the jobs that are posted while it
-- runs (by itself or by another thread), whether it panics, and the world after it; and it gives the
-- clock. The jobs themselves do not call `run_pending` or `set_budget`.
pub mod Order
pub mod Budget
pub mod Warning
pub mod Interleave
mod Tests
use rust_samp.Base.{
  ℕ, ◌+◌, Bool, true, false, Option, none, some, List, [], ◌∷◌, ◌++◌, length, leb, min, max, ◌==◌,
  if◌then◌else◌,
}

pub record Queue (J : Type 0) : Type 0 where
  pub jobs : List J
  -- The count that is read without the lock.
  pub len : ℕ

module _ {J : Type 0} where
  -- `Queue::push`: the queue, and its new length.
  pub push : Queue J → J → Queue J × ℕ
  push q job =
      let jobs = q.jobs ++ job ∷ [] in (record { jobs = jobs; len = length jobs }, length jobs)

  -- `Queue::take`: what was queued, and the queue left behind.
  pub take_all : Queue J → List J × Queue J
  take_all q = if q.len == 0 then ([], q) else (q.jobs, record { jobs = []; len = 0 })

  -- `Queue::put_back`.
  pub put_back : Queue J → List J → Queue J
  put_back q left = let jobs = left ++ q.jobs in record { jobs = jobs; len = length jobs }

-- What running one job brings about.
pub record JobRun (J W : Type 0) : Type 0 where
  pub posts : List J
  pub panics : Bool
  pub after : W

pub record Env (J W : Type 0) : Type 0 where
  pub run_job : J → W → JobRun J W
  -- `Instant::now()`, in nanoseconds.
  pub now : W → ℕ × W

-- `sdk_warn!` calls.
pub data Event : Type 0 where
  backlog_warning : ℕ → Event
  job_panicked : Event

-- The statics of the module, the log, the world, and two histories that the code does not keep:
-- the jobs posted so far and the jobs run so far.
pub record State (J W : Type 0) : Type 0 where
  pub queue : Queue J
  pub warned : Bool
  pub budget_nanos : ℕ
  pub log : List Event
  pub world : W
  pub posted : List J
  pub executed : List J

abbrev pub backlog_limit : ℕ
backlog_limit = 10_000

abbrev pub u64_max : ℕ
u64_max = 0xffff_ffff_ffff_ffff

-- The statics as the process starts.
pub init : {J W : Type 0} → W → State J W
init w = record {
  queue = record { jobs = []; len = 0 };
  warned = false;
  budget_nanos = 0;
  log = [];
  world = w;
  posted = [];
  executed = [];
}

module _ {J W : Type 0} where
  -- The warning of `post`, once the backlog is large: `WARNED.swap(true)` lets it through once.
  pub warn_backlog : ℕ → State J W → State J W
  warn_backlog backlog s =
      if leb backlog_limit backlog
      then record s {
        warned = true;
        log = if s.warned then s.log else s.log ++ backlog_warning backlog ∷ [];
      }
      else s

  pub post : J → State J W → State J W
  post job s =
      let (q, backlog) = push s.queue job in
      warn_backlog backlog (record s { queue = q; posted = s.posted ++ job ∷ [] })

  pub post_all : List J → State J W → State J W
  post_all [] s = s
  post_all (job ∷ jobs) s = post_all jobs (post job s)

  pub pending : State J W → ℕ
  pending s = s.queue.len

  -- `budget` as a `Duration` is its count of nanoseconds, below 2 ^ 94.
  pub set_budget : Option ℕ → State J W → State J W
  set_budget none s = record s { budget_nanos = 0 }
  set_budget (some nanos) s = record s { budget_nanos = max (min nanos u64_max) 1 }

  pub budget : State J W → Option ℕ
  budget s = if s.budget_nanos == 0 then none else some s.budget_nanos

module _ {J W : Type 0} (env : Env J W) where
  -- `panic_guard::catch(job)` with the warning on its error.
  pub execute : J → State J W → State J W
  execute job s =
      let r = env.run_job job s.world in
      let s' = post_all r.posts (record s { world = r.after; executed = s.executed ++ job ∷ [] }) in
      record s' { log = if r.panics then s'.log ++ job_panicked ∷ [] else s'.log }

  -- `deadline.is_some_and(|deadline| Instant::now() >= deadline)`.
  pub past_deadline : Option ℕ → State J W → Bool × State J W
  past_deadline none s = (false, s)
  past_deadline (some deadline) s =
      let (t, w) = env.now s.world in (leb deadline t, record s { world = w })

  -- The loop over the jobs taken: how many ran, the jobs left, and the state.
  pub drain : List J → Option ℕ → ℕ → State J W → ℕ × List J × State J W
  drain [] deadline ran s = (ran, [], s)
  drain (job ∷ jobs) deadline ran s =
      let (over, s') = past_deadline deadline (execute job s) in
      let rest = drain jobs deadline (ran + 1) s' in if over then (ran + 1, jobs, s') else rest

  -- `budget().map(|budget| Instant::now() + budget)`.
  pub start_deadline : State J W → Option ℕ × State J W
  start_deadline s = elim (budget s) [
    | none ↦ (none, s)
    | some b ↦ (some ((env.now s.world).0 + b), record s { world = (env.now s.world).1 })
  ]

  -- What is left goes back ahead of anything posted meanwhile.
  pub finish : ℕ × List J × State J W → ℕ × State J W
  finish (ran, [], s) = (ran, s)
  finish (ran, job ∷ jobs, s) = (ran, record s { queue = put_back s.queue (job ∷ jobs) })

  pub run_taken : List J → State J W → ℕ × State J W
  run_taken [] s = (0, s)
  run_taken (job ∷ jobs) s =
      let (deadline, s') = start_deadline s in finish (drain (job ∷ jobs) deadline 0 s')

  pub run_pending : State J W → ℕ × State J W
  run_pending s = let (jobs, q) = take_all s.queue in run_taken jobs (record s { queue = q })
