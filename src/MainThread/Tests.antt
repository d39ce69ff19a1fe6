-- ===== src/MainThread/Tests.antt =====
-- Runs of crates/samp/src/mainthread.rs on a small environment, and the theorems at it.
use rust_samp.Base.{
  ℕ, ◌+◌, ◌-◌, ◌≡◌, refl, false, some, List, [], ◌∷◌, leb, ◌==◌, arith, if◌then◌else◌,
}
use rust_samp.MainThread.{
  State, Env, init, push, take_all, put_back, warn_backlog, post, post_all, set_budget, budget,
  execute, past_deadline, drain, start_deadline, finish, run_taken, run_pending, job_panicked,
}
use rust_samp.MainThread.Order.{InOrder, Op, posts, sets_budget, runs, step, steps, steps-InOrder}
use rust_samp.MainThread.Budget.{Runs, run_pending-Runs}
use rust_samp.MainThread.Interleave.{Shared, idle, Reach, Step, Reach-InOrder}
use rust_samp.MainThread.Interleave

-- A job is the time it takes; one of ten or more posts another that is ten less; 7 panics.
abbrev clockwork : Env ℕ ℕ
clockwork = record {
  run_job = λ job t. record {
    posts = if leb 10 job then (job - 10) ∷ [] else [];
    panics = job == 7;
    after = t + job;
  };
  now = λ t. (t, t);
}

abbrev ops : List (Op ℕ)
ops = posts 12 ∷ posts 7 ∷ sets_budget (some 15) ∷ posts 5 ∷ runs ∷ []

ran_ops : (steps clockwork ops (init 0)).executed ≡ 12 ∷ 7 ∷ []
unfolding steps step init post push warn_backlog set_budget run_pending take_all run_taken
    start_deadline budget drain execute post_all past_deadline finish put_back
ran_ops = refl

left_ops : (steps clockwork ops (init 0)).queue.jobs ≡ 5 ∷ 2 ∷ []
unfolding steps step init post push warn_backlog set_budget run_pending take_all run_taken
    start_deadline budget drain execute post_all past_deadline finish put_back
left_ops = refl

logged_ops : (steps clockwork ops (init 0)).log ≡ job_panicked ∷ []
unfolding steps step init post push warn_backlog set_budget run_pending take_all run_taken
    start_deadline budget drain execute post_all past_deadline finish put_back
logged_ops = refl

init-InOrder : InOrder [] (init {J = ℕ} {W = ℕ} 0)
unfolding init
init-InOrder = record { mirrored = refl; fifo = refl }

steps-InOrder_example : InOrder [] (steps clockwork ops (init 0))
steps-InOrder_example = steps-InOrder clockwork ops (init 0) init-InOrder

abbrev queued : State ℕ ℕ
queued = record {
  queue = record { jobs = 12 ∷ 7 ∷ 5 ∷ []; len = 3 };
  warned = false;
  budget_nanos = 15;
  log = [];
  world = 100;
  posted = 12 ∷ 7 ∷ 5 ∷ [];
  executed = [];
}

run_pending-Runs_example : Runs clockwork (12 ∷ 7 ∷ 5 ∷ []) queued (run_pending clockwork queued)
run_pending-Runs_example = run_pending-Runs clockwork queued refl

abbrev quiet : Shared ℕ
quiet = record {
  queue = record { jobs = 4 ∷ []; len = 1 };
  phase = idle;
  posted = 3 ∷ 4 ∷ [];
  executed = 3 ∷ [];
}

-- A post falls between the read of the count and the taking of the queue.
busy : Reach quiet (record quiet {
  queue = record { jobs = []; len = 0 };
  phase = Interleave.running (4 ∷ 9 ∷ []);
  posted = 3 ∷ 4 ∷ 9 ∷ [];
})
unfolding push
busy =
    Interleave.next
      (Interleave.next (Interleave.next Interleave.here (Step.finds_some refl (omega arith)))
        (Step.posts 9))
      (Step.takes refl)

Reach-InOrder_example : Interleave.InOrder (record quiet {
  queue = record { jobs = []; len = 0 };
  phase = Interleave.running (4 ∷ 9 ∷ []);
  posted = 3 ∷ 4 ∷ 9 ∷ [];
})
Reach-InOrder_example = Reach-InOrder busy (record { mirrored = refl; fifo = refl; work = tt })
