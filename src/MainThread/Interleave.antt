-- ===== src/MainThread/Interleave.antt =====
-- The locked sections of crates/samp/src/mainthread.rs as atomic steps, interleaved with posts from
-- other threads: the count is read without the lock before the queue is taken under it.
use rust_samp.Base.{
  ◌≡◌, refl, sym, subst, ap, ◌∙◌, ◌≢◌, List, [], ◌∷◌, ◌++◌, append-nil, append_assoc, length,
  length-append, arith,
}
use rust_samp.MainThread.{Queue, push, put_back}

-- Where the main thread stands in `run_pending`.
pub data Phase (J : Type 0) : Type 0 where
  idle : Phase J
  -- The count was read and was not zero.
  checked : Phase J
  -- The jobs taken that have not run yet.
  running : List J → Phase J

-- With two histories that the code does not keep: the jobs posted and the jobs run.
pub record Shared (J : Type 0) : Type 0 where
  pub queue : Queue J
  pub phase : Phase J
  pub posted : List J
  pub executed : List J

pub data Step {J : Type 0} (s : Shared J) : Shared J → Type 0 where
  -- `post` on any thread, at any moment.
  posts :
      (job : J) → Step s (record s { queue = (push s.queue job).0; posted = s.posted ++ job ∷ [] })
  finds_none : s.phase ≡ idle → s.queue.len ≡ 0 → Step s s
  finds_some : s.phase ≡ idle → s.queue.len ≢ 0 → Step s (record s { phase = checked })
  takes :
      s.phase ≡ checked
      → Step s (record s { queue = record { jobs = []; len = 0 }; phase = running s.queue.jobs })
  runs :
      (job : J) (rest : List J)
      → s.phase ≡ running (job ∷ rest)
      → Step s (record s { phase = running rest; executed = s.executed ++ job ∷ [] })
  -- Every job taken has run.
  ends : s.phase ≡ running [] → Step s (record s { phase = idle })
  -- The budget is used up.
  stops :
      (left : List J)
      → s.phase ≡ running left
      → left ≢ []
      → Step s (record s { queue = put_back s.queue left; phase = idle })

pub data Reach {J : Type 0} (s : Shared J) : Shared J → Type 0 where
  here : Reach s s
  next : {t u : Shared J} → Reach s t → Step t u → Reach s u

-- The jobs out of the queue.
abbrev pub held : {J : Type 0} → Phase J → List J
held idle = []
held checked = []
held (running jobs) = jobs

abbrev pub HasWork : {J : Type 0} → Phase J → Queue J → Type 0
HasWork idle q = Unit
HasWork checked q = q.jobs ≢ []
HasWork (running jobs) q = Unit

-- The count mirrors the queue; the jobs run, those held and those queued are the jobs posted, in
-- the order of posting; and a thread that found work will take some.
pub record InOrder {J : Type 0} (s : Shared J) : Type 0 where
  pub mirrored : s.queue.len ≡ length s.queue.jobs
  pub fifo : s.executed ++ (held s.phase ++ s.queue.jobs) ≡ s.posted
  pub work : HasWork s.phase s.queue

module _ {J : Type 0} where
  HasWork-push : (p : Phase J) (q : Queue J) (job : J) → HasWork p q → HasWork p (push q job).0
  unfolding push
  HasWork-push idle q job h = tt
  HasWork-push checked q job h =
      λ e. absurd (omega (arith, ap length e, length-append q.jobs (job ∷ [])))
  HasWork-push (running l) q job h = tt

  Step-InOrder : {s t : Shared J} → Step s t → InOrder s → InOrder t
  unfolding push put_back
  Step-InOrder {s} (posts job) h = record {
    mirrored = refl;
    fifo =
        sym (ap (λ l. s.executed ++ l) (append_assoc (held s.phase) s.queue.jobs (job ∷ [])))
        ∙ sym (append_assoc s.executed _ (job ∷ []))
        ∙ ap (λ l. l ++ job ∷ []) h.fifo;
    work = HasWork-push s.phase s.queue job h.work;
  }
  Step-InOrder (finds_none e z) h = h
  Step-InOrder {s} (finds_some e z) h = record {
    mirrored = h.mirrored;
    fifo = subst (λ p. s.executed ++ (held p ++ s.queue.jobs) ≡ s.posted) e h.fifo;
    work = λ empty. z (h.mirrored ∙ ap length empty);
  }
  Step-InOrder {s} (takes e) h = record {
    mirrored = refl;
    fifo =
        ap (λ l. s.executed ++ l) (append-nil s.queue.jobs)
        ∙ subst (λ p. s.executed ++ (held p ++ s.queue.jobs) ≡ s.posted) e h.fifo;
    work = tt;
  }
  Step-InOrder {s} (runs job rest e) h = record {
    mirrored = h.mirrored;
    fifo =
        append_assoc s.executed (job ∷ []) (rest ++ s.queue.jobs)
        ∙ subst (λ p. s.executed ++ (held p ++ s.queue.jobs) ≡ s.posted) e h.fifo;
    work = tt;
  }
  Step-InOrder {s} (ends e) h = record {
    mirrored = h.mirrored;
    fifo = subst (λ p. s.executed ++ (held p ++ s.queue.jobs) ≡ s.posted) e h.fifo;
    work = tt;
  }
  Step-InOrder {s} (stops left e n) h = record {
    mirrored = refl;
    fifo = subst (λ p. s.executed ++ (held p ++ s.queue.jobs) ≡ s.posted) e h.fifo;
    work = tt;
  }

  -- However posts from other threads fall between the unlocked read of the count, the taking of
  -- the queue, the jobs and the putting back: the count mirrors the queue, the jobs run, those
  -- taken and those queued are the jobs posted in the order of posting, and a main thread that
  -- found work has some to take.
  pub Reach-InOrder : {s t : Shared J} → Reach s t → InOrder s → InOrder t
  Reach-InOrder here h = h
  Reach-InOrder (next r st) h = Step-InOrder st (Reach-InOrder r h)
