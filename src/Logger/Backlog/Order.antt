-- ===== src/Logger/Backlog/Order.antt =====
-- No line is lost silently or out of order on its way to the server's log (crates/samp/src/logger.rs).
use rust_samp.Base.{
  ℕ, ◌+◌, ◌≤◌, ◌<◌, ◌≡◌, refl, ap, sym, subst, ◌∙◌, inl, inr, Bool, true, false, not, List, [], ◌∷◌,
  ◌++◌, map, length, length-append, append_assoc, append-nil, ltb, ◌&&◌, ◌||◌, Bool-cases, arith,
}
use rust_samp.Logger.Backlog.{
  Event, Sent, State, line, dropped_lines, logs, server_log, tick, initial, send_to_server,
  send_all, report_dropped, flush_server_backlog, enqueue, queue_for_server, step, run,
  backlog_limit,
}

-- `xs` is `ys` without some of its elements.
pub data Sub {A : Type 0} : List A → List A → Type 0 where
  empty : Sub [] []
  keeps : {xs ys : List A} (x : A) → Sub xs ys → Sub (xs ++ x ∷ []) (ys ++ x ∷ [])
  skips : {xs ys : List A} (y : A) → Sub xs ys → Sub xs (ys ++ y ∷ [])

module _ {L : Type 0} where
  -- The lines that the server received.
  abbrev pub lines : List (Sent L) → List L
  lines [] = []
  lines (line l ∷ sent) = l ∷ lines sent
  lines (dropped_lines n ∷ sent) = lines sent

  -- How many dropped lines it was told of.
  abbrev pub told : List (Sent L) → ℕ
  told [] = 0
  told (line l ∷ sent) = told sent
  told (dropped_lines n ∷ sent) = n + told sent

  abbrev pub logged : List (Event L) → List L
  logged [] = []
  logged (logs on_main_thread l always ∷ events) = l ∷ logged events
  logged (server_log ∷ events) = logged events
  logged (tick ∷ events) = logged events

  lines-append : (a b : List (Sent L)) → lines (a ++ b) ≡ lines a ++ lines b
  lines-append [] b = refl
  lines-append (line l ∷ a) b = ap (◌∷◌ l) (lines-append a b)
  lines-append (dropped_lines n ∷ a) b = lines-append a b

  told-append : (a b : List (Sent L)) → told (a ++ b) ≡ told a + told b
  told-append [] b = omega arith
  told-append (line l ∷ a) b = told-append a b
  told-append (dropped_lines n ∷ a) b = omega (arith, told-append a b)

  lines-map : (ls : List L) → lines (map line ls) ≡ ls
  lines-map [] = refl
  lines-map (l ∷ ls) = ap (◌∷◌ l) (lines-map ls)

  told-map : (ls : List L) → told (map line ls) ≡ 0
  told-map [] = refl
  told-map (l ∷ ls) = told-map ls

  abbrev pub received : State L → List L
  received s = lines s.sent ++ s.backlog

  abbrev pub lost : State L → ℕ
  lost s = told s.sent + s.dropped

  -- The flag says no line waits and none was dropped since the last flush.
  abbrev Drained : State L → Type 0
  Drained s = (s.backlog ≡ []) × (s.dropped ≡ 0)

  -- What does not change when a state's waiting lines are sent.
  record Same (s t : State L) : Type 0 where
    received_same : received t ≡ received s
    lost_same : lost t ≡ lost s
    ready_same : t.ready ≡ s.ready

  report_dropped-Same :
      (s : State L)
      → Same s (report_dropped s)
        × ((report_dropped s).dropped ≡ 0)
        × ((report_dropped s).backlog ≡ s.backlog)
  unfolding report_dropped send_to_server
  report_dropped-Same s = elim (Bool-cases (ltb 0 s.dropped)) [
    | inl some_dropped ↦ rw some_dropped (
      record {
        received_same =
            ap (λ l. l ++ s.backlog)
              (lines-append s.sent (dropped_lines s.dropped ∷ []) ∙ append-nil (lines s.sent));
        lost_same = omega (arith, told-append s.sent (dropped_lines s.dropped ∷ []));
        ready_same = refl;
      },
      refl,
      refl,
    )
    | inr none_dropped ↦
        let z : s.dropped ≡ 0 = ground arith in
        rw none_dropped (
          record { received_same = refl; lost_same = omega (arith, z); ready_same = refl },
          refl,
          refl,
        )
  ]

  send_all-Same :
      (s : State L) → Same s (send_all s.backlog (record s { backlog = []; waiting = false }))
  unfolding send_all
  send_all-Same s = record {
    received_same =
        append-nil _
        ∙ lines-append s.sent (map line s.backlog)
        ∙ ap (λ l. lines s.sent ++ l) (lines-map s.backlog);
    lost_same = omega (arith, told-append s.sent (map line s.backlog), told-map s.backlog);
    ready_same = refl;
  }

  flush_server_backlog-Same : (s : State L) → Same s (flush_server_backlog s)
  unfolding flush_server_backlog
  flush_server_backlog-Same s = elim (Bool-cases (not s.waiting || not s.ready)) [
    | inl stays ↦ rw stays (record { received_same = refl; lost_same = refl; ready_same = refl })
    | inr flushes ↦
        let a = send_all-Same s in
        let (b, z, k) =
          report_dropped-Same (send_all s.backlog (record s { backlog = []; waiting = false })) in
        rw flushes (record {
          received_same = b.received_same ∙ a.received_same;
          lost_same = b.lost_same ∙ a.lost_same;
          ready_same = b.ready_same ∙ a.ready_same;
        })
  ]

  abbrev Idle : State L → Type 0
  Idle s = s.waiting ≡ false → Drained s

  flush_server_backlog-Drained :
      (s : State L) → Idle s → s.ready ≡ true → Drained (flush_server_backlog s)
  unfolding flush_server_backlog send_all
  flush_server_backlog-Drained s h r = elim (Bool-cases s.waiting) [
    | inl waits ↦
        let e : (not s.waiting || not s.ready) ≡ false = ground arith in
        let (b, z, k) =
          report_dropped-Same (send_all s.backlog (record s { backlog = []; waiting = false })) in
        rw e (k, z)
    | inr none_waits ↦
        let e : (not s.waiting || not s.ready) ≡ true = ground arith in rw e (h none_waits)
  ]

  flush_server_backlog-Idle : (s : State L) → Idle s → Idle (flush_server_backlog s)
  unfolding flush_server_backlog
  flush_server_backlog-Idle s h = elim (Bool-cases s.ready) [
    | inl r ↦ λ e. flush_server_backlog-Drained s h r
    | inr not_ready ↦ let e : (not s.waiting || not s.ready) ≡ true = ground arith in rw e h
  ]

  -- What the server received and what waits, against the lines logged so far.
  pub record Kept (s : State L) (past : List L) : Type 0 where
    pub order : Sub (received s) past
    pub total : length (received s) + lost s ≡ length past
    pub idle : Idle s

  flush_server_backlog-Kept :
      (s : State L) (past : List L) → Kept s past → Kept (flush_server_backlog s) past
  flush_server_backlog-Kept s past h =
      let a = flush_server_backlog-Same s in
      record {
        order = subst (λ l. Sub l past) (sym a.received_same) h.order;
        total = omega (arith, ap length a.received_same, a.lost_same, h.total);
        idle = flush_server_backlog-Idle s h.idle;
      }

  initial-Kept : Kept initial []
  unfolding initial
  initial-Kept = record { order = empty; total = refl; idle = λ e. (refl, refl) }

  server_log-Kept :
      (s : State L) (past : List L) → Kept s past → Kept (record s { ready = true }) past
  server_log-Kept s past h = record { order = h.order; total = h.total; idle = h.idle }

  enqueue-Kept :
      (l : L) (always : Bool) (s : State L) (past : List L)
      → Kept s past
      → Kept (enqueue l always s) (past ++ l ∷ [])
  unfolding enqueue
  enqueue-Kept l always s past h =
      elim (Bool-cases (always || ltb (length s.backlog) backlog_limit)) [
        | inl room ↦ rw room (
            let e : lines s.sent ++ (s.backlog ++ l ∷ []) ≡ received s ++ l ∷ [] =
              sym (append_assoc (lines s.sent) s.backlog (l ∷ [])) in
            record {
              order = subst (λ x. Sub x (past ++ l ∷ [])) (sym e) (keeps l h.order);
              total = omega (
                arith,
                ap length e,
                length-append (received s) (l ∷ []),
                length-append past (l ∷ []),
                h.total,
              );
              idle = λ w. absurd (ground arith);
            })
        | inr full ↦ rw full (record {
          order = skips l h.order;
          total = omega (arith, length-append past (l ∷ []), h.total);
          idle = λ w. absurd (ground arith);
        })
      ]

  -- With nothing waiting, a line goes to the server at once.
  send_to_server-Kept :
      (l : L) (s : State L) (past : List L)
      → Drained s
      → Kept s past
      → Kept (send_to_server (line l) s) (past ++ l ∷ [])
  unfolding send_to_server
  send_to_server-Kept l s past d h =
      let e : lines (s.sent ++ line l ∷ []) ++ s.backlog ≡ received s ++ l ∷ [] = rw d.0 (
        append-nil _
        ∙ lines-append s.sent (line l ∷ [])
        ∙ ap (λ x. x ++ l ∷ []) (sym (append-nil (lines s.sent)))) in
      record {
        order = subst (λ x. Sub x (past ++ l ∷ [])) (sym e) (keeps l h.order);
        total = omega (
          arith,
          ap length e,
          told-append s.sent (line l ∷ []),
          length-append (received s) (l ∷ []),
          length-append past (l ∷ []),
          h.total,
        );
        idle = λ w. d;
      }

  pub queue_for_server-Kept :
      (on_main_thread : Bool) (l : L) (always : Bool) (s : State L) (past : List L)
      → Kept s past
      → Kept (queue_for_server on_main_thread l always s) (past ++ l ∷ [])
  unfolding queue_for_server
  queue_for_server-Kept on_main_thread l always s past h =
      elim (Bool-cases (on_main_thread && s.ready)) [
        | inl now ↦ rw now (
            send_to_server-Kept l (flush_server_backlog s) past
              (flush_server_backlog-Drained s h.idle (ground arith))
              (flush_server_backlog-Kept s past h))
        | inr later ↦ rw later (enqueue-Kept l always s past h)
      ]

  step-Kept :
      (e : Event L) (s : State L) (past : List L)
      → Kept s past
      → Kept (step e s) (past ++ logged (e ∷ []))
  unfolding step
  step-Kept (logs on_main_thread l always) s past h =
      queue_for_server-Kept on_main_thread l always s past h
  step-Kept server_log s past h =
      rw (append-nil past)
        (flush_server_backlog-Kept (record s { ready = true }) past (server_log-Kept s past h))
  step-Kept tick s past h = rw (append-nil past) (flush_server_backlog-Kept s past h)

  logged-cons :
      (e : Event L) (events : List (Event L))
      → logged (e ∷ []) ++ logged events ≡ logged (e ∷ events)
  logged-cons (logs on_main_thread l always) events = refl
  logged-cons server_log events = refl
  logged-cons tick events = refl

  run-Kept_from :
      (events : List (Event L)) (s : State L) (past : List L)
      → Kept s past
      → Kept (run events s) (past ++ logged events)
  unfolding run
  run-Kept_from [] s past h = rw (append-nil past) h
  run-Kept_from (e ∷ events) s past h =
      subst (Kept (run events (step e s)))
        (append_assoc past (logged (e ∷ [])) (logged events)
          ∙ ap (λ x. past ++ x) (logged-cons e events))
        (run-Kept_from events (step e s) (past ++ logged (e ∷ [])) (step-Kept e s past h))

  -- Whatever is logged, on which thread, before or after the server gives its log, and however the
  -- main thread ticks: the lines that the server received and then those that wait are logged lines
  -- in the order of logging, none twice; each other line is counted once, in a warning that the
  -- server received or in the count for the next one; and where the flag says that nothing waits,
  -- nothing does.
  pub run-Kept : (events : List (Event L)) → Kept (run events initial) (logged events)
  run-Kept events = run-Kept_from events initial [] initial-Kept

  -- Every line was sent or waits, in the order of logging, and none was dropped.
  pub record Complete (s : State L) (past : List L) : Type 0 where
    pub all_there : received s ≡ past
    pub none_lost : lost s ≡ 0
    pub sound : Idle s

  -- Where there is room for the line, it is sent or waits, and at most one more waits.
  pub queue_for_server-Complete :
      (on_main_thread : Bool) (l : L) (s : State L) (past : List L)
      → length s.backlog < backlog_limit
      → Complete s past
      → Complete (queue_for_server on_main_thread l false s) (past ++ l ∷ [])
        × (length (queue_for_server on_main_thread l false s).backlog ≤ length s.backlog + 1)
  unfolding queue_for_server enqueue send_to_server
  queue_for_server-Complete on_main_thread l s past room c =
      elim (Bool-cases (on_main_thread && s.ready)) [
        | inl now ↦
            let t = flush_server_backlog s in
            let a = flush_server_backlog-Same s in
            let d = flush_server_backlog-Drained s c.sound (ground arith) in
            rw now (
              record {
                all_there = rw d.0 (
                    append-nil _
                    ∙ lines-append t.sent (line l ∷ [])
                    ∙ ap (λ x. x ++ l ∷ [])
                        (sym (append-nil (lines t.sent))
                          ∙ ap (λ b. lines t.sent ++ b) (sym d.0)
                          ∙ a.received_same
                          ∙ c.all_there));
                none_lost =
                    omega (arith, told-append t.sent (line l ∷ []), a.lost_same, c.none_lost);
                sound = λ w. d;
              },
              omega (arith, ap length d.0),
            )
        | inr later ↦
            let fits : (false || ltb (length s.backlog) backlog_limit) ≡ true =
              ground (arith, room) in
            rw (later, fits)
              (
                record {
                  all_there =
                      sym (append_assoc (lines s.sent) s.backlog (l ∷ []))
                      ∙ ap (λ x. x ++ l ∷ []) c.all_there;
                  none_lost = c.none_lost;
                  sound = λ w. absurd (ground arith);
                },
                omega (arith, length-append s.backlog (l ∷ [])),
              )
      ]
