-- ===== src/Logger/Backlog.antt =====
-- crates/samp/src/logger.rs: the lines that wait for the server's log. Each call is one step: a line
-- is queued under the backlog's lock, and the server's log is written by the main thread alone. The
-- text of a line, and its level, are a parameter.
pub mod Order
mod Tests
use rust_samp.Base.{
  ℕ, ◌+◌, Bool, true, false, not, List, [], ◌∷◌, ◌++◌, map, length, ltb, ◌&&◌, ◌||◌, if◌then◌else◌,
}

abbrev pub backlog_limit : ℕ
backlog_limit = 10_000

-- What the server's log receives: a line, or the warning that some were dropped.
pub data Sent (L : Type 0) : Type 0 where
  line : L → Sent L
  dropped_lines : ℕ → Sent L

-- `SERVER_BACKLOG`, `SERVER_BACKLOG_DROPPED` (fewer than 2 ^ 32 lines are dropped between two
-- flushes), `SERVER_BACKLOG_WAITING`, whether the server gave its log, and what it received.
pub record State (L : Type 0) : Type 0 where
  pub backlog : List L
  pub dropped : ℕ
  pub waiting : Bool
  pub ready : Bool
  pub sent : List (Sent L)

module _ {L : Type 0} where
  pub initial : State L
  initial = record { backlog = []; dropped = 0; waiting = false; ready = false; sent = [] }

  pub send_to_server : Sent L → State L → State L
  send_to_server l s = record s { sent = s.sent ++ l ∷ [] }

  pub send_all : List L → State L → State L
  send_all lines s = record s { sent = s.sent ++ map line lines }

  pub report_dropped : State L → State L
  report_dropped s =
      let dropped = s.dropped in
      let s' : State L = record s { dropped = 0 } in
      if ltb 0 dropped then send_to_server (dropped_lines dropped) s' else s'

  pub flush_server_backlog : State L → State L
  flush_server_backlog s =
      if not s.waiting || not s.ready
      then s
      else report_dropped (send_all s.backlog (record s { backlog = []; waiting = false }))

  pub enqueue : L → Bool → State L → State L
  enqueue l always s =
      let s' : State L =
        if always || ltb (length s.backlog) backlog_limit
        then record s { backlog = s.backlog ++ l ∷ [] }
        else record s { dropped = s.dropped + 1 } in
      record s' { waiting = true }

  pub queue_for_server : Bool → L → Bool → State L → State L
  queue_for_server on_main_thread l always s =
      if on_main_thread && s.ready
      then send_to_server (line l) (flush_server_backlog s)
      else enqueue l always s

-- What happens to the log: a line is logged, on the main thread or not, and possibly one that must
-- not be dropped; the server gives its log; the main thread ticks.
pub data Event (L : Type 0) : Type 0 where
  logs : Bool → L → Bool → Event L
  server_log : Event L
  tick : Event L

module _ {L : Type 0} where
  pub step : Event L → State L → State L
  step (logs on_main_thread l always) s = queue_for_server on_main_thread l always s
  step server_log s = flush_server_backlog (record s { ready = true })
  step tick s = flush_server_backlog s

  pub run : List (Event L) → State L → State L
  run [] s = s
  run (e ∷ events) s = run events (step e s)
