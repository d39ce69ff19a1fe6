-- ===== src/Logger/Backlog/Tests.antt =====
-- A line before the server's log, one from another thread after it, and a line of the main thread.
use rust_samp.Base.{ℕ, ◌≡◌, refl, true, false, List, [], ◌∷◌}
use rust_samp.Logger.Backlog.{
  Event, logs, server_log, tick, line, initial, run, step, queue_for_server, enqueue,
  flush_server_backlog, send_all, report_dropped, send_to_server,
}
use rust_samp.Logger.Backlog.Order.{Kept, logged, run-Kept}

abbrev events : List (Event ℕ)
events = logs false 1 false ∷ tick ∷ server_log ∷ logs false 2 false ∷ logs true 3 false ∷ []

run-Kept_example : Kept (run events initial) (logged events)
run-Kept_example = run-Kept events

sent-run : (run events initial).sent ≡ line 1 ∷ line 2 ∷ line 3 ∷ []
unfolding run initial step queue_for_server enqueue flush_server_backlog send_all report_dropped
    send_to_server
sent-run = refl
