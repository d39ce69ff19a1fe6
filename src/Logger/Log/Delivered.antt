-- ===== src/Logger/Log/Delivered.antt =====
-- Every record that is enabled reaches the file and the server's log (crates/samp/src/logger.rs).
use rust_samp.Base.{
  ℕ, ◌+◌, ◌≤◌, ◌<◌, ◌≡◌, refl, sym, subst, inl, inr, true, false, Option, List, [], ◌∷◌, ◌++◌,
  append-nil, append_assoc, length, map, arith, Bool-cases, if◌then◌else◌,
}
use rust_samp.Base.Text.{Text}
use rust_samp.Base.Search.{select}
use rust_samp.Logger.Config.{enabled}
use rust_samp.Logger.Backlog
use rust_samp.Logger.Backlog.{logs}
use rust_samp.Logger.Backlog.Order
use rust_samp.Logger.Rotation.{u32_max}
use rust_samp.Logger.Rotation.Shift.{calm}
use rust_samp.Logger.Rotation.Append
use rust_samp.Logger.Log.{
  Record, Logger, ServerLine, State, server_line, file_line, to_server, log, log_all,
}

abbrev pub enabled_records : ℕ → List Record → List Record
enabled_records stored records = select (λ r. enabled stored r.level_filter) records

-- The server's log and the file, against the lines sent to each so far.
pub record Delivered (first : ℕ) (s : State) (to_log : List ServerLine) (to_file : List Text)
    : Type 0 where
  pub server : Order.Kept s.0 to_log
  pub file : Append.Kept first s.1 to_file

module _ (parse_usize : Text → Option ℕ) (logger : Logger) where
  to_server-Kept :
      (r : Record) (server : Backlog.State ServerLine) (past : List ServerLine)
      → logger.also_to_server ≡ true
      → Order.Kept server past
      → Order.Kept
          (to_server parse_usize logger r server)
          (past ++ server_line parse_usize logger r ∷ [])
  unfolding to_server
  to_server-Kept r server past on h =
      subst
        (λ b.
          Order.Kept
            (if b
              then Backlog.queue_for_server r.on_main_thread (server_line parse_usize logger r)
                  false server
              else server)
            (past ++ server_line parse_usize logger r ∷ []))
        (sym on)
        (Order.queue_for_server-Kept r.on_main_thread (server_line parse_usize logger r) false
          server past h)

  -- A record that is enabled, and the file's share in it.
  log_enabled :
      (stored first max_bytes : ℕ) (r : Record) (s : State) (to_log : List ServerLine)
      (to_file : List Text)
      → logger.also_to_server ≡ true
      → logger.rotation ≡ Append.append_style max_bytes
      → enabled stored r.level_filter ≡ true
      → s.1.next_archive_index < u32_max
      → Delivered first s to_log to_file
      → Delivered first
          (log parse_usize logger calm stored r s)
          (to_log ++ server_line parse_usize logger r ∷ [])
          (to_file ++ file_line parse_usize logger r ∷ [])
        × ((log parse_usize logger calm stored r s).1.next_archive_index
            ≤ s.1.next_archive_index + 1)
  unfolding log to_server server_line file_line
  log_enabled stored first max_bytes r (server, file) to_log to_file on style e room d =
      let line = file_line parse_usize logger r in
      rw (e, style)
        (
          record {
            server = to_server-Kept r server to_log on d.server;
            file = Append.write_line-Kept first max_bytes file to_file line room d.file;
          },
          Append.write_line_next max_bytes file d.file.current line d.file.is_open
              d.file.active_current,
        )

  log_disabled :
      (stored : ℕ) (r : Record) (s : State)
      → enabled stored r.level_filter ≡ false
      → log parse_usize logger calm stored r s ≡ s
  unfolding log
  log_disabled stored r (server, file) e = rw e refl

  -- The lines of the records that are enabled, and of no other, whether or not there is room for them.
  pub log_all-Delivered :
      (stored first max_bytes : ℕ) (records : List Record) (s : State) (to_log : List ServerLine)
      (to_file : List Text)
      → logger.also_to_server ≡ true
      → logger.rotation ≡ Append.append_style max_bytes
      → s.1.next_archive_index + length records ≤ u32_max
      → Delivered first s to_log to_file
      → Delivered first
          (log_all parse_usize logger calm stored records s)
          (to_log ++ map (server_line parse_usize logger) (enabled_records stored records))
          (to_file ++ map (file_line parse_usize logger) (enabled_records stored records))
  unfolding log_all select
  log_all-Delivered stored first max_bytes [] s to_log to_file on style room d =
      rw (append-nil to_log, append-nil to_file) d
  log_all-Delivered stored first max_bytes (r ∷ records) s to_log to_file on style room d =
      elim (Bool-cases (enabled stored r.level_filter)) [
        | inl e ↦
            let (d', n) =
              log_enabled stored first max_bytes r s to_log to_file on style e (omega arith) d in
            let ih =
              log_all-Delivered stored first max_bytes records
                (log parse_usize logger calm stored r s) _ _ on style (omega (arith, n)) d' in
            rw e (rw (append_assoc to_log _ _, append_assoc to_file _ _) at ih)
        | inr e ↦
            rw (e, log_disabled stored r s e)
              (log_all-Delivered stored first max_bytes records s to_log to_file on style
                (omega arith) d)
      ]

  log_Complete :
      (stored : ℕ) (r : Record) (s : State) (past : List ServerLine)
      → logger.also_to_server ≡ true
      → enabled stored r.level_filter ≡ true
      → length s.0.backlog < Backlog.backlog_limit
      → Order.Complete s.0 past
      → Order.Complete
          (log parse_usize logger calm stored r s).0
          (past ++ server_line parse_usize logger r ∷ [])
        × (length (log parse_usize logger calm stored r s).0.backlog ≤ length s.0.backlog + 1)
  unfolding log to_server server_line
  log_Complete stored r (server, file) past on e room c =
      rw (e, on)
        (Order.queue_for_server-Complete r.on_main_thread (server_line parse_usize logger r) server
          past room c)

  log_all-Complete_server :
      (stored : ℕ) (records : List Record) (s : State) (past : List ServerLine)
      → logger.also_to_server ≡ true
      → length s.0.backlog + length records ≤ Backlog.backlog_limit
      → Order.Complete s.0 past
      → Order.Complete
          (log_all parse_usize logger calm stored records s).0
          (past ++ map (server_line parse_usize logger) (enabled_records stored records))
  unfolding log_all select
  log_all-Complete_server stored [] s past on room c = rw (append-nil past) c
  log_all-Complete_server stored (r ∷ records) s past on room c =
      elim (Bool-cases (enabled stored r.level_filter)) [
        | inl e ↦
            let (c', n) = log_Complete stored r s past on e (omega (arith, room)) c in
            let ih =
              log_all-Complete_server stored records (log parse_usize logger calm stored r s) _ on
                (omega (arith, n, room)) c' in
            rw e (rw (append_assoc past _ _) at ih)
        | inr e ↦ rw e (
            subst
              (λ x.
                Order.Complete (log_all parse_usize logger calm stored records x).0
                  (past ++ map (server_line parse_usize logger) (enabled_records stored records)))
              (sym (log_disabled stored r s e))
              (log_all-Complete_server stored records s past on (omega (arith, room)) c))
      ]

  -- From a logger that sends to the server and has lost no line, and whose log file is open and rotated without cleanup: where the backlog has room for the records, no call of the file system fails and indices for archives are left, every record of an enabled level, and no other, has its line in the server's log, or waiting for it, once and in the order of logging, with no line dropped; and its line in the lines of the file and its archives, in the same order.
  pub log_all-Complete :
      (stored first max_bytes : ℕ) (records : List Record) (s : State) (to_log : List ServerLine)
      (to_file : List Text)
      → logger.also_to_server ≡ true
      → logger.rotation ≡ Append.append_style max_bytes
      → s.1.next_archive_index + length records ≤ u32_max
      → length s.0.backlog + length records ≤ Backlog.backlog_limit
      → Order.Complete s.0 to_log
      → Delivered first s to_log to_file
      → Order.Complete
          (log_all parse_usize logger calm stored records s).0
          (to_log ++ map (server_line parse_usize logger) (enabled_records stored records))
        × Append.Kept first
            (log_all parse_usize logger calm stored records s).1
            (to_file ++ map (file_line parse_usize logger) (enabled_records stored records))
  log_all-Complete stored first max_bytes records s to_log to_file on style indices room c d = (
    log_all-Complete_server stored records s to_log on room c,
    (log_all-Delivered stored first max_bytes records s to_log to_file on style indices d).file,
  )
