-- ===== src/Logger/Log.antt =====
-- crates/samp/src/logger.rs: `LoggerImpl::log`, which sends a record to the server's log and to the
-- plugin's file. The clock and the thread are parts of the record; sinks are left out.
pub mod Delivered
mod Tests
use rust_samp.Base.{ℕ, Bool, true, false, Option, none, some, List, [], ◌∷◌, ◌++◌, if◌then◌else◌}
use rust_samp.Base.Text.{Text}
use rust_samp.Logger.Config.{LevelFilter, Rotation, enabled}
use rust_samp.Logger.Format.{Line, apply_format}
use rust_samp.Logger.Backlog
use rust_samp.Logger.Rotation

pub record Record : Type 0 where
  pub level_filter : LevelFilter
  pub level_name : Text
  pub message : Text
  pub timestamp : Text
  pub on_main_thread : Bool

pub record Logger : Type 0 where
  pub prefix : Text
  pub also_to_server : Bool
  pub rotation : Option Rotation
  pub file_format : Text
  pub server_format : Text

-- A line of the server's log, with its level.
abbrev pub ServerLine : Type 0
ServerLine = LevelFilter × Text

-- What waits for the server, and the log file.
abbrev pub State : Type 0
State = Backlog.State ServerLine × Rotation.State

module _ (parse_usize : Text → Option ℕ) (logger : Logger) where
  pub server_line : Record → ServerLine
  server_line r = (
    r.level_filter,
    apply_format parse_usize
        (record {
          prefix = some logger.prefix;
          timestamp = r.timestamp;
          level = r.level_name;
          message = r.message;
        })
        logger.server_format,
  )

  pub file_line : Record → Text
  file_line r =
      apply_format parse_usize
        (record {
          prefix = none;
          timestamp = r.timestamp;
          level = r.level_name;
          message = r.message;
        })
        logger.file_format
      ++ b'\n' ∷ []

  pub to_server : Record → Backlog.State ServerLine → Backlog.State ServerLine
  to_server r server =
      if logger.also_to_server
      then Backlog.queue_for_server r.on_main_thread (server_line r) false server
      else server

module _ (parse_usize : Text → Option ℕ) (logger : Logger) (f : Rotation.Faults) where
  -- `stored` is the value of `LEVEL`.
  pub log : ℕ → Record → State → State
  log stored r (server, file) =
      if enabled stored r.level_filter
      then (
        to_server parse_usize logger r server,
        Rotation.write_line f logger.rotation (file_line parse_usize logger r) file,
      )
      else (server, file)

  pub log_all : ℕ → List Record → State → State
  log_all stored [] s = s
  log_all stored (r ∷ records) s = log_all stored records (log stored r s)
