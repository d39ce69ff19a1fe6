-- ===== src/Logger/Log/Tests.antt =====
-- A warning and a debug record, at the level of warnings.
use rust_samp.Base.{refl, true, false, none, some, List, [], ◌∷◌, ◌++◌, map, arith}
use rust_samp.Base.Text.{codes}
use rust_samp.Logger.Config.{warn, debug, set_level}
use rust_samp.Logger.Backlog.Order
use rust_samp.Logger.Rotation.Shift.{calm}
use rust_samp.Logger.Rotation.Append
use rust_samp.Logger.Log.{Record, Logger, State, server_line, file_line, log_all}
use rust_samp.Logger.Log.Delivered.{Delivered, enabled_records, log_all-Complete}

abbrev logger : Logger
logger = record {
  prefix = codes "[p]";
  also_to_server = true;
  rotation = Append.append_style 100;
  file_format = codes "{message}";
  server_format = codes "{prefix} {message}";
}

abbrev records : List Record
records =
    record {
      level_filter = warn;
      level_name = codes "WARN";
      message = codes "a";
      timestamp = [];
      on_main_thread = false;
    }
    ∷ record {
      level_filter = debug;
      level_name = codes "DEBUG";
      message = codes "b";
      timestamp = [];
      on_main_thread = true;
    }
    ∷ []

abbrev start : State
start = (
  record { backlog = []; dropped = 0; waiting = false; ready = false; sent = [] },
  record {
    file_open = true;
    current_size = 0;
    file_write_reported = false;
    next_archive_index = 1;
    disk = record { active = some []; archives = λ i. none };
    reports = [];
  },
)

nothing_yet : Delivered 1 start [] []
nothing_yet = record {
  server = record { order = Order.empty; total = refl; idle = λ e. (refl, refl) };
  file = record {
    archived = 0;
    current = [];
    is_open = refl;
    active_current = refl;
    sized = refl;
    next = omega arith;
    all_lines = refl;
  };
}

log_all-Complete_example :
    Order.Complete
      (log_all (λ width. none) logger calm (set_level warn) records start).0
      ([] ++ map (server_line (λ width. none) logger) (enabled_records (set_level warn) records))
    × Append.Kept 1
        (log_all (λ width. none) logger calm (set_level warn) records start).1
        ([] ++ map (file_line (λ width. none) logger) (enabled_records (set_level warn) records))
log_all-Complete_example =
    log_all-Complete (λ width. none) logger (set_level warn) 1 100 records start [] [] refl refl
      (omega arith) (omega arith)
      (record { all_there = refl; none_lost = refl; sound = λ e. (refl, refl) }) nothing_yet
