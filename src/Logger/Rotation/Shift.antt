-- ===== src/Logger/Rotation/Shift.antt =====
-- Shift-style rotation keeps the most recent archives (crates/samp/src/logger.rs).
use rust_samp.Base.{false}
use rust_samp.Logger.Rotation.{Faults}

-- No call fails.
abbrev pub calm : Faults
calm = record {
  create_dir = false;
  open_file = false;
  write_file = false;
  remove_file = false;
  rename_active = false;
  rename_archive = λ i. false;
}
