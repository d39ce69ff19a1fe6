-- ===== src/Logger/Config/Builder.antt =====
-- crates/samp/src/logger.rs: the builder methods of the configuration.
use rust_samp.Base.{ℕ, ◌*◌, Bool, none, some, min, ◌==◌, List, if◌then◌else◌}
use rust_samp.Base.Text.{Text}
use rust_samp.Logger.Config.{
  LoggerConfig, LevelFilter, BannerMode, banner_off, banner_custom, u64_max, keep_of, max_bytes_of,
}

unfoldable pub directory : Text → LoggerConfig → LoggerConfig
directory path c = record c { directory = path }

unfoldable pub filename : Text → LoggerConfig → LoggerConfig
filename name c = record c { filename = some name }

pub prefix : Text → LoggerConfig → LoggerConfig
prefix p c = record c { prefix = some p }

unfoldable pub level : LevelFilter → LoggerConfig → LoggerConfig
level l c = record c { level_filter = l }

unfoldable pub also_to_server : Bool → LoggerConfig → LoggerConfig
also_to_server enabled c = record c { also_to_server = enabled }

pub banner : BannerMode → LoggerConfig → LoggerConfig
banner mode c = record c { banner = mode }

unfoldable pub no_banner : LoggerConfig → LoggerConfig
no_banner c = record c { banner = banner_off }

pub banner_with : (Text → List Text) → LoggerConfig → LoggerConfig
banner_with builder c = record c { banner = banner_custom builder }

pub file_format : Text → LoggerConfig → LoggerConfig
file_format format c = record c { file_format = format }

pub server_format : Text → LoggerConfig → LoggerConfig
server_format format c = record c { server_format = format }

unfoldable pub no_rotation : LoggerConfig → LoggerConfig
no_rotation c = record c { rotation = none }

unfoldable pub rotation_size_mb : ℕ → LoggerConfig → LoggerConfig
rotation_size_mb mb c = if mb == 0 then record c { rotation = none } else record c {
  rotation = some (record { max_bytes = min (mb * 1_048_576) u64_max; keep = keep_of c.rotation });
}

unfoldable pub rotation_keep : ℕ → LoggerConfig → LoggerConfig
rotation_keep keep c = record c {
  rotation = some (record { max_bytes = max_bytes_of c.rotation; keep = some keep });
}

pub rotation_no_cleanup : LoggerConfig → LoggerConfig
rotation_no_cleanup c = record c {
  rotation = some (record { max_bytes = max_bytes_of c.rotation; keep = none });
}
