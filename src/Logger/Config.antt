-- ===== src/Logger/Config.antt =====
-- crates/samp/src/logger.rs: the logger's configuration, by builder methods and by environment
-- variables, and its level. Variables are a function from names to values; `parse_u64` and
-- `parse_u32` are the standard library's `str::parse`. A path is its text. Sinks, and the setting of the
-- `compression` feature, are left out.
pub mod Level
pub mod Builder
pub mod Env
mod Tests
use rust_samp.Base.{
  ℕ, ◌+◌, ◌-◌, ◌*◌, Bool, true, false, not, Option, none, some, List, [], ◌∷◌, ◌++◌, map, min, leb,
  if◌then◌else◌, ◌||◌, ◌&&◌, ◌==◌,
}
use rust_samp.Base.Text.{Text, codes, eq_text, trim, to_ascii_lower, is_ascii_alphanumeric}

pub data LevelFilter : Type 0 where
  off : LevelFilter
  error : LevelFilter
  warn : LevelFilter
  info : LevelFilter
  debug : LevelFilter
  trace : LevelFilter

pub level_to_u8 : LevelFilter → ℕ
level_to_u8 off = 0
level_to_u8 error = 1
level_to_u8 warn = 2
level_to_u8 info = 3
level_to_u8 debug = 4
level_to_u8 trace = 5

pub u8_to_level : ℕ → LevelFilter
u8_to_level v =
    if v == 0
    then off
    else if v == 1
    then error
    else if v == 2
    then warn
    else if v == 3
    then info
    else if v == 4
    then debug
    else trace

-- The value of `LEVEL` after `set_level`, and the level that it stands for.
pub set_level : LevelFilter → ℕ
set_level l = level_to_u8 l

pub level : ℕ → LevelFilter
level stored = u8_to_level stored

-- A record has a level other than `off`; levels are ordered as they are declared.
pub enabled : ℕ → LevelFilter → Bool
enabled stored record_level = leb (level_to_u8 record_level) (level_to_u8 (u8_to_level stored))

pub lower : Text → Text
lower raw = map to_ascii_lower (trim raw)

pub parse_level : Text → Option LevelFilter
parse_level raw =
    if eq_text (lower raw) (codes "off")
    then some off
    else if eq_text (lower raw) (codes "error")
    then some error
    else if eq_text (lower raw) (codes "warn") || eq_text (lower raw) (codes "warning")
    then some warn
    else if eq_text (lower raw) (codes "info")
    then some info
    else if eq_text (lower raw) (codes "debug")
    then some debug
    else if eq_text (lower raw) (codes "trace")
    then some trace
    else none

pub parse_bool : Text → Bool
parse_bool raw =
    eq_text (lower raw) (codes "1")
    || eq_text (lower raw) (codes "true")
    || eq_text (lower raw) (codes "yes")
    || eq_text (lower raw) (codes "on")

pub env_char : ℕ → ℕ
env_char c =
    if is_ascii_alphanumeric c then (if leb b'a' c && leb c b'z' then c - 32 else c) else b'_'

pub env_var_prefix : Text → Text
env_var_prefix crate_name = map env_char crate_name

abbrev pub u64_max : ℕ
u64_max = 0xffff_ffff_ffff_ffff

abbrev pub default_rotation_bytes : ℕ
default_rotation_bytes = 52_428_800

pub record Rotation : Type 0 where
  pub max_bytes : ℕ
  pub keep : Option ℕ

pub data BannerMode : Type 0 where
  banner_off : BannerMode
  banner_default : BannerMode
  banner_custom : (Text → List Text) → BannerMode

pub record LoggerConfig : Type 0 where
  pub crate_name : Text
  pub directory : Text
  pub filename : Option Text
  pub prefix : Option Text
  pub level_filter : LevelFilter
  pub also_to_server : Bool
  pub banner : BannerMode
  pub rotation : Option Rotation
  pub file_format : Text
  pub server_format : Text

abbrev pub default_file_format : Text
default_file_format = codes "[{timestamp}] [{level}] {message}"

abbrev pub default_server_format : Text
default_server_format = codes "{prefix} {message}"

pub new : Text → LoggerConfig
new crate_name = record {
  crate_name = crate_name;
  directory = codes "logs";
  filename = none;
  prefix = none;
  level_filter = info;
  also_to_server = true;
  banner = banner_default;
  rotation = some (record { max_bytes = default_rotation_bytes; keep = none });
  file_format = default_file_format;
  server_format = default_server_format;
}

pub keep_of : Option Rotation → Option ℕ
keep_of none = none
keep_of (some r) = r.keep

pub max_bytes_of : Option Rotation → ℕ
max_bytes_of none = default_rotation_bytes
max_bytes_of (some r) = r.max_bytes

pub resolved_filename : LoggerConfig → Text
resolved_filename c = elim c.filename [ none ↦ c.crate_name ++ codes ".log" | some name ↦ name ]

pub resolved_prefix : LoggerConfig → Text
resolved_prefix c = elim c.prefix [ none ↦ b'[' ∷ (c.crate_name ++ codes "]") | some p ↦ p ]

-- The configuration, and the variables that were warned of.
abbrev pub Applied : Type 0
Applied = LoggerConfig × List Text

-- `std::env::var`, without a value that is empty.
pub read_env : (Text → Option Text) → Text → Text → Option Text
read_env env prefix key = elim (env (prefix ++ (codes "_LOG_" ++ key))) [
  | none ↦ none
  | some [] ↦ none
  | some (c ∷ raw) ↦ some (c ∷ raw)
]

pub warn_invalid : Text → Applied → Applied
warn_invalid key (c, warned) = (c, warned ++ key ∷ [])

-- The parts of `apply_env`, each with what `read_env` gave.
pub apply_level : Option Text → Applied → Applied
apply_level none (c, warned) = (c, warned)
apply_level (some raw) (c, warned) = elim (parse_level raw) [
  | some l ↦ (record c { level_filter = l }, warned)
  | none ↦ warn_invalid (codes "LEVEL") (c, warned)
]

pub apply_dir : Option Text → Applied → Applied
apply_dir none (c, warned) = (c, warned)
apply_dir (some raw) (c, warned) = (record c { directory = raw }, warned)

pub apply_file : Option Text → Applied → Applied
apply_file none (c, warned) = (c, warned)
apply_file (some raw) (c, warned) = (record c { filename = some raw }, warned)

pub apply_rotation_mb : (Text → Option ℕ) → Option Text → Applied → Applied
apply_rotation_mb parse_u64 none (c, warned) = (c, warned)
apply_rotation_mb parse_u64 (some raw) (c, warned) = elim (parse_u64 raw) [
  | none ↦ warn_invalid (codes "ROTATION_MB") (c, warned)
  | some mb ↦ if mb == 0 then (record c { rotation = none }, warned) else (
    record c {
      rotation =
          some (record { max_bytes = min (mb * 1_048_576) u64_max; keep = keep_of c.rotation });
    },
    warned,
  )
]

pub apply_rotation_keep : (Text → Option ℕ) → Option Text → Applied → Applied
apply_rotation_keep parse_u32 none (c, warned) = (c, warned)
apply_rotation_keep parse_u32 (some raw) (c, warned) = elim (parse_u32 raw) [
  | none ↦ warn_invalid (codes "ROTATION_KEEP") (c, warned)
  | some keep ↦ (
    record c { rotation = some (record { max_bytes = max_bytes_of c.rotation; keep = some keep }) },
    warned,
  )
]

pub apply_no_rotation : Option Text → Applied → Applied
apply_no_rotation none (c, warned) = (c, warned)
apply_no_rotation (some raw) (c, warned) =
    if parse_bool raw then (record c { rotation = none }, warned) else (c, warned)

pub apply_no_banner : Option Text → Applied → Applied
apply_no_banner none (c, warned) = (c, warned)
apply_no_banner (some raw) (c, warned) =
    if parse_bool raw then (record c { banner = banner_off }, warned) else (c, warned)

pub apply_server : Option Text → Applied → Applied
apply_server none (c, warned) = (c, warned)
apply_server (some raw) (c, warned) = (record c { also_to_server = parse_bool raw }, warned)

pub apply_env :
    (Text → Option ℕ) → (Text → Option ℕ) → (Text → Option Text) → Text → LoggerConfig → Applied
apply_env parse_u64 parse_u32 env prefix c =
    let var = read_env env prefix in
    let opened =
      apply_file (var (codes "FILE"))
        (apply_dir (var (codes "DIR")) (apply_level (var (codes "LEVEL")) (c, []))) in
    let rotated = apply_no_rotation (var (codes "NO_ROTATION")) (
      apply_rotation_keep parse_u32 (var (codes "ROTATION_KEEP"))
        (apply_rotation_mb parse_u64 (var (codes "ROTATION_MB")) opened)) in
    apply_server (var (codes "SERVER")) (apply_no_banner (var (codes "NO_BANNER")) rotated)

pub from_env : (Text → Option ℕ) → (Text → Option ℕ) → (Text → Option Text) → LoggerConfig → Applied
from_env parse_u64 parse_u32 env c =
    apply_env parse_u64 parse_u32 env (env_var_prefix c.crate_name) c
