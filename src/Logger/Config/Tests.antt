-- ===== src/Logger/Config/Tests.antt =====
-- A plugin whose level and rotation come from the environment.
use rust_samp.Base.{ℕ, ◌≡◌, refl, Option, none, some, ◌++◌, if◌then◌else◌}
use rust_samp.Base.Text.{
  Text, codes, eq_text, to_ascii_lower, trim, trim_start, is_whitespace, is_ascii_alphanumeric,
}
use rust_samp.Logger.Config.{
  warn, new, read_env, apply_env, parse_level, lower, env_var_prefix, env_char,
}
use rust_samp.Logger.Config.Env.{built, invalid, apply_env-built}

prefix_of_crate : env_var_prefix (codes "streamer-rs") ≡ codes "STREAMER_RS"
unfolding env_var_prefix env_char is_ascii_alphanumeric
prefix_of_crate = refl

parse_level_trimmed : parse_level (codes " Warning\n") ≡ some warn
unfolding parse_level lower eq_text trim trim_start is_whitespace to_ascii_lower
parse_level_trimmed = refl

abbrev env : Text → Option Text
env name =
    if eq_text name (codes "P_LOG_LEVEL")
    then some (codes "debug")
    else if eq_text name (codes "P_LOG_ROTATION_MB")
    then some (codes "many")
    else none

abbrev no_number : Text → Option ℕ
no_number raw = none

apply_env-built_example : apply_env no_number no_number env (codes "P") (new (codes "p")) ≡ (
  built no_number no_number (read_env env (codes "P")) (new (codes "p")),
  (invalid (read_env env (codes "P") (codes "LEVEL")) parse_level (codes "LEVEL")
        ++ invalid (read_env env (codes "P") (codes "ROTATION_MB")) no_number (codes "ROTATION_MB"))
      ++ invalid
          (read_env env (codes "P") (codes "ROTATION_KEEP"))
          no_number
          (codes "ROTATION_KEEP"),
)
apply_env-built_example = apply_env-built no_number no_number env (codes "P") (new (codes "p"))
