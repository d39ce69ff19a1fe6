-- ===== src/Logger/Config/Env.antt =====
-- The environment variables do what the builder methods do (crates/samp/src/logger.rs).
use rust_samp.Base.{
  ℕ, ◌≡◌, refl, ap, sym, append-nil, inl, inr, Option, none, some, List, [], ◌∷◌, ◌++◌, ◌==◌,
  if◌then◌else◌, Bool-cases, Option-cases,
}
use rust_samp.Base.Text.{Text, codes}
use rust_samp.Logger.Config.{
  LoggerConfig, parse_level, parse_bool, read_env, warn_invalid, apply_env, apply_level, apply_dir,
  apply_file, apply_rotation_mb, apply_rotation_keep, apply_no_rotation, apply_no_banner,
  apply_server,
}
use rust_samp.Logger.Config.Builder.{
  directory, filename, level, also_to_server, no_banner, no_rotation, rotation_size_mb,
  rotation_keep,
}

-- Where there is a value, and it is valid, the builder method is called with it.
abbrev pub given :
    {A : Type 0}
    → Option Text
    → (Text → Option A)
    → (A → LoggerConfig → LoggerConfig)
    → LoggerConfig
    → LoggerConfig
given none parse f c = c
given (some raw) parse f c = elim (parse raw) [ none ↦ c | some v ↦ f v c ]

-- The key, where there is a value that is not valid.
abbrev pub invalid : {A : Type 0} → Option Text → (Text → Option A) → Text → List Text
invalid none parse key = []
invalid (some raw) parse key = elim (parse raw) [ none ↦ key ∷ [] | some v ↦ [] ]

abbrev pub flag : Option Text → (LoggerConfig → LoggerConfig) → LoggerConfig → LoggerConfig
flag none f c = c
flag (some raw) f c = if parse_bool raw then f c else c

apply_level-given :
    (o : Option Text) (c : LoggerConfig) (w : List Text)
    → apply_level o (c, w)
      ≡ (given o parse_level level c, w ++ invalid o parse_level (codes "LEVEL"))
unfolding apply_level level warn_invalid
apply_level-given none c w = ap (λ v. (c, v)) (sym (append-nil w))
apply_level-given (some raw) c w = elim (Option-cases (parse_level raw)) [
  | inl e ↦ rw (apply_level, given, invalid, e) refl
  | inr (l, e) ↦
      rw (apply_level, given, invalid, e)
        (ap (λ v. (record c { level_filter = l }, v)) (sym (append-nil w)))
]

apply_rotation_mb-given :
    (parse_u64 : Text → Option ℕ) (o : Option Text) (c : LoggerConfig) (w : List Text)
    → apply_rotation_mb parse_u64 o (c, w)
      ≡ (given o parse_u64 rotation_size_mb c, w ++ invalid o parse_u64 (codes "ROTATION_MB"))
unfolding apply_rotation_mb rotation_size_mb warn_invalid
apply_rotation_mb-given parse_u64 none c w = ap (λ v. (c, v)) (sym (append-nil w))
apply_rotation_mb-given parse_u64 (some raw) c w = elim (Option-cases (parse_u64 raw)) [
  | inl e ↦ rw (apply_rotation_mb, given, invalid, e) refl
  | inr (mb, e) ↦ elim (Bool-cases (mb == 0)) [
    | inl z ↦ rw (apply_rotation_mb, given, invalid, e, z, append-nil w) refl
    | inr z ↦ rw (apply_rotation_mb, given, invalid, e, z, append-nil w) refl
  ]
]

apply_rotation_keep-given :
    (parse_u32 : Text → Option ℕ) (o : Option Text) (c : LoggerConfig) (w : List Text)
    → apply_rotation_keep parse_u32 o (c, w)
      ≡ (given o parse_u32 rotation_keep c, w ++ invalid o parse_u32 (codes "ROTATION_KEEP"))
unfolding apply_rotation_keep rotation_keep warn_invalid
apply_rotation_keep-given parse_u32 none c w = ap (λ v. (c, v)) (sym (append-nil w))
apply_rotation_keep-given parse_u32 (some raw) c w = elim (Option-cases (parse_u32 raw)) [
  | inl e ↦ rw (apply_rotation_keep, given, invalid, e) refl
  | inr (keep, e) ↦ rw (apply_rotation_keep, given, invalid, e, append-nil w) refl
]

apply_dir-given :
    (o : Option Text) (c : LoggerConfig) (w : List Text)
    → apply_dir o (c, w) ≡ (given o some directory c, w)
unfolding apply_dir directory
apply_dir-given none c w = refl
apply_dir-given (some raw) c w = refl

apply_file-given :
    (o : Option Text) (c : LoggerConfig) (w : List Text)
    → apply_file o (c, w) ≡ (given o some filename c, w)
unfolding apply_file filename
apply_file-given none c w = refl
apply_file-given (some raw) c w = refl

apply_no_rotation-flag :
    (o : Option Text) (c : LoggerConfig) (w : List Text)
    → apply_no_rotation o (c, w) ≡ (flag o no_rotation c, w)
unfolding apply_no_rotation no_rotation
apply_no_rotation-flag none c w = refl
apply_no_rotation-flag (some raw) c w = elim (Bool-cases (parse_bool raw)) [
  | inl e ↦ rw e refl
  | inr e ↦ rw e refl
]

apply_no_banner-flag :
    (o : Option Text) (c : LoggerConfig) (w : List Text)
    → apply_no_banner o (c, w) ≡ (flag o no_banner c, w)
unfolding apply_no_banner no_banner
apply_no_banner-flag none c w = refl
apply_no_banner-flag (some raw) c w = elim (Bool-cases (parse_bool raw)) [
  | inl e ↦ rw e refl
  | inr e ↦ rw e refl
]

apply_server-given :
    (o : Option Text) (c : LoggerConfig) (w : List Text)
    → apply_server o (c, w) ≡ (given o (λ raw. some (parse_bool raw)) also_to_server c, w)
unfolding apply_server also_to_server
apply_server-given none c w = refl
apply_server-given (some raw) c w = refl

-- The builder methods that the variables stand for, in the order in which they are applied.
abbrev pub built :
    (Text → Option ℕ) → (Text → Option ℕ) → (Text → Option Text) → LoggerConfig → LoggerConfig
built parse_u64 parse_u32 var c =
    let opened = given (var (codes "FILE")) some filename (
      given (var (codes "DIR")) some directory (given (var (codes "LEVEL")) parse_level level c)) in
    let rotated = flag (var (codes "NO_ROTATION")) no_rotation (
      given (var (codes "ROTATION_KEEP")) parse_u32 rotation_keep
        (given (var (codes "ROTATION_MB")) parse_u64 rotation_size_mb opened)) in
    given (var (codes "SERVER")) (λ raw. some (parse_bool raw)) also_to_server
      (flag (var (codes "NO_BANNER")) no_banner rotated)

-- The environment changes the configuration as the builder methods do that the variables stand for: a
-- variable that is missing or empty, or whose value is not valid, changes nothing; and exactly the
-- variables with a level or a number that is not valid are warned of.
pub apply_env-built :
    (parse_u64 parse_u32 : Text → Option ℕ) (env : Text → Option Text) (prefix : Text)
    (c : LoggerConfig)
    → let var = read_env env prefix in
      apply_env parse_u64 parse_u32 env prefix c ≡ (
        built parse_u64 parse_u32 var c,
        (invalid (var (codes "LEVEL")) parse_level (codes "LEVEL")
              ++ invalid (var (codes "ROTATION_MB")) parse_u64 (codes "ROTATION_MB"))
            ++ invalid (var (codes "ROTATION_KEEP")) parse_u32 (codes "ROTATION_KEEP"),
      )
unfolding apply_env
apply_env-built parse_u64 parse_u32 env prefix c =
    let var = read_env env prefix in
    rw
      (
        apply_level-given (var (codes "LEVEL")) c [],
        apply_dir-given (var (codes "DIR")),
        apply_file-given (var (codes "FILE")),
        apply_rotation_mb-given parse_u64 (var (codes "ROTATION_MB")),
        apply_rotation_keep-given parse_u32 (var (codes "ROTATION_KEEP")),
        apply_no_rotation-flag (var (codes "NO_ROTATION")),
        apply_no_banner-flag (var (codes "NO_BANNER")),
        apply_server-given (var (codes "SERVER")),
      )
      refl
