-- ===== src/Logger/Config/Level.antt =====
-- The level that is set decides what is logged (crates/samp/src/logger.rs).
use rust_samp.Base.{◌≤◌, ◌≡◌, ◌↔◌, refl, true, leb→le, le→leb}
use rust_samp.Logger.Config.{
  LevelFilter, off, error, warn, info, debug, trace, level_to_u8, u8_to_level, set_level, level,
  enabled,
}

pub level-set_level : (l : LevelFilter) → level (set_level l) ≡ l
unfolding level set_level level_to_u8 u8_to_level
level-set_level off = refl
level-set_level error = refl
level-set_level warn = refl
level-set_level info = refl
level-set_level debug = refl
level-set_level trace = refl

-- The level set is the level read back, and after it exactly the records of that level or a more
-- severe one are logged.
pub enabled-set_level :
    (l r : LevelFilter)
    → (level (set_level l) ≡ l)
      × ((enabled (set_level l) r ≡ true) ↔ (level_to_u8 r ≤ level_to_u8 l))
unfolding enabled level
enabled-set_level l r =
    let e : u8_to_level (set_level l) ≡ l = level-set_level l in
    (
      level-set_level l,
      rw e (leb→le (level_to_u8 r) (level_to_u8 l), le→leb (level_to_u8 r) (level_to_u8 l)),
    )
