-- ===== src/Main.antt =====
-- cmd/main.go: the level of the log; the start is in Main/Boot, the end in Main/Shutdown.
pub mod Boot
pub mod Serving
pub mod Shutdown
use route_planner.Prelude.{if◌then◌else◌}
use route_planner.Prelude.Text.{Text, codes, same_text}
use route_planner.Auth.{to_lower}

-- The levels of log/slog that the program picks from.
pub data Level : Type 0 where
  level_debug : Level
  level_info : Level
  level_warn : Level
  level_error : Level

abbrev level_of : Text → Level
level_of word =
    if same_text word (codes "debug")
    then level_debug
    else if same_text word (codes "warn")
    then level_warn
    else if same_text word (codes "error")
    then level_error
    else level_info

abbrev pub get_log_level : Text → Level
get_log_level log_level = level_of (to_lower log_level)
