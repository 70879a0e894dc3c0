-- ===== src/Log/Levels.antt =====
-- The levels of game_client/game_client/Logger.h and their names.
use easygametools.Base.{ℕ, ◌≡◌, refl, ◌++◌, if◌then◌else◌}
use easygametools.Base.Text.{Bytes, codes, strncmp_eq}

pub data LogLevel : Type 0 where
  lvl_trace lvl_debug lvl_info lvl_warn lvl_error lvl_fatal lvl_off : LogLevel

abbrev pub level_number : LogLevel → ℕ
level_number LogLevel.lvl_trace = 0
level_number LogLevel.lvl_debug = 1
level_number LogLevel.lvl_info = 2
level_number LogLevel.lvl_warn = 3
level_number LogLevel.lvl_error = 4
level_number LogLevel.lvl_fatal = 5
level_number LogLevel.lvl_off = 6

-- `getLogLevelStr`
unfoldable pub get_log_level_str : LogLevel → Bytes
get_log_level_str LogLevel.lvl_trace = codes "TRACE"
get_log_level_str LogLevel.lvl_debug = codes "DEBUG"
get_log_level_str LogLevel.lvl_info = codes "INFO"
get_log_level_str LogLevel.lvl_warn = codes "WARN"
get_log_level_str LogLevel.lvl_error = codes "ERROR"
get_log_level_str LogLevel.lvl_fatal = codes "FATAL"
get_log_level_str LogLevel.lvl_off = codes "UNKNOWN"

-- `getLogLevel`
unfoldable pub get_log_level : Bytes → LogLevel
get_log_level level =
    if strncmp_eq (codes "TRACE") level 5
    then LogLevel.lvl_trace
    else if strncmp_eq (codes "DEBUG") level 5
    then LogLevel.lvl_debug
    else if strncmp_eq (codes "INFO") level 4
    then LogLevel.lvl_info
    else if strncmp_eq (codes "WARN") level 4
    then LogLevel.lvl_warn
    else if strncmp_eq (codes "ERROR") level 5
    then LogLevel.lvl_error
    else if strncmp_eq (codes "FATAL") level 5
    then LogLevel.lvl_fatal
    else LogLevel.lvl_info

-- The level that a printed level reads back as.
abbrev pub read_back : LogLevel → LogLevel
read_back LogLevel.lvl_off = LogLevel.lvl_info
read_back level = level

pub get_log_level-str :
    (level : LogLevel) (rest : Bytes)
    → get_log_level (get_log_level_str level ++ rest) ≡ read_back level
unfolding get_log_level get_log_level_str
get_log_level-str LogLevel.lvl_trace rest = refl
get_log_level-str LogLevel.lvl_debug rest = refl
get_log_level-str LogLevel.lvl_info rest = refl
get_log_level-str LogLevel.lvl_warn rest = refl
get_log_level-str LogLevel.lvl_error rest = refl
get_log_level-str LogLevel.lvl_fatal rest = refl
get_log_level-str LogLevel.lvl_off rest = refl
