-- ===== src/Log.antt =====
-- The loggers of game_client/game_client/Logger.h and Logger.cpp, and the file that they share, of
-- RollingFileAppender.h.
--
-- A logger is the number of its place in `allLoggers`. A call is given the seconds of `time(NULL)`. The
-- locks are left out.
pub mod Levels
pub mod Configure
pub mod Lines
pub mod Overrides
pub mod Standing
pub mod Life
pub mod Examples
use easygametools.Base.{
  ℕ, zero, suc, Bool, true, false, not, Option, none, some, List, [], ◌∷◌, ◌++◌, if◌then◌else◌, ltb,
  leb, length, get_elem?,
}
use easygametools.Base.Int.{ℤ}
use easygametools.Base.Text.{Bytes, codes}
use easygametools.Base.Decimal.{print_int}
use easygametools.Base.Outcome.{
  Result, ok, err, null_pointer, dangling, unterminated, ◌>>=◌, ◌>>◌, guard, or_error,
}
use easygametools.Config.{Config, get}
use easygametools.Log.Levels.{LogLevel, level_number, get_log_level_str, get_log_level}

-- The static members of `RollingFileAppender`: whether `outputFile` is open, if there is one, with the
-- lines of rog.log, and the lines on the console.
pub record Output : Type 0 where
  pub is_configured : Bool
  pub output_file : Option Bool
  pub file_lines : List Bytes
  pub console_lines : List Bytes

-- `RollingFileAppender::init`, where rog.log can be opened
unfoldable pub init : Output → Output
init o = if o.is_configured then o else record o { output_file = some true; is_configured = true }

-- `<< msg << std::endl`: a stream that is closed takes nothing.
unfoldable pub write_line : Option Bool → Bytes → Output → Result Output
write_line none line o = err null_pointer
write_line (some open_file) line o = ok (record o {
  file_lines = if open_file then o.file_lines ++ line ∷ [] else o.file_lines;
  console_lines = o.console_lines ++ line ∷ [];
})

-- `RollingFileAppender::append`
unfoldable pub append : Bytes → Output → Result Output
unfolding write_line
append line o = if o.is_configured then write_line o.output_file line o else ok o

unfoldable pub close_file : Option Bool → Output → Result Output
close_file none o = err null_pointer
close_file (some open_file) o = ok (record o { output_file = some false })

-- `RollingFileAppender::cleanup`
unfoldable pub cleanup : Output → Result Output
unfolding close_file
cleanup o = close_file o.output_file o

-- A `Logger`; its appenders are all alike.
pub record Logger : Type 0 where
  pub name : Bytes
  pub current_level : LogLevel
  pub appenders : ℕ

-- `allLoggers`: NULL, an array, or an array that has been deleted.
pub data AllLoggers : Type 0 where
  null deleted : AllLoggers
  array : List Logger → AllLoggers

pub record Logging : Type 0 where
  pub all_loggers : AllLoggers
  -- The configuration that `logCreationListener` has, if there is one.
  pub listener : Option Config
  pub output : Output

-- `_snprintf(nameBuf, 254, "%s.logLevel", newLogger)`: a longer text has no closing NUL.
unfoldable pub level_key : Bytes → Result Bytes
level_key name =
    if ltb (length (name ++ codes ".logLevel")) 254
    then ok (name ++ codes ".logLevel")
    else err unterminated

unfoldable pub level_or : Option Bytes → LogLevel → LogLevel
level_or none other = other
level_or (some value) other = get_log_level value

-- `LogConfigurator::getDefaultLogLevel`
unfoldable pub get_default_log_level : Bytes → Config → Result (LogLevel × Config)
unfolding level_or level_key
get_default_log_level name c = do
  key ← level_key name
  let (own, c') = get key c
  let (general, c'') = get (codes "logLevel") c'
  ok (elim own [
    | some value ↦ (get_log_level value, c')
    | none ↦ (level_or general LogLevel.lvl_info, c'')
  ])

-- `if (logCreationListener != NULL)`
unfoldable pub override : Option Config → Bytes → LogLevel → Result (LogLevel × Option Config)
unfolding get_default_log_level
override none name level = ok (level, none)
override (some c) name level = do (level', c') ← get_default_log_level name c; ok (level', some c')

-- The array, which is made where there is none.
unfoldable pub loggers_of : AllLoggers → Result (List Logger)
loggers_of AllLoggers.null = ok []
loggers_of AllLoggers.deleted = err dangling
loggers_of (AllLoggers.array ls) = ok ls

-- `Logger::getLogger`, with `Logger::Logger` and `Logger::addAppender`.
unfoldable pub get_logger : Bytes → LogLevel → Logging → Result (ℕ × Logging)
unfolding override loggers_of init
get_logger name level s = do
  (level', listener') ← override s.listener name level
  ls ← loggers_of s.all_loggers
  ok (
    length ls,
    record s {
      all_loggers =
          AllLoggers.array
            (ls ++ record { name = name; current_level = level'; appenders = 1 } ∷ []);
      listener = listener';
      output = init s.output;
    },
  )

-- The text that `Logger::log` prepares.
unfoldable pub log_line : ℤ → LogLevel → Bytes → Bytes → Bytes
unfolding get_log_level_str
log_line now level name message =
    print_int now
    ++ (codes " : "
        ++ (get_log_level_str level ++ (codes " : " ++ (name ++ (codes " : " ++ message)))))

-- The loop over the appenders.
unfoldable pub append_to : ℕ → Bytes → Output → Result Output
unfolding append
append_to zero line o = ok o
append_to (suc n) line o = do o' ← append line o; append_to n line o'

-- `Logger::log`: `char msgbuf[1024]`, all of which `_snprintf` may fill.
unfoldable pub log : ℤ → LogLevel → Bytes → Logger → Output → Result Output
unfolding log_line append_to
log now level message l o =
    if not (ltb 0 l.appenders)
    then ok o
    else if ltb (length (log_line now level l.name message)) 1024
    then append_to l.appenders (log_line now level l.name message) o
    else err unterminated

-- `isTraceEnabled` and the others of its kind
unfoldable pub is_enabled : LogLevel → Logger → Bool
is_enabled level l = leb (level_number l.current_level) (level_number level)

-- `trace`, `debug`, `info`, `warn`, `error` and `fatal`, of a logger.
unfoldable pub message_of : ℤ → LogLevel → Bytes → Logger → Output → Result Output
unfolding is_enabled log
message_of now level message l o = if is_enabled level l then log now level message l o else ok o

-- The logger behind a pointer.
unfoldable pub logger_at : ℕ → AllLoggers → Result Logger
logger_at i AllLoggers.null = err dangling
logger_at i AllLoggers.deleted = err dangling
logger_at i (AllLoggers.array ls) = or_error (get_elem? ls i) dangling

unfoldable pub message_at : ℤ → LogLevel → Bytes → ℕ → Logging → Result Logging
unfolding logger_at message_of
message_at now level message i s = do
  l ← logger_at i s.all_loggers
  o ← message_of now level message l s.output
  ok (record s { output = o })

abbrev pub is_deleted : AllLoggers → Bool
is_deleted AllLoggers.deleted = true
is_deleted _ = false

-- `delete allLoggers`, and before it every logger with its appenders. `Appender` has no virtual
-- destructor: `delete appender` does not run that of `RollingFileAppender`.
unfoldable pub delete_loggers : AllLoggers → AllLoggers
delete_loggers AllLoggers.null = AllLoggers.null
delete_loggers AllLoggers.deleted = AllLoggers.deleted
delete_loggers (AllLoggers.array ls) = AllLoggers.deleted

-- `Logger::CollectRemainingLoggers`. The pointer keeps its value.
unfoldable pub collect_remaining_loggers : Logging → Result Logging
unfolding delete_loggers cleanup
collect_remaining_loggers s = do
  guard (not (is_deleted s.all_loggers)) dangling
  o ← cleanup s.output
  ok (record s { all_loggers = delete_loggers s.all_loggers; output = o })
