-- ===== src/Log/Lines.antt =====
-- What the loggers of game_client/game_client/Logger.cpp write, and what is left of them at the end.
use mathlib.Core.List.{append-nil, append_assoc}
use easygametools.Base.{
  ℕ, ◌<◌, ◌≡◌, refl, ap, sym, ◌∙◌, inl, inr, Bool, true, false, none, some, List, [], ◌∷◌, ◌++◌,
  length, All, if◌then◌else◌, lt→ltb, Bool-cases,
}
use easygametools.Base.Int.{ℤ}
use easygametools.Base.Text.{Bytes}
use easygametools.Base.Outcome.{Result, ok, err, dangling, null_pointer, ◌>>=◌, Ensures}
use easygametools.Log.{
  Output, write_line, append, cleanup, Logger, AllLoggers, Logging, get_logger, log_line, append_to,
  log, is_enabled, message_of, logger_at, message_at, override, loggers_of, close_file,
  delete_loggers, collect_remaining_loggers,
}
use easygametools.Log.Levels.{LogLevel}

-- rog.log is open.
abbrev pub IsOpen : Output → Type 0
IsOpen o = (o.is_configured ≡ true) × (o.output_file ≡ some true)

abbrev pub add_lines : List Bytes → Output → Output
add_lines lines o = record o {
  file_lines = o.file_lines ++ lines;
  console_lines = o.console_lines ++ lines;
}

-- A call: the seconds of its time, the level of its name and the text.
pub record Message : Type 0 where
  pub now : ℤ
  pub level : LogLevel
  pub text : Bytes

abbrev pub line_of : Logger → Message → Bytes
line_of l m = log_line m.now m.level l.name m.text

-- The lines for the messages that the level lets through.
abbrev pub lines_of : Logger → List Message → List Bytes
lines_of l [] = []
lines_of l (m ∷ ms) = (if is_enabled m.level l then line_of l m ∷ [] else []) ++ lines_of l ms

-- Messages to one logger.
abbrev pub messages : ℕ → List Message → Logging → Result Logging
messages i [] s = ok s
messages i (m ∷ ms) s = message_at m.now m.level m.text i s >>= messages i ms

-- A logger with its appender, and a message whose text fits into `msgbuf` with the closing NUL.
abbrev pub Fits : Logger → Message → Type 0
Fits l m = length (line_of l m) < 1024

append-open : (line : Bytes) (o : Output) → IsOpen o → append line o ≡ ok (add_lines (line ∷ []) o)
unfolding append write_line
append-open line o h = rw (h.0, h.1) refl

log-open :
    (m : Message) (l : Logger) (o : Output)
    → l.appenders ≡ 1
    → Fits l m
    → IsOpen o
    → log m.now m.level m.text l o ≡ ok (add_lines (line_of l m ∷ []) o)
unfolding log append_to
log-open m l o one fits h =
    rw (one, lt→ltb (length (line_of l m)) 1024 fits, append-open (line_of l m) o h) refl

add_lines-append :
    (ls ms : List Bytes) (o : Output) → add_lines ms (add_lines ls o) ≡ add_lines (ls ++ ms) o
add_lines-append ls ms o =
    rw (append_assoc o.file_lines ls ms, append_assoc o.console_lines ls ms) refl

add_lines-nil : (o : Output) → add_lines [] o ≡ o
add_lines-nil o = rw (append-nil o.file_lines, append-nil o.console_lines) refl

message_of-line :
    (m : Message) (l : Logger) (o : Output)
    → l.appenders ≡ 1
    → Fits l m
    → IsOpen o
    → message_of m.now m.level m.text l o
      ≡ ok (add_lines (if is_enabled m.level l then line_of l m ∷ [] else []) o)
unfolding message_of
message_of-line m l o one fits h = elim (Bool-cases (is_enabled m.level l)) [
  | inl e ↦ rw e (log-open m l o one fits h)
  | inr e ↦ rw e (ap ok (sym (add_lines-nil o)))
]

pub messages-lines :
    (i : ℕ) (l : Logger) (ms : List Message) (s : Logging)
    → logger_at i s.all_loggers ≡ ok l
    → l.appenders ≡ 1
    → All (Fits l) ms
    → IsOpen s.output
    → messages i ms s ≡ ok (record s { output = add_lines (lines_of l ms) s.output })
unfolding message_at
messages-lines i l [] s live one fits h =
    ap (λ o. ok (record s { output = o })) (sym (add_lines-nil s.output))
messages-lines i l (m ∷ ms) s live one fits h =
    let first = if is_enabled m.level l then line_of l m ∷ [] else [] in
    rw (live, message_of-line m l s.output one fits.0 h)
      (messages-lines i l ms (record s { output = add_lines first s.output }) live one fits.1 h
        ∙ ap (λ o. ok (record s { output = o })) (add_lines-append first (lines_of l ms) s.output))

-- No logger is left to be used.
abbrev pub IsOver : Logging → Type 0
IsOver s =
    (s.all_loggers ≡ AllLoggers.deleted)
    × ((now : ℤ) (level : LogLevel) (message : Bytes) (i : ℕ)
        → message_at now level message i s ≡ err dangling)
    × ((name : Bytes) (level : LogLevel)
        → s.listener ≡ none
        → get_logger name level s ≡ err dangling)
    × (collect_remaining_loggers s ≡ err dangling)

deleted-IsOver : (s : Logging) → s.all_loggers ≡ AllLoggers.deleted → IsOver s
unfolding message_at logger_at get_logger override loggers_of collect_remaining_loggers
deleted-IsOver s h = (
  h,
  λ now level message i. rw h refl,
  λ name level none_there. rw (none_there, h) refl,
  rw h refl,
)

-- rog.log is closed with the lines that it has.
abbrev pub close : Output → Output
close o = record o { output_file = some false }

pub collect_remaining_loggers-IsOver :
    (ls : List Logger) (open_file : Bool) (s : Logging)
    → s.all_loggers ≡ AllLoggers.array ls
    → s.output.output_file ≡ some open_file
    → Ensures (collect_remaining_loggers s) (λ s'. (s'.output ≡ close s.output) × IsOver s')
unfolding collect_remaining_loggers cleanup close_file delete_loggers
collect_remaining_loggers-IsOver ls open_file s h file = rw (h, file) (refl, deleted-IsOver _ refl)

pub collect_remaining_loggers-none :
    (s : Logging)
    → s.all_loggers ≡ AllLoggers.null
    → s.output.output_file ≡ none
    → collect_remaining_loggers s ≡ err null_pointer
unfolding collect_remaining_loggers cleanup close_file
collect_remaining_loggers-none s h file = rw (h, file) refl
