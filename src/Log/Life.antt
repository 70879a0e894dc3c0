-- ===== src/Log/Life.antt =====
-- The loggers of game_client/game_client/Logger.cpp from the start of the program to
-- `CollectRemainingLoggers`, whatever is done with them.
use easygametools.Base.{
  ℕ, zero, suc, ◌≡◌, ◌≢◌, refl, ◌⊎◌, inl, inr, Bool, true, false, Option, none, List, [], ◌∷◌, All,
  get_elem?,
}
use easygametools.Base.Int.{ℤ}
use easygametools.Base.Text.{Bytes}
use easygametools.Base.Outcome.{ok, err, null_pointer, dangling, or_error, Ensures, IfOk, IfOk-ok}
use easygametools.Config.{Config}
use easygametools.Config.Loader.{Item}
use easygametools.Log.{
  Logger, AllLoggers, Logging, get_logger, logger_at, message_at, collect_remaining_loggers,
}
use easygametools.Log.Levels.{LogLevel}
use easygametools.Log.Configure.{rog_init}
use easygametools.Log.Lines.{
  Message, Fits, messages, lines_of, add_lines, messages-lines, IsOver, close,
  collect_remaining_loggers-IsOver, collect_remaining_loggers-none,
}
use easygametools.Log.Standing.{
  HasOne, Standing, get_logger-Standing, message_at-Standing, rog_init-Standing,
}

-- The static members before `main`.
abbrev pub no_logging : Logging
no_logging = record {
  all_loggers = AllLoggers.null;
  listener = none;
  output = record {
    is_configured = false;
    output_file = none;
    file_lines = [];
    console_lines = [];
  };
}

-- What calls that return lead to.
pub data Reachable : Logging → Type 0 where
  start : Reachable no_logging
  made :
      (name : Bytes) (level : LogLevel) (i : ℕ) (s s' : Logging)
      → Reachable s
      → get_logger name level s ≡ ok (i, s')
      → Reachable s'
  said :
      (m : Message) (i : ℕ) (s s' : Logging)
      → Reachable s
      → message_at m.now m.level m.text i s ≡ ok s'
      → Reachable s'
  set_up :
      (now : ℤ) (warns : Bool) (file : Option (List Item)) (loader : Option Config) (s s' : Logging)
      → Reachable s
      → rog_init now warns file loader s ≡ ok s'
      → Reachable s'

Reachable-Standing : (s : Logging) → Reachable s → Standing s
Reachable-Standing _ Reachable.start = inl (refl, (refl, refl))
Reachable-Standing _ (Reachable.made name level i before after r e) =
    IfOk-ok _ (λ (i, s'). Standing s') e
      (get_logger-Standing name level before (Reachable-Standing before r))
Reachable-Standing _ (Reachable.said m i before after r e) =
    IfOk-ok _ Standing e (message_at-Standing m i before (Reachable-Standing before r))
Reachable-Standing _ (Reachable.set_up now warns file loader before after r e) =
    IfOk-ok _ Standing e
      (rog_init-Standing now warns file loader before (Reachable-Standing before r))

pub Reachable-collect_remaining_loggers :
    (s : Logging)
    → Reachable s
    → ((s.all_loggers ≡ AllLoggers.null) × (collect_remaining_loggers s ≡ err null_pointer))
      ⊎ Ensures (collect_remaining_loggers s) (λ s'. (s'.output ≡ close s.output) × IsOver s')
Reachable-collect_remaining_loggers s r = elim (Reachable-Standing s r) [
  | inl (none_there, file) ↦ inl (none_there, collect_remaining_loggers-none s none_there file.1)
  | inr (ls, there, ones, file) ↦ inr (collect_remaining_loggers-IsOver ls true s there file.1)
]

get_elem?-HasOne :
    (ls : List Logger) (i : ℕ) → All HasOne ls → IfOk (or_error (get_elem? ls i) dangling) HasOne
get_elem?-HasOne [] i h = tt
get_elem?-HasOne (l ∷ ls) zero h = h.0
get_elem?-HasOne (l ∷ ls) (suc i) h = get_elem?-HasOne ls i h.1

logger_at-null : (i : ℕ) (l : Logger) → logger_at i AllLoggers.null ≢ ok l
unfolding logger_at
logger_at-null i l e = absurd cc

logger_at-HasOne :
    (ls : List Logger) (i : ℕ) → All HasOne ls → IfOk (logger_at i (AllLoggers.array ls)) HasOne
unfolding logger_at
logger_at-HasOne = get_elem?-HasOne

-- In every state that makings of loggers, messages and ROGInit lead to, messages to a logger that fit
-- into 1023 bytes all succeed, and rog.log and the console get the lines of those that the level lets
-- through, in their order and once each, and nothing else.
pub Reachable-messages :
    (s : Logging) (i : ℕ) (l : Logger) (ms : List Message)
    → Reachable s
    → logger_at i s.all_loggers ≡ ok l
    → All (Fits l) ms
    → messages i ms s ≡ ok (record s { output = add_lines (lines_of l ms) s.output })
Reachable-messages s i l ms r live fits = elim (Reachable-Standing s r) [
  | inl (none_there, file) ↦ absurd (logger_at-null i l (rw none_there at live))
  | inr (ls, there, ones, file) ↦
      messages-lines i l ms s live
        (IfOk-ok _ HasOne (rw there at live) (logger_at-HasOne ls i ones)) fits file
]
