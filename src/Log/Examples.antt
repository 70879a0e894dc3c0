-- ===== src/Log/Examples.antt =====
-- Runs of the loggers.
use easygametools.Base.{◌≡◌, refl, inr, true, none, some, List, [], ◌∷◌, ◌⊎◌, map, arith}
use easygametools.Base.Int.{pos}
use easygametools.Base.Text.{codes}
use easygametools.Base.Decimal.{print_int}
use easygametools.Base.Outcome.{ok, err, null_pointer, Ensures}
use easygametools.Xml.{Node, is_blank}
use easygametools.Config.Document.{Line, document}
use easygametools.Log.{
  Logger, AllLoggers, Logging, get_logger, override, loggers_of, init, logger_at, log_line,
  collect_remaining_loggers,
}
use easygametools.Log.Levels.{LogLevel, get_log_level_str}
use easygametools.Log.Configure.{rog_init}
use easygametools.Log.Lines.{Message, messages, lines_of, add_lines, IsOver, close}
use easygametools.Log.Overrides.{configured, Overrides, rog_init-Overrides}
use easygametools.Log.Life.{
  Reachable, no_logging, Reachable-messages, Reachable-collect_remaining_loggers,
}

abbrev client_logger : Logger
client_logger = record {
  name = codes "GameClient";
  current_level = LogLevel.lvl_info;
  appenders = 1;
}

abbrev pub one_logger : Logging
one_logger = record {
  all_loggers = AllLoggers.array (client_logger ∷ []);
  listener = none;
  output = record {
    is_configured = true;
    output_file = some true;
    file_lines = [];
    console_lines = [];
  };
}

pub one_logger-Reachable : Reachable one_logger
unfolding get_logger override loggers_of init
one_logger-Reachable =
    Reachable.made (codes "GameClient") LogLevel.lvl_info 0 no_logging one_logger Reachable.start
      refl

abbrev levels : List Line
levels =
    Line.remark Node.comment
    ∷ Line.setting (codes "logLevel") (codes "WARN")
    ∷ Line.setting (codes "GameClient.logLevel") (codes "TRACE")
    ∷ []

abbrev two_messages : List Message
two_messages =
    record { now = pos 1300000000; level = LogLevel.lvl_debug; text = codes "packet" }
    ∷ record { now = pos 1300000001; level = LogLevel.lvl_error; text = codes "lost" }
    ∷ []

rog_init-Overrides_example :
    Ensures (rog_init (pos 1300000000) true (some (document levels)) none one_logger) (λ s'.
      (s'.all_loggers ≡ AllLoggers.array (map (configured levels) (client_logger ∷ [])))
      × Overrides levels s')
unfolding is_blank print_int
rog_init-Overrides_example =
    rog_init-Overrides (pos 1300000000) true levels (client_logger ∷ []) one_logger (omega arith)
      (refl, ((refl, refl), ((refl, refl), tt))) refl (omega arith, tt) (inr (true, refl))

Reachable-messages_example :
    messages 0 two_messages one_logger
    ≡ ok (record one_logger {
      output = add_lines (lines_of client_logger two_messages) one_logger.output;
    })
unfolding logger_at log_line get_log_level_str print_int
Reachable-messages_example =
    Reachable-messages one_logger 0 client_logger two_messages one_logger-Reachable refl
      (omega arith, (omega arith, tt))

Reachable-collect_remaining_loggers_example :
    ((one_logger.all_loggers ≡ AllLoggers.null)
      × (collect_remaining_loggers one_logger ≡ err null_pointer))
    ⊎ Ensures
        (collect_remaining_loggers one_logger)
        (λ s'. (s'.output ≡ close one_logger.output) × IsOver s')
Reachable-collect_remaining_loggers_example =
    Reachable-collect_remaining_loggers one_logger one_logger-Reachable
