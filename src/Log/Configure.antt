-- ===== src/Log/Configure.antt =====
-- How game_client/game_client/ROG.cpp configures the loggers, and `ROGInit` there.
--
-- `Reference_initialize` and the version check of protobuf are left out: they touch neither loggers nor
-- variables.
use easygametools.Base.{Bool, Option, some, List, [], ◌∷◌}
use easygametools.Base.Int.{ℤ}
use easygametools.Base.Text.{codes}
use easygametools.Base.Outcome.{Result, ok, err, null_pointer, dangling, ◌>>=◌}
use easygametools.Config.{Config}
use easygametools.Config.Loader.{Item, get_config_loader}
use easygametools.Log.{Output, Logger, AllLoggers, Logging, get_default_log_level, message_of}
use easygametools.Log.Levels.{LogLevel}

-- The body of the loop: the message is written by the level that the logger still has.
unfoldable pub configure_logger : ℤ → Logger → Config → Output → Result (Logger × Config × Output)
unfolding message_of get_default_log_level
configure_logger now l c o = do
  o' ← message_of now LogLevel.lvl_debug (codes "Configuring") l o
  (level, c') ← get_default_log_level l.name c
  ok (record l { current_level = level }, c', o')

-- The loop.
unfoldable pub configure_each :
    ℤ → List Logger → Config → Output → Result (List Logger × Config × Output)
unfolding configure_logger
configure_each now [] c o = ok ([], c, o)
configure_each now (l ∷ ls) c o = do
  (l', c', o') ← configure_logger now l c o
  (ls', c'', o'') ← configure_each now ls c' o'
  ok (l' ∷ ls', c'', o'')

-- `configureLoggers`, with `Logger::getAllLoggers`.
unfoldable pub configure_loggers :
    ℤ → AllLoggers → Config → Output → Result (AllLoggers × Config × Output)
unfolding configure_each
configure_loggers now AllLoggers.null c o = err null_pointer
configure_loggers now AllLoggers.deleted c o = err dangling
configure_loggers now (AllLoggers.array ls) c o = do
  (ls', c', o') ← configure_each now ls c o
  ok (AllLoggers.array ls', c', o')

-- `ROGInit`; `file` is what config.xml reads as, if it can be opened, and `loader` the instance of
-- `ConfigLoader`, if there is one.
unfoldable pub rog_init : ℤ → Bool → Option (List Item) → Option Config → Logging → Result Logging
unfolding get_config_loader configure_loggers
rog_init now warns file loader s = do
  c ← get_config_loader warns file loader
  (loggers, c', o) ← configure_loggers now s.all_loggers c s.output
  ok (record { all_loggers = loggers; listener = some c'; output = o })
