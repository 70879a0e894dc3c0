-- ===== src/Log/Standing.antt =====
-- What the calls of game_client/game_client/Logger.cpp keep of the loggers and of their file.
use easygametools.Base.{
  ℕ, zero, suc, ◌≡◌, refl, ◌∙◌, ◌⊎◌, inl, inr, Bool, false, Option, none, some, List, [], ◌∷◌, All,
  All-append, not, ltb, length,
}
use easygametools.Base.Int.{ℤ}
use easygametools.Base.Text.{Bytes, codes}
use easygametools.Base.Outcome.{
  ok, err, unterminated, ◌>>=◌, IfOk, IfOk-bind, IfOk-all, IfOk-if, IfOk-weaken,
}
use easygametools.Config.{Config}
use easygametools.Config.Loader.{Item, get_config_loader}
use easygametools.Log.{
  Output, init, write_line, append, Logger, AllLoggers, Logging, override, loggers_of, get_logger,
  append_to, log, log_line, is_enabled, message_of, logger_at, message_at, get_default_log_level,
}
use easygametools.Log.Levels.{LogLevel}
use easygametools.Log.Configure.{configure_logger, configure_each, configure_loggers, rog_init}
use easygametools.Log.Lines.{IsOpen, Message}

-- The file as it was.
abbrev SameFile : Output → Output → Type 0
SameFile o o' = (o'.is_configured ≡ o.is_configured) × (o'.output_file ≡ o.output_file)

append-SameFile : (line : Bytes) (o : Output) → IfOk (append line o) (SameFile o)
unfolding append write_line
append-SameFile line o =
    IfOk-if o.is_configured (write_line o.output_file line o) (ok o) (SameFile o)
      (written o.output_file) (refl, refl)
  where
    written : (f : Option Bool) → IfOk (write_line f line o) (SameFile o)
    written none = tt
    written (some b) = (refl, refl)

append_to-SameFile : (n : ℕ) (line : Bytes) (o : Output) → IfOk (append_to n line o) (SameFile o)
unfolding append_to
append_to-SameFile zero line o = (refl, refl)
append_to-SameFile (suc n) line o =
    IfOk-bind (append line o) (append_to n line) (SameFile o) (SameFile o) (append-SameFile line o)
      (λ o' same.
        IfOk-weaken (append_to n line o') (SameFile o') (SameFile o) (append_to-SameFile n line o')
          (λ o'' same'. (same'.0 ∙ same.0, same'.1 ∙ same.1)))

message_of-SameFile :
    (now : ℤ) (level : LogLevel) (message : Bytes) (l : Logger) (o : Output)
    → IfOk (message_of now level message l o) (SameFile o)
unfolding message_of log
message_of-SameFile now level message l o =
    let line = log_line now level l.name message in
    IfOk-if (is_enabled level l) _ (ok o) (SameFile o)
      (IfOk-if (not (ltb 0 l.appenders)) (ok o) _ (SameFile o) (refl, refl)
        (IfOk-if (ltb (length line) 1024) _ (err unterminated) (SameFile o)
          (append_to-SameFile l.appenders line o) tt))
      (refl, refl)

abbrev pub HasOne : Logger → Type 0
HasOne l = l.appenders ≡ 1

configure_each-HasOne :
    (now : ℤ) (ls : List Logger) (c : Config) (o : Output)
    → All HasOne ls
    → IfOk (configure_each now ls c o) (λ (ls', c', o'). All HasOne ls' × SameFile o o')
unfolding configure_each configure_logger
configure_each-HasOne now [] c o h = (tt, (refl, refl))
configure_each-HasOne now (l ∷ ls) c o h =
    IfOk-bind (configure_logger now l c o) _ (λ (l', c', o'). HasOne l' × SameFile o o') _
      (IfOk-bind (message_of now LogLevel.lvl_debug (codes "Configuring") l o) _ (SameFile o) _
        (message_of-SameFile now LogLevel.lvl_debug (codes "Configuring") l o)
        (λ o' same.
          IfOk-bind (get_default_log_level l.name c) _ (λ r. Unit) _
            (IfOk-all (get_default_log_level l.name c) (λ r. Unit) (λ r. tt))
            (λ (level, c') tt. (h.0, same))))
      (λ (l', c', o') (one, same).
        IfOk-bind (configure_each now ls c' o') _
          (λ (ls', c'', o''). All HasOne ls' × SameFile o' o'') _
          (configure_each-HasOne now ls c' o' h.1)
          (λ (ls', c'', o'') (ones, same'). ((one, ones), (same'.0 ∙ same.0, same'.1 ∙ same.1))))

-- No logger and no file, or loggers with an appender each and an open file.
abbrev pub Standing : Logging → Type 0
Standing s =
    ((s.all_loggers ≡ AllLoggers.null)
      × ((s.output.is_configured ≡ false) × (s.output.output_file ≡ none)))
    ⊎ ((ls : List Logger) × (s.all_loggers ≡ AllLoggers.array ls) × All HasOne ls × IsOpen s.output)

pub get_logger-Standing :
    (name : Bytes) (level : LogLevel) (s : Logging)
    → Standing s
    → IfOk (get_logger name level s) (λ (i, s'). Standing s')
unfolding get_logger loggers_of init
get_logger-Standing name level s h =
    IfOk-bind (override s.listener name level) _ (λ r. Unit) _ (IfOk-all _ (λ r. Unit) (λ r. tt))
      (λ (level', listener') tt. elim h [
        | inl (none_there, file) ↦ rw (none_there, file.0) (inr (_, refl, (refl, tt), (refl, refl)))
        | inr (ls, there, ones, file) ↦
            rw (there, file.0)
              (inr (_, refl, All-append HasOne ls _ ones (refl, tt), (refl, file.1)))
      ])

Standing-same :
    (s : Logging) (o : Output)
    → Standing s
    → SameFile s.output o
    → Standing (record s { output = o })
Standing-same s o (inl (none_there, file)) same =
    inl (none_there, (same.0 ∙ file.0, same.1 ∙ file.1))
Standing-same s o (inr (ls, there, ones, file)) same =
    inr (ls, there, ones, (same.0 ∙ file.0, same.1 ∙ file.1))

pub message_at-Standing :
    (m : Message) (i : ℕ) (s : Logging)
    → Standing s
    → IfOk (message_at m.now m.level m.text i s) Standing
unfolding message_at
message_at-Standing m i s h =
    IfOk-bind (logger_at i s.all_loggers) _ (λ l. Unit) Standing (IfOk-all _ (λ l. Unit) (λ l. tt))
      (λ l tt.
        IfOk-bind (message_of m.now m.level m.text l s.output) _ (SameFile s.output) Standing
          (message_of-SameFile m.now m.level m.text l s.output)
          (λ o same. Standing-same s o h same))

pub rog_init-Standing :
    (now : ℤ) (warns : Bool) (file : Option (List Item)) (loader : Option Config) (s : Logging)
    → Standing s
    → IfOk (rog_init now warns file loader s) Standing
unfolding rog_init configure_loggers
rog_init-Standing now warns file loader s h =
    IfOk-bind (get_config_loader warns file loader) _ (λ c. Unit) Standing
      (IfOk-all _ (λ c. Unit) (λ c. tt))
      (λ c tt. elim h [
        | inl (none_there, file) ↦ rw none_there tt
        | inr (ls, there, ones, file) ↦ rw there (
            IfOk-bind (configure_each now ls c s.output >>= _) _
              (λ (loggers, c', o).
                (ls' : List Logger) × (loggers ≡ AllLoggers.array ls')
                × All HasOne ls'
                × SameFile s.output o)
              Standing
              (IfOk-bind (configure_each now ls c s.output) _
                (λ (ls', c', o). All HasOne ls' × SameFile s.output o) _
                (configure_each-HasOne now ls c s.output ones)
                (λ (ls', c', o) (ones', same). (ls', refl, ones', same)))
              (λ (loggers, c', o) (ls', e, ones', same).
                inr (ls', e, ones', (same.0 ∙ file.0, same.1 ∙ file.1))))
      ])
