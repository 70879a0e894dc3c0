-- ===== src/Log/Overrides.antt =====
-- The levels that config.xml gives the loggers, by `LogConfigurator` and `ROGInit` of
-- game_client/game_client/ROG.cpp.
use easygametools.Base.{
  ℕ, zero, suc, ◌<◌, ◌≡◌, refl, ap, ◌∙◌, ◌⊎◌, inl, inr, Bool, false, none, some, List, [], ◌∷◌,
  ◌++◌, map, arith, length, ltb, All, get_elem?, lt→ltb, Bool-cases, Option-cases, length-append,
}
use easygametools.Base.Int.{ℤ}
use easygametools.Base.Text.{Bytes, codes}
use easygametools.Base.Decimal.{print_int}
use easygametools.Base.Outcome.{ok, Ensures, Ensures-bind, Ensures-eq}
use easygametools.Config.{Config, get, get-get}
use easygametools.Base.Table.{lookup}
use easygametools.Config.Loader.{load_xml_reader, get_config_loader}
use easygametools.Config.Document.{Line, AreLines, document, last_value, load-document}
use easygametools.Log.{
  Output, append, write_line, Logger, AllLoggers, Logging, level_key, level_or,
  get_default_log_level, get_logger, override, loggers_of, log_line, append_to, log, is_enabled,
  message_of, logger_at,
}
use easygametools.Log.Levels.{LogLevel, get_log_level_str}
use easygametools.Log.Configure.{configure_logger, configure_each, configure_loggers, rog_init}

-- The variables are those of the document.
abbrev pub Reads : List Line → Config → Type 0
Reads ls c = (name : Bytes) → (get name c).0 ≡ last_value name ls none

-- `nameBuf` holds the name of the variable with its closing NUL.
abbrev pub IsShort : Bytes → Type 0
IsShort name = length (name ++ codes ".logLevel") < 254

-- The level of a logger by the document: that of its own variable, else the general one, else INFO.
abbrev pub level_in : Bytes → List Line → LogLevel
level_in name ls =
    level_or (last_value (name ++ codes ".logLevel") ls none)
      (level_or (last_value (codes "logLevel") ls none) LogLevel.lvl_info)

Reads-get : (ls : List Line) (c : Config) (key : Bytes) → Reads ls c → Reads ls (get key c).1
Reads-get ls c key h = λ name. get-get name key c ∙ h name

get_default_log_level-Reads :
    (ls : List Line) (name : Bytes) (c : Config)
    → IsShort name
    → Reads ls c
    → Ensures
        (get_default_log_level name c)
        (λ (level, c'). (level ≡ level_in name ls) × Reads ls c')
unfolding get_default_log_level level_key level_or
get_default_log_level-Reads ls name c short h =
    let key = name ++ codes ".logLevel" in
    let fits = lt→ltb (length key) 254 short in
    let own = Reads-get ls c key h in
    elim (Option-cases (last_value key ls none)) [
      | inl e ↦
          rw (fits, h key ∙ e, e)
            (
              ap (λ general. level_or general LogLevel.lvl_info) (own (codes "logLevel")),
              Reads-get ls _ (codes "logLevel") own,
            )
      | inr (value, e) ↦ rw (fits, h key ∙ e, e) (refl, own)
    ]

-- The seconds as `getDateForLog` prints them, in `new char[25]`.
abbrev pub IsTime : ℤ → Type 0
IsTime now = length (print_int now) < 25

-- rog.log has been opened, or no line is written.
abbrev pub CanWrite : Output → Type 0
CanWrite o = (o.is_configured ≡ false) ⊎ ((open_file : Bool) × (o.output_file ≡ some open_file))

append-CanWrite : (line : Bytes) (o : Output) → CanWrite o → Ensures (append line o) CanWrite
unfolding append write_line
append-CanWrite line o (inl e) = rw e (inl refl)
append-CanWrite line o (inr (b, e)) = elim (Bool-cases o.is_configured) [
  | inl h ↦ rw (h, e) (inr (b, refl))
  | inr h ↦ rw h (inl refl)
]

append_to-CanWrite :
    (n : ℕ) (line : Bytes) (o : Output) → CanWrite o → Ensures (append_to n line o) CanWrite
unfolding append_to
append_to-CanWrite zero line o h = h
append_to-CanWrite (suc n) line o h =
    Ensures-bind (append line o) (append_to n line) CanWrite CanWrite (append-CanWrite line o h)
      (append_to-CanWrite n line)

pub message_of-CanWrite :
    (now : ℤ) (level : LogLevel) (message : Bytes) (l : Logger) (o : Output)
    → length (log_line now level l.name message) < 1024
    → CanWrite o
    → Ensures (message_of now level message l o) CanWrite
unfolding message_of log
message_of-CanWrite now level message l o fits h =
    let line = log_line now level l.name message in
    let fits' = lt→ltb (length line) 1024 fits in
    let written = append_to-CanWrite l.appenders line o h in
    elim (Bool-cases (is_enabled level l)) [
      | inr e ↦ rw e h
      | inl e ↦ elim (Bool-cases (ltb 0 l.appenders)) [
        | inl e' ↦ rw (e, e', fits') written
        | inr e' ↦ rw (e, e') h
      ]
    ]

configuring_length :
    (now : ℤ) (name : Bytes)
    → IsShort name
    → IsTime now
    → length (log_line now LogLevel.lvl_debug name (codes "Configuring")) < 1024
unfolding log_line get_log_level_str
configuring_length now name short time =
    rw
      (
        length-append (print_int now) (codes " : DEBUG : " ++ (name ++ codes " : Configuring")),
        length-append name (codes " : Configuring"),
      )
      (omega (arith, short, time, length-append name (codes ".logLevel")))

abbrev pub configured : List Line → Logger → Logger
configured ls l = record l { current_level = level_in l.name ls }

configure_logger-configured :
    (ls : List Line) (now : ℤ) (l : Logger) (c : Config) (o : Output)
    → IsShort l.name
    → IsTime now
    → Reads ls c
    → CanWrite o
    → Ensures
        (configure_logger now l c o)
        (λ (l', c', o'). (l' ≡ configured ls l) × Reads ls c' × CanWrite o')
unfolding configure_logger
configure_logger-configured ls now l c o short time reads h =
    Ensures-bind (message_of now LogLevel.lvl_debug (codes "Configuring") l o) _ CanWrite _
      (message_of-CanWrite now LogLevel.lvl_debug (codes "Configuring") l o
        (configuring_length now l.name short time) h)
      (λ o' h'.
        Ensures-bind (get_default_log_level l.name c) _
          (λ (level, c'). (level ≡ level_in l.name ls) × Reads ls c') _
          (get_default_log_level-Reads ls l.name c short reads)
          (λ (level, c') (e, reads'). (ap (λ v. record l { current_level = v }) e, reads', h')))

abbrev pub AreShort : List Logger → Type 0
AreShort = All (λ l. IsShort l.name)

configure_each-configured :
    (ls : List Line) (now : ℤ) (loggers : List Logger) (c : Config) (o : Output)
    → AreShort loggers
    → IsTime now
    → Reads ls c
    → CanWrite o
    → Ensures
        (configure_each now loggers c o)
        (λ (loggers', c', o'). (loggers' ≡ map (configured ls) loggers) × Reads ls c' × CanWrite o')
unfolding configure_each
configure_each-configured ls now [] c o short time reads h = (refl, reads, h)
configure_each-configured ls now (l ∷ loggers) c o short time reads h =
    Ensures-bind (configure_logger now l c o) _
      (λ (l', c', o'). (l' ≡ configured ls l) × Reads ls c' × CanWrite o') _
      (configure_logger-configured ls now l c o short.0 time reads h)
      (λ (l', c', o') (e, reads', h').
        Ensures-bind (configure_each now loggers c' o') _
          (λ (loggers', c'', o'').
            (loggers' ≡ map (configured ls) loggers) × Reads ls c'' × CanWrite o'')
          _ (configure_each-configured ls now loggers c' o' short.1 time reads' h')
          (λ (loggers', c'', o'') (e', reads'', h''). (rw (e, e') refl, reads'', h'')))

-- A new logger has the level that the document gives it, whatever level the call asks for.
abbrev pub Overrides : List Line → Logging → Type 0
Overrides ls s =
    (name : Bytes) (level : LogLevel)
    → IsShort name
    → Ensures (get_logger name level s) (λ (i, s').
      logger_at i s'.all_loggers
      ≡ ok (record { name = name; current_level = level_in name ls; appenders = 1 }))

get_elem?-last {ℓ} :
    {A : Type ℓ} (xs : List A) (a : A) → get_elem? (xs ++ a ∷ []) (length xs) ≡ some a
get_elem?-last [] a = refl
get_elem?-last (x ∷ xs) a = get_elem?-last xs a

Reads-Overrides :
    (ls : List Line) (loggers : List Logger) (c : Config) (o : Output)
    → Reads ls c
    → Overrides ls
        (record { all_loggers = AllLoggers.array loggers; listener = some c; output = o })
unfolding get_logger override loggers_of logger_at
Reads-Overrides ls loggers c o h name level short =
    let (found, done, (e, rest)) =
      Ensures-eq (get_default_log_level name c) _ (get_default_log_level-Reads ls name c short h) in
    rw
      (
        done,
        get_elem?-last loggers (record { name = name; current_level = found.0; appenders = 1 }),
      )
      (ap (λ v. ok (record { name = name; current_level = v; appenders = 1 })) e)

-- ROGInit, with loggers whose names are short and a config.xml that has a line for each variable,
-- returns; each logger then has the level of its own variable, else the general one, else INFO, and so
-- has each logger of a short name that is made next, whatever level it asks for.
pub rog_init-Overrides :
    (now : ℤ) (warns : Bool) (ls : List Line) (loggers : List Logger) (s : Logging)
    → IsTime now
    → AreLines ls
    → s.all_loggers ≡ AllLoggers.array loggers
    → AreShort loggers
    → CanWrite s.output
    → Ensures
        (rog_init now warns (some (document ls)) none s)
        (λ s'. (s'.all_loggers ≡ AllLoggers.array (map (configured ls) loggers)) × Overrides ls s')
unfolding rog_init get_config_loader configure_loggers get lookup
rog_init-Overrides now warns ls loggers s time lines there short h = rw there (
    Ensures-bind (load_xml_reader warns (document ls) []) _ (Reads ls) _
      (load-document warns ls [] lines)
      (λ c reads.
        let ((loggers', c', o'), done, (e, reads', rest)) =
          Ensures-eq (configure_each now loggers c s.output) _
            (configure_each-configured ls now loggers c s.output short time reads h) in
        rw (done, e) (refl, Reads-Overrides ls _ c' o' reads')))
