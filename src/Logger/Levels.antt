-- ===== src/Logger/Levels.antt =====
-- logger/logger.go: what a log holds of the messages that it is given.
use file_upload.Prelude.{
  ◌≡◌, ◌≢◌, refl, ap, sym, ◌∙◌, if◌then◌else◌, leb, List, [], ◌∷◌, ◌++◌, append-nil, append_assoc,
  arith, Bool-cases, inl, inr, Bool, true, false,
}
use file_upload.Prelude.Text.{Text, bytes, text_beq_ne}
use file_upload.Prelude.Result.{Result, ok}
use file_upload.Logger.{
  LogConfig, LogLevel, error, warn, info, debug, trace, number, Log, level_of, setup_logger, print,
  log_error, log_errorf, log_warn, log_warnf, log_info, log_infof, log_debug, log_debugf, log_trace,
  log_tracef, is_debug_enabled, is_trace_enabled,
}

-- The functions that log a message.
pub data Function : Type 0 where
  plain formatted : LogLevel → Function

abbrev pub call : Function → Text → Log → Log
call (plain error) = log_error
call (formatted error) = log_errorf
call (plain warn) = log_warn
call (formatted warn) = log_warnf
call (plain info) = log_info
call (formatted info) = log_infof
call (plain debug) = log_debug
call (formatted debug) = log_debugf
call (plain trace) = log_trace
call (formatted trace) = log_tracef

abbrev pub call_all : List (Function × Text) → Log → Log
call_all [] log = log
call_all ((f, text) ∷ rest) log = call_all rest (call f text log)

abbrev pub level_of_call : Function → LogLevel
level_of_call (plain level) = level
level_of_call (formatted level) = level

-- Whether a log of the first level shows a message of the second.
abbrev pub shows : LogLevel → LogLevel → Bool
shows top error = true
shows error _ = false
shows top warn = true
shows warn _ = false
shows top info = true
shows info _ = false
shows top debug = true
shows debug _ = false
shows trace trace = true

-- The messages that a log of a level shows.
abbrev pub shown : LogLevel → List (Function × Text) → List (LogLevel × Text)
shown top [] = []
shown top ((f, text) ∷ rest) =
    if shows top (level_of_call f) then (level_of_call f, text) ∷ shown top rest else shown top rest

-- The level that a setting in upper case names.
abbrev pub Names : LogLevel → Text → Type 0
Names info name = name ≡ bytes "INFO"
Names warn name = name ≡ bytes "WARN"
Names debug name = name ≡ bytes "DEBUG"
Names trace name = name ≡ bytes "TRACE"
Names error name =
    (name ≢ bytes "INFO") × (name ≢ bytes "WARN") × (name ≢ bytes "DEBUG") × (name ≢ bytes "TRACE")

leb-shows : (top level : LogLevel) → leb (number level) (number top) ≡ shows top level
unfolding number
leb-shows error error = refl
leb-shows warn error = refl
leb-shows info error = refl
leb-shows debug error = refl
leb-shows trace error = refl
leb-shows error warn = refl
leb-shows error info = refl
leb-shows error debug = refl
leb-shows error trace = refl
leb-shows warn warn = refl
leb-shows warn info = refl
leb-shows warn debug = refl
leb-shows warn trace = refl
leb-shows info warn = refl
leb-shows info info = refl
leb-shows info debug = refl
leb-shows info trace = refl
leb-shows debug warn = refl
leb-shows debug info = refl
leb-shows debug debug = refl
leb-shows debug trace = refl
leb-shows trace warn = refl
leb-shows trace info = refl
leb-shows trace debug = refl
leb-shows trace trace = refl

print_if : LogLevel → Text → Log → Log
unfolding print
print_if level text log =
    if leb (number level) (number log.level) then print level text log else log

call-print_if :
    (f : Function) (text : Text) (log : Log) → call f text log ≡ print_if (level_of_call f) text log
unfolding print_if log_error log_errorf log_warn log_warnf log_info log_infof log_debug log_debugf
    log_trace log_tracef is_debug_enabled is_trace_enabled
call-print_if (plain error) text log = refl
call-print_if (formatted error) text log = refl
call-print_if (plain warn) text log = refl
call-print_if (formatted warn) text log = refl
call-print_if (plain info) text log = refl
call-print_if (formatted info) text log = refl
call-print_if (plain debug) text log = refl
call-print_if (formatted debug) text log = refl
call-print_if (plain trace) text log = refl
call-print_if (formatted trace) text log = refl

call_lem :
    (f : Function) (text : Text) (log : Log)
    → ((call f text log).level ≡ log.level)
      × ((call f text log).lines ≡ log.lines ++ shown log.level ((f, text) ∷ []))
unfolding print_if print
call_lem f text log =
    rw (call-print_if f text log) (elim (Bool-cases (shows log.level (level_of_call f))) [
      | inl e ↦ rw (leb-shows log.level (level_of_call f), e) (refl, refl)
      | inr e ↦ rw (leb-shows log.level (level_of_call f), e) (refl, sym (append-nil log.lines))
    ])

shown-cons :
    (top : LogLevel) (f : Function) (text : Text) (rest : List (Function × Text))
    → shown top ((f, text) ∷ rest) ≡ shown top ((f, text) ∷ []) ++ shown top rest
shown-cons top f text rest = elim (Bool-cases (shows top (level_of_call f))) [
  | inl e ↦ rw e refl
  | inr e ↦ rw e refl
]

lines-call_all :
    (messages : List (Function × Text)) (log : Log)
    → (call_all messages log).lines ≡ log.lines ++ shown log.level messages
lines-call_all [] log = sym (append-nil log.lines)
lines-call_all ((f, text) ∷ rest) log =
    let (same, one) = call_lem f text log in
    lines-call_all rest (call f text log)
    ∙ rw (same, one)
        (append_assoc log.lines (shown log.level ((f, text) ∷ [])) (shown log.level rest)
          ∙ ap (log.lines ++◌) (sym (shown-cons log.level f text rest)))

module _ (upper : Text → Text) where
  named_level :
      (top : LogLevel) (setting : Text) → Names top (upper setting) → level_of upper setting ≡ top
  unfolding level_of
  named_level info s h = rw h refl
  named_level warn s h = rw h refl
  named_level debug s h = rw h refl
  named_level trace s h = rw h refl
  named_level error s (a, b, c, d) =
      rw
        (
          text_beq_ne (upper s) (bytes "INFO") a,
          text_beq_ne (upper s) (bytes "WARN") b,
          text_beq_ne (upper s) (bytes "DEBUG") c,
          text_beq_ne (upper s) (bytes "TRACE") d,
        )
        refl

  level-setup_logger :
      (make_dirs : Text → Result Text (Unit {0})) (cfg : LogConfig) (component : Text) {log : Log}
      → setup_logger upper make_dirs cfg component ≡ ok log
      → (log.level ≡ level_of upper cfg.log_level) × (log.lines ≡ [])
  unfolding setup_logger
  level-setup_logger make_dirs cfg component h = ground arith

  -- A log that was set up holds, of the messages that it is given by any of the ten functions, those
  -- that its level shows, in their order; the level is the one that its setting names in any case of
  -- letters, and ERROR for a setting that names none.
  pub setup_logger-lines :
      (make_dirs : Text → Result Text (Unit {0})) (cfg : LogConfig) (component : Text) (log : Log)
      (messages : List (Function × Text)) (top : LogLevel)
      → setup_logger upper make_dirs cfg component ≡ ok log
      → Names top (upper cfg.log_level)
      → (call_all messages log).lines ≡ shown top messages
  setup_logger-lines make_dirs cfg component log messages top h n =
      let start = level-setup_logger make_dirs cfg component h in
      lines-call_all messages log ∙ rw (start.0, start.1, named_level top cfg.log_level n) refl
