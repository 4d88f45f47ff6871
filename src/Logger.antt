-- ===== src/Logger.antt =====
-- logger/logger.go: the level of the log, and which messages it writes. The output is the list of
-- the lines written so far.
pub mod Levels
mod Tests
use file_upload.Prelude.{ℕ, Bool, true, false, if◌then◌else◌, leb, List, [], ◌∷◌, ◌++◌, ◌==◌}
use file_upload.Prelude.Text.{Text, bytes, is_empty, to_upper, text_beq, text_eq}
use file_upload.Prelude.Int.{ℤ}
use file_upload.Prelude.Result.{Result, ok, err, ◌>>=◌, ◌>>◌}

-- `LogConfig`
pub record LogConfig : Type 0 where
  pub log_file : Text
  pub log_level : Text
  pub log_file_size : ℤ
  pub log_file_count : ℤ
  pub log_file_max_age : ℤ

pub data LogLevel : Type 0 where
  error warn info debug trace : LogLevel

unfoldable pub number : LogLevel → ℕ
number error = 1
number warn = 2
number info = 3
number debug = 4
number trace = 5

abbrev pub prefix_of : LogLevel → Text
prefix_of error = bytes "ERROR  "
prefix_of warn = bytes "WARN   "
prefix_of info = bytes "INFO   "
prefix_of debug = bytes "DEBUG  "
prefix_of trace = bytes "TRACE  "

-- Where the lines go.
pub data Output : Type 0 where
  standard_error : Output
  rotated_file : LogConfig → Output

pub record Log : Type 0 where
  pub output : Output
  pub component : Text
  pub level : LogLevel
  pub lines : List (LogLevel × Text)

-- The level that a setting names. `upper` is strings.ToUpper.
unfoldable pub level_of : (Text → Text) → Text → LogLevel
unfolding text_beq
level_of upper setting =
    let name = upper setting in
    if name == bytes "INFO"
    then info
    else if name == bytes "WARN"
    then warn
    else if name == bytes "DEBUG"
    then debug
    else if name == bytes "TRACE"
    then trace
    else error

abbrev log_to : (Text → Text) → LogConfig → Text → Output → Log
log_to upper cfg component output = record {
  output = output;
  component = bytes " " ++ (component ++ bytes " ");
  level = level_of upper cfg.log_level;
  lines = [];
}

-- `SetupLogger`. `make_dirs` is `os.MkdirAll` of the directory of a file.
unfoldable pub setup_logger :
    (Text → Text) → (Text → Result Text (Unit {0})) → LogConfig → Text → Result Text Log
unfolding level_of
setup_logger upper make_dirs cfg component =
    if is_empty cfg.log_file
    then ok (log_to upper cfg component standard_error)
    else (do make_dirs cfg.log_file; ok (log_to upper cfg component (rotated_file cfg)))

-- A line that `logger` prints with the prefix of a level; `text` is the value or message as fmt
-- writes it.
unfoldable pub print : LogLevel → Text → Log → Log
print level text log = record log { lines = log.lines ++ ((level, text) ∷ []) }

-- `Error`
unfoldable pub log_error : Text → Log → Log
unfolding number print
log_error text log = if leb (number error) (number log.level) then print error text log else log

-- `Errorf`
unfoldable pub log_errorf : Text → Log → Log
unfolding number print
log_errorf text log = if leb (number error) (number log.level) then print error text log else log

-- `Warn`
unfoldable pub log_warn : Text → Log → Log
unfolding number print
log_warn text log = if leb (number warn) (number log.level) then print warn text log else log

-- `Warnf`
unfoldable pub log_warnf : Text → Log → Log
unfolding number print
log_warnf text log = if leb (number warn) (number log.level) then print warn text log else log

-- `Info`
unfoldable pub log_info : Text → Log → Log
unfolding number print
log_info text log = if leb (number info) (number log.level) then print info text log else log

-- `Infof`
unfoldable pub log_infof : Text → Log → Log
unfolding number print
log_infof text log = if leb (number info) (number log.level) then print info text log else log

-- `IsDebugEnabled`
unfoldable pub is_debug_enabled : Log → Bool
unfolding number
is_debug_enabled log = leb (number debug) (number log.level)

-- `IsTraceEnabled`
unfoldable pub is_trace_enabled : Log → Bool
unfolding number
is_trace_enabled log = leb (number trace) (number log.level)

-- `Debug`
unfoldable pub log_debug : Text → Log → Log
unfolding is_debug_enabled print
log_debug text log = if is_debug_enabled log then print debug text log else log

-- `Debugf`
unfoldable pub log_debugf : Text → Log → Log
unfolding is_debug_enabled print
log_debugf text log = if is_debug_enabled log then print debug text log else log

-- `Trace`
unfoldable pub log_trace : Text → Log → Log
unfolding is_trace_enabled print
log_trace text log = if is_trace_enabled log then print trace text log else log

-- `Tracef`
unfoldable pub log_tracef : Text → Log → Log
unfolding is_trace_enabled print
log_tracef text log = if is_trace_enabled log then print trace text log else log
