-- ===== src/Logger/Tests.antt =====
-- logger/logger.go: a log of level `WARN` in a file.
use file_upload.Prelude.{◌≡◌, refl, List, [], ◌∷◌}
use file_upload.Prelude.Text.{Text, bytes, to_upper}
use file_upload.Prelude.Int.{pos}
use file_upload.Prelude.Result.{Result, ok}
use file_upload.Logger.{LogConfig, warn, debug, error, Log, rotated_file, level_of, setup_logger}
use file_upload.Logger.Levels.{Function, plain, formatted, call_all, Names, setup_logger-lines}

abbrev config : LogConfig
config = record {
  log_file = bytes "log/log.txt";
  log_level = bytes "warn";
  log_file_size = pos 2;
  log_file_count = pos 5;
  log_file_max_age = pos 28;
}

abbrev log : Log
log = record {
  output = rotated_file config;
  component = bytes " [file-upload] ";
  level = warn;
  lines = [];
}

abbrev messages : List (Function × Text)
messages =
    (plain debug, bytes "tick")
    ∷ (formatted error, bytes "no access")
    ∷ (plain warn, bytes "late")
    ∷ []

abbrev make_dirs : Text → Result Text (Unit {0})
make_dirs path = ok tt

config-Names : Names warn (to_upper config.log_level)
unfolding to_upper
config-Names = refl

setup_logger-lines_example :
    (call_all messages log).lines ≡ (error, bytes "no access") ∷ (warn, bytes "late") ∷ []
unfolding setup_logger level_of to_upper
setup_logger-lines_example =
    setup_logger-lines to_upper make_dirs config (bytes "[file-upload]") log messages warn refl
      config-Names
