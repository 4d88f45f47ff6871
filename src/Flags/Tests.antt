-- ===== src/Flags/Tests.antt =====
-- flagparse/flags.go: a command line and a file for two of the fields, and a configuration that is
-- accepted.
use file_upload.Prelude.{arith, ◌≡◌, ◌↔◌, refl, true, false, none, some, List, [], ◌∷◌}
use file_upload.Prelude.Text.{Text, bytes}
use file_upload.Prelude.Dict.{Dict, IsMap, lookup}
use file_upload.Prelude.Int.{pos}
use file_upload.Prelude.Result.{Result, ok}
use file_upload.Mode.{strict}
use file_upload.Uploadable.Config.Validity.{active_with}
use file_upload.Flags.FieldNames.{
  has_suffix, IsFieldName, to_field_name, to_flag_name, to_field_name-to_flag_name,
}
use file_upload.Flags.Values.{Value, text, string_kind}
use file_upload.Flags.{
  Fields, end, leaf, struct, FlagVar, JsonFile, loaded, CommandLine, parse_flags, has_field,
}
use file_upload.Flags.Precedence.{
  AllFlagNames, or_else, default_of, file_values, parse_flags-precedence,
}
use file_upload.Flags.UploadConfig.{UploadConfig, validate}
use file_upload.Flags.UploadConfig.Acceptance.{IsAcceptable, validate_config-ok_iff}

to_field_name-to_flag_name_example :
    to_field_name (to_flag_name (bytes "FeatureID")) ≡ bytes "FeatureID"
unfolding to_field_name to_flag_name has_suffix
to_field_name-to_flag_name_example =
    to_field_name-to_flag_name (bytes "FeatureID") (refl, omega arith, refl)

abbrev named : Text → Text → Fields Unit → Fields Unit
named name def rest =
    leaf (record { name = name; exported = true; kind = string_kind; def = def; descr = [] }) rest

abbrev fields : Fields Unit
fields =
    struct (bytes "UploadableConfig") true (named (bytes "FeatureID") (bytes "{featureID}") end)
      (named (bytes "Files") [] (named (bytes "LogLevel") (bytes "INFO") end))

abbrev names : Dict Text
names = (bytes "featureID", bytes "AutoUploadable") ∷ []

abbrev line : CommandLine Unit
line = record {
  print_version = false;
  config_file = bytes "config.json";
  set =
      (bytes "files", text (bytes "/tmp/*.log"))
      ∷ (bytes "configFile", text (bytes "config.json"))
      ∷ [];
}

abbrev flag_parse : List (FlagVar Unit) → Result Text (CommandLine Unit)
flag_parse flags = ok line

abbrev load_json : Text → JsonFile Unit
load_json file =
    loaded ((bytes "Files", text (bytes "/var")) ∷ (bytes "LogLevel", text (bytes "DEBUG")) ∷ [])

abbrev parsed : Dict (Value Unit)
parsed =
    (bytes "FeatureID", text (bytes "AutoUploadable"))
    ∷ (bytes "Files", text (bytes "/tmp/*.log"))
    ∷ (bytes "LogLevel", text (bytes "DEBUG"))
    ∷ []

parsed_is_result : parse_flags load_json flag_parse fields names ≡ ok (none, parsed)
unfolding parse_flags
parsed_is_result = refl

files_field : IsFieldName (bytes "Files")
unfolding has_suffix
files_field = (refl, omega arith, refl)

line_flags : IsMap line.set × AllFlagNames line.set
unfolding has_suffix lookup
line_flags = ((refl, (refl, tt)), ((refl, omega arith, refl), ((refl, omega arith, refl), tt)))

parse_flags-precedence_example :
    lookup (bytes "Files") parsed
    ≡ or_else (lookup (to_flag_name (bytes "Files")) line.set) (
        or_else
          (lookup (bytes "Files") (file_values load_json line.config_file))
          (default_of (some names) [] (bytes "Files") fields))
unfolding has_field lookup
parse_flags-precedence_example =
    parse_flags-precedence load_json flag_parse fields names (bytes "Files") line files_field refl
      refl line_flags.0 line_flags.1 (refl, (refl, tt)) parsed_is_result

abbrev config : UploadConfig
config = record {
  broker = record {
    broker = bytes "tcp://localhost:1883";
    username = [];
    password = [];
    ca_cert = [];
    cert = bytes "client.crt";
    key = bytes "client.key";
  };
  uploadable = record {
    feature_id = bytes "AutoUploadable";
    context = bytes "edge";
    type_name = bytes "file";
    period = pos 36000000000000;
    active = false;
    active_from = some 10;
    active_till = some 20;
    delete_uploaded = false;
    checksum = false;
    single_upload = false;
    stop_timeout = pos 30000000000;
    server_cert = [];
  };
  log = record {
    log_file = [];
    log_level = bytes "INFO";
    log_file_size = pos 2;
    log_file_count = pos 5;
    log_file_max_age = pos 28;
  };
  files = bytes "/var/log/*.log";
  mode = strict;
}

abbrev glob : Text → Result Text (List Text)
glob pattern = ok (bytes "/var/log/syslog.log" ∷ [])

abbrev active_config : UploadConfig
active_config = record config { uploadable = record config.uploadable { active = true } }

validate_config-ok_iff_example : (validate glob config ≡ ok active_config) ↔ (
    IsAcceptable glob config
    × (active_config ≡ record config {
      uploadable = record config.uploadable {
        active =
            active_with config.uploadable.active config.uploadable.active_from
              config.uploadable.active_till;
      };
    }))
validate_config-ok_iff_example = validate_config-ok_iff glob config active_config
