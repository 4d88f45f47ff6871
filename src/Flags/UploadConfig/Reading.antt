-- ===== src/Flags/UploadConfig/Reading.antt =====
-- flagparse/flags.go: the configuration as a structure, from the values of its fields.
use file_upload.Prelude.{Bool, false, Option, none, some}
use file_upload.Prelude.Text.{Text, bytes}
use file_upload.Prelude.Dict.{Dict, lookup}
use file_upload.Prelude.Int.{ℤ, pos}
use file_upload.Uploads.Status.{Time}
use file_upload.Mode.{AccessMode, na}
use file_upload.Flags.Values.{Value, text, flag, number, custom}
use file_upload.Flags.UploadConfig.{[], Setting, mode, duration, time, UploadConfig}

-- The value of a field of each type, which is the zero value if nothing has set it.
text_of : Option (Value Setting) → Text
text_of (some (text t)) = t
text_of _ = []

bool_of : Option (Value Setting) → Bool
bool_of (some (flag b)) = b
bool_of _ = false

int_of : Option (Value Setting) → ℤ
int_of (some (number n)) = n
int_of _ = pos 0

duration_of : Option (Value Setting) → ℤ
duration_of (some (custom (duration d))) = d
duration_of _ = pos 0

time_of : Option (Value Setting) → Option Time
time_of (some (custom (time t))) = t
time_of _ = none

mode_of : Option (Value Setting) → AccessMode
mode_of (some (custom (mode m))) = m
mode_of _ = na

-- `UploadConfig` with the given values of its fields.
unfoldable pub config_of : Dict (Value Setting) → UploadConfig
unfolding lookup text_of bool_of int_of duration_of time_of mode_of
config_of d = record {
  broker = record {
    broker = text_of (lookup (bytes "Broker") d);
    username = text_of (lookup (bytes "Username") d);
    password = text_of (lookup (bytes "Password") d);
    ca_cert = text_of (lookup (bytes "CaCert") d);
    cert = text_of (lookup (bytes "Cert") d);
    key = text_of (lookup (bytes "Key") d);
  };
  uploadable = record {
    feature_id = text_of (lookup (bytes "FeatureID") d);
    context = text_of (lookup (bytes "Context") d);
    type_name = text_of (lookup (bytes "Type") d);
    period = duration_of (lookup (bytes "Period") d);
    active = bool_of (lookup (bytes "Active") d);
    active_from = time_of (lookup (bytes "ActiveFrom") d);
    active_till = time_of (lookup (bytes "ActiveTill") d);
    delete_uploaded = bool_of (lookup (bytes "Delete") d);
    checksum = bool_of (lookup (bytes "Checksum") d);
    single_upload = bool_of (lookup (bytes "SingleUpload") d);
    stop_timeout = duration_of (lookup (bytes "StopTimeout") d);
    server_cert = text_of (lookup (bytes "ServerCert") d);
  };
  log = record {
    log_file = text_of (lookup (bytes "LogFile") d);
    log_level = text_of (lookup (bytes "LogLevel") d);
    log_file_size = int_of (lookup (bytes "LogFileSize") d);
    log_file_count = int_of (lookup (bytes "LogFileCount") d);
    log_file_max_age = int_of (lookup (bytes "LogFileMaxAge") d);
  };
  files = text_of (lookup (bytes "Files") d);
  mode = mode_of (lookup (bytes "Mode") d);
}
