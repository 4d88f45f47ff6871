-- ===== src/Flags/UploadConfig.antt =====
-- flagparse/flags.go: the configuration of the program, its fields with their defaults, and
-- `Validate`. The descriptions of the flags, which only the usage text shows, are left out.
pub mod Acceptance
pub mod Reading
use file_upload.Prelude.{
  ℕ, Bool, true, false, not, ◌&&◌, if◌then◌else◌, Option, none, some, List, [], ◌∷◌,
}
use file_upload.Prelude.Text.{Text, bytes, is_empty}
use file_upload.Prelude.Dict.{Dict}
use file_upload.Prelude.Int.{ℤ}
use file_upload.Prelude.Result.{Result, ok, err, ◌>>=◌, ◌>>◌, guard}
use file_upload.Uploads.Status.{Time}
use file_upload.Mode.{AccessMode, na, strict, lax, scoped, set_mode}
use file_upload.Times.{TimePackage, set_duration, set_xtime}
use file_upload.Uploadable.{UploadableConfig}
use file_upload.Uploadable.Config.{ConfigError}
use file_upload.Uploadable.Config as Config
use file_upload.Edge.{BrokerConfig}
use file_upload.Logger.{LogConfig}
use file_upload.Flags.Values.{Kind, string_kind, bool_kind, int_kind, value_kind}
use file_upload.Flags.{Leaf, Fields, end, leaf, struct}

-- The values of the types with a method `Set`.
pub data Setting : Type 0 where
  mode : AccessMode → Setting
  duration : ℤ → Setting
  time : Option Time → Setting

is_none {ℓ} : {A : Type ℓ} → Option A → Bool
is_none none = true
is_none (some a) = false

unfoldable pub set_mode_value : Text → Setting × Bool
unfolding set_mode
set_mode_value s = elim (set_mode s) [ ok m ↦ (mode m, true) | err e ↦ (mode na, false) ]

module _ (times : TimePackage) where
  unfoldable pub set_duration_value : Text → Setting × Bool
  unfolding set_duration is_none
  set_duration_value s = let (d, e) = set_duration times s in (duration d, is_none e)

  -- A time that cannot be read ends the process, so that the value does not matter.
  unfoldable pub set_xtime_value : Text → Setting × Bool
  unfolding set_xtime
  set_xtime_value s = elim (set_xtime times s none) [
    | ok t ↦ (time t, true)
    | err e ↦ (time none, false)
  ]

  abbrev field : Text → Kind Setting → Text → Fields Setting → Fields Setting
  field name kind def rest =
      leaf (record { name = name; exported = true; kind = kind; def = def; descr = [] }) rest

  -- `client.BrokerConfig`
  unfoldable pub broker_fields : Fields Setting
  broker_fields = field (bytes "Broker") string_kind (bytes "tcp://localhost:1883") (
      field (bytes "Username") string_kind [] (
        field (bytes "Password") string_kind [] (
          field (bytes "CaCert") string_kind []
            (field (bytes "Cert") string_kind [] (field (bytes "Key") string_kind [] end)))))

  -- `client.UploadableConfig`
  unfoldable pub uploadable_fields : Fields Setting
  unfolding set_duration_value set_xtime_value
  uploadable_fields = field (bytes "FeatureID") string_kind (bytes "{featureID}") (
      field (bytes "Context") string_kind (bytes "edge") (
        field (bytes "Type") string_kind (bytes "file") (
          field (bytes "Period") (value_kind set_duration_value) (bytes "10h") (
            field (bytes "Active") bool_kind (bytes "false") (
              field (bytes "ActiveFrom") (value_kind set_xtime_value) [] (
                field (bytes "ActiveTill") (value_kind set_xtime_value) [] (
                  field (bytes "Delete") bool_kind (bytes "false") (
                    field (bytes "Checksum") bool_kind (bytes "false") (
                      field (bytes "SingleUpload") bool_kind (bytes "false") (
                        field (bytes "StopTimeout") (value_kind set_duration_value) (bytes "30s")
                          (field (bytes "ServerCert") string_kind [] end)))))))))))

  -- `logger.LogConfig`
  unfoldable pub log_fields : Fields Setting
  log_fields = field (bytes "LogFile") string_kind (bytes "{logFile}") (
      field (bytes "LogLevel") string_kind (bytes "INFO") (
        field (bytes "LogFileSize") int_kind (bytes "2") (
          field (bytes "LogFileCount") int_kind (bytes "5")
            (field (bytes "LogFileMaxAge") int_kind (bytes "28") end))))

  -- `UploadConfig`
  unfoldable pub upload_config : Fields Setting
  unfolding broker_fields uploadable_fields log_fields set_mode_value
  upload_config = struct (bytes "BrokerConfig") true broker_fields (
      struct (bytes "UploadableConfig") true uploadable_fields (
        struct (bytes "LogConfig") true log_fields (
          field (bytes "Files") string_kind []
            (field (bytes "Mode") (value_kind set_mode_value) (bytes "strict") end))))

-- `ConfigNames`, but for the names that only descriptions use.
abbrev pub config_names : Dict Text
config_names =
    (bytes "featureID", bytes "AutoUploadable")
    ∷ (bytes "logFile", bytes "log/file-upload.log")
    ∷ []

pub record UploadConfig : Type 0 where
  pub broker : BrokerConfig
  pub uploadable : UploadableConfig
  pub log : LogConfig
  pub files : Text
  pub mode : AccessMode

-- The messages with which `Validate` ends the process.
pub data InvalidConfig : Type 0 where
  files_not_specified : InvalidConfig
  bad_glob : Text → InvalidConfig
  half_certificate : InvalidConfig
  bad_uploadable : ConfigError → InvalidConfig

is_lax : AccessMode → Bool
is_lax lax = true
is_lax _ = false

both_or_none : Text → Text → Bool
both_or_none a b = if is_empty a then is_empty b else not (is_empty b)

validate_uploadable : UploadableConfig → Result InvalidConfig UploadableConfig
unfolding Config.validate
validate_uploadable cfg = elim (Config.validate cfg) [
  | err e ↦ err (bad_uploadable e)
  | ok u ↦ ok u
]

-- filepath.Glob, of which only the error is used.
module _ (glob : Text → Result Text (List Text)) where
  unfoldable pub validate_files : Text → AccessMode → Result InvalidConfig (Unit {0})
  unfolding is_lax
  validate_files files access =
      if is_empty files
      then guard (is_lax access) files_not_specified
      else (elim (glob files) [ err e ↦ err (bad_glob e) | ok matches ↦ ok tt ])

  -- `UploadConfig.Validate`
  unfoldable pub validate : UploadConfig → Result InvalidConfig UploadConfig
  unfolding validate_files both_or_none validate_uploadable
  validate cfg = do
    validate_files cfg.files cfg.mode
    guard (both_or_none cfg.broker.cert cfg.broker.key) half_certificate
    u ← validate_uploadable cfg.uploadable
    ok (record cfg { uploadable = u })
