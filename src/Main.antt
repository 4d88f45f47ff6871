-- ===== src/Main.antt =====
-- main.go: the parts of the program put together. Its parameters are what the parts ask of the
-- outside. What is only printed or logged is left out.
pub mod Serving
mod Tests
use file_upload.Prelude.{ℕ, Option, some, List}
use file_upload.Prelude.Text.{Text, bytes}
use file_upload.Prelude.Result.{Result, ok, err, ◌>>=◌}
use file_upload.Prelude.Dict.{Dict}
use file_upload.Flags.Values.{Value}
use file_upload.Uploads.Heap.{Heap}
use file_upload.Edge.{EdgeConnector, ConnectorError, Environment, new_edge_connector}
use file_upload.FileUpload.Life.{FileUpload, new_file_upload}
use file_upload.Times.{TimePackage}
use file_upload.Logger.{Log, setup_logger}
use file_upload.Flags.{FlagVar, CommandLine, JsonFile, Exit, parse_flags}
use file_upload.Flags.UploadConfig.{
  Setting, UploadConfig, InvalidConfig, config_names, upload_config, validate,
}
use file_upload.Flags.UploadConfig.Reading.{config_of}

-- The ways in which the program ends before it serves.
pub data Failure : Type 0 where
  bad_flags : Exit → Failure
  bad_config : InvalidConfig → Failure
  no_logger : Text → Failure
  no_connector : ConnectorError → Failure

-- What the program is while it waits for a signal.
pub record Running {ℓ} (U : Type ℓ) : Type ℓ where
  pub log : Log
  pub uploadable : FileUpload U
  pub connector : EdgeConnector

-- A step of main with the failure that its error is.
unfoldable pub failing {ℓ κ} :
    {E : Type κ} {A : Type ℓ} → (E → Failure) → Result E A → Result Failure A
failing f (ok a) = ok a
failing f (err e) = err (f e)

-- What the program finds when it starts.
pub record World : Type 0 where
  pub times : TimePackage
  pub flag_parse : List (FlagVar Setting) → Result Text (CommandLine Setting)
  pub load_json : Text → JsonFile Setting
  pub glob : Text → Result Text (List Text)
  pub upper : Text → Text
  pub make_dirs : Text → Result Text (Unit {0})
  pub broker : Environment
  pub seconds : ℕ

module _ (world : World) where
  -- `ParseFlags`
  unfoldable pub read_flags : Result Failure (Option Text × Dict (Value Setting))
  unfolding failing parse_flags
  read_flags =
      failing bad_flags
        (parse_flags world.load_json world.flag_parse (upload_config world.times) config_names)

  -- `ParseFlags` and `Validate`.
  unfoldable pub configure : Result Failure UploadConfig
  unfolding read_flags failing validate config_of
  configure = do
    (warning, values) ← read_flags
    failing bad_config (validate world.glob (config_of values))

  -- `main` up to its wait for a signal.
  unfoldable pub main {ℓ} : {U : Type ℓ} → Heap → Result Failure (Running U)
  unfolding configure setup_logger new_file_upload new_edge_connector
  main heap = do
    config ← configure
    log ←
        failing no_logger
          (setup_logger world.upper world.make_dirs config.log (bytes "[FILE UPLOAD]"))
    connector ← failing no_connector (new_edge_connector world.broker config.broker)
    ok (record {
      log = log;
      uploadable = new_file_upload config.files config.mode config.uploadable world.seconds heap;
      connector = connector;
    })
