-- ===== src/Uploadable.antt =====
-- client/uploadable.go: the AutoUploadable feature, its state and what it asks of the outside.
mod Tests
pub mod Config
pub mod Operations
pub mod Messages
pub mod Connection
use file_upload.Prelude.{ℕ, Bool, Option, none, List, [], ◌∷◌, ◌++◌}
use file_upload.Prelude.Text.{Text, bytes}
use file_upload.Prelude.Decimal.{decimal}
use file_upload.Prelude.Dict.{Dict}
use file_upload.Prelude.Int.{ℤ}
use file_upload.Uploads.Status.{Time}
use file_upload.Uploads.Heap.{Heap, Upload}

-- `UploadableConfig`; a duration is its number of nanoseconds.
pub record UploadableConfig : Type 0 where
  pub feature_id : Text
  pub context : Text
  pub type_name : Text
  pub period : ℤ
  pub active : Bool
  pub active_from : Option Time
  pub active_till : Option Time
  pub delete_uploaded : Bool
  pub checksum : Bool
  pub single_upload : Bool
  pub stop_timeout : ℤ
  pub server_cert : Text

-- `AutoUploadableState`
pub record AutoUploadableState : Type 0 where
  pub active : Bool
  pub start_time : Option Time
  pub end_time : Option Time

-- The time frame and the period of a running `PeriodicExecutor`.
pub record Executor : Type 0 where
  pub from : Option Time
  pub to : Option Time
  pub period : ℤ

pub data ErrorCode : Type 0 where
  parameter_invalid execution_failed : ErrorCode

abbrev pub error_code_text : ErrorCode → Text
error_code_text parameter_invalid = bytes "messages:parameter.invalid"
error_code_text execution_failed = bytes "messages:execution.failed"

pub record ErrorResponse : Type 0 where
  pub status : ℕ
  pub error_code : ErrorCode
  pub message : Text

-- `ErrorResponse.Error`
unfoldable pub error_response_text : ErrorResponse → Text
error_response_text e =
    bytes "error response [status="
    ++ (decimal e.status
        ++ (bytes ", error code="
            ++ (error_code_text e.error_code ++ (bytes ", msg=" ++ (e.message ++ bytes "]")))))

-- What the feature sends through the Ditto client, `U` being an uploader.
pub data Message : Type 0 where
  create_feature : AutoUploadableState → Message
  update_auto_upload : AutoUploadableState → Message
  upload_request : Text → Dict Text → Message

-- The goroutines that an operation spawns.
pub data Task {ℓ} (U : Type ℓ) : Type ℓ where
  run_upload : ℕ → U → Task U
  cancel_upload : Upload → Text → Text → Task U
  send_upload_request : Text → Dict Text → Text → Task U

-- `AutoUploadable`, with the objects of its uploads, the messages sent so far and the goroutines
-- spawned so far.
pub record AutoUploadable {ℓ} (U : Type ℓ) : Type ℓ where
  pub device_id : Text
  pub cfg : UploadableConfig
  pub state : AutoUploadableState
  pub uid_counter : ℕ
  pub heap : Heap
  pub executor : Option Executor
  pub sent : List Message
  pub tasks : List (Task U)
