-- ===== src/Uploads/Status.antt =====
-- The 'status' property of an upload: the constants, `UploadStatus` and `finished`.
use file_upload.Prelude.{ℕ, Bool, true, false, []}
use file_upload.Prelude.Text.{Text, bytes}
use file_upload.Prelude.Dict.{Dict}
use file_upload.Prelude.Int.{ℤ, pos}

-- The values of the 'state' string that the program writes; `unset` is the zero value "".
pub data State : Type 0 where
  unset pending uploading paused success failed canceled : State

abbrev pub state_name : State → Text
state_name unset = []
state_name pending = bytes "PENDING"
state_name uploading = bytes "UPLOADING"
state_name paused = bytes "PAUSED"
state_name success = bytes "SUCCESS"
state_name failed = bytes "FAILED"
state_name canceled = bytes "CANCELED"

-- A time.Time; 0 is its zero value.
abbrev pub Time : Type 0
Time = ℕ

pub record UploadStatus : Type 0 where
  pub correlation_id : Text
  pub state : State
  pub start_time : Time
  pub end_time : Time
  pub status_code : Text
  pub message : Text
  pub progress : ℤ
  pub info : Dict Text

-- `&UploadStatus{}`
abbrev pub zero_status : UploadStatus
zero_status = record {
  correlation_id = [];
  state = unset;
  start_time = 0;
  end_time = 0;
  status_code = [];
  message = [];
  progress = pos 0;
  info = [];
}

abbrev pub is_final : State → Bool
is_final success = true
is_final canceled = true
is_final failed = true
is_final _ = false

abbrev pub is_pending : State → Bool
is_pending pending = true
is_pending _ = false

abbrev pub is_uploading : State → Bool
is_uploading uploading = true
is_uploading _ = false

unfoldable pub finished : UploadStatus → Bool
finished s = is_final s.state
