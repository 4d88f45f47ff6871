-- ===== src/Uploadable/Tests.antt =====
-- A feature with the defaults of the program, and each theorem on its operations and files at it.
use file_upload.Prelude.Decimal.{decimal}
use file_upload.Prelude.{
  Bool, ℕ, ◌≡◌, refl, ◌↔◌, ◌⊎◌, true, false, Option, none, some, List, [], ◌∷◌, ◌++◌,
}
use file_upload.Prelude.Text.{Text, bytes}
use file_upload.Prelude.Dict.{Dict}
use file_upload.Prelude.Int.{ℤ, pos}
use file_upload.Prelude.Decimal.{decimal}
use file_upload.Prelude.Result.{Result, ok, err}
use file_upload.Uploads.Status.{Time}
use file_upload.Uploads.Multi.{MultiUpload, SingleUpload}
use file_upload.Uploaders.{OptionError}
use file_upload.Mode.{strict}
use file_upload.Uploadable.{
  error_response_text, parameter_invalid, UploadableConfig, Executor, AutoUploadable,
  create_feature,
}
use file_upload.Uploadable.Config.{nil_pointer, connect_handler}
use file_upload.Uploadable.Operations.{Decoder, activate, deactivate, upload_files}
use file_upload.Uploadable.Operations.Laws.{activate-fault_iff, connect_handler-deactivate}
use file_upload.Uploadable.Messages.{Envelope, start as start_call, route}
use file_upload.Uploadable.Messages.Routing.{Names, Calls, route_iff}
use file_upload.Uploads.Status.{zero_status}
use file_upload.Uploads.Examples.{running}
use file_upload.StatusEvents.{new_status_events_consumer}
use file_upload.Uploadable.Connection.{Connection}
use file_upload.FileUpload.{FileSystem, do_trigger}
use file_upload.FileUpload.Permission.{Selected, do_trigger-Selected}

abbrev cfg : UploadableConfig
cfg = record {
  feature_id = bytes "AutoUploadable";
  context = bytes "edge";
  type_name = bytes "file";
  period = pos 36000000000000;
  active = true;
  active_from = none;
  active_till = none;
  delete_uploaded = false;
  checksum = false;
  single_upload = false;
  stop_timeout = pos 30000000000;
  server_cert = [];
}

abbrev no_single : SingleUpload
no_single = record {
  correlation_id = [];
  file_path = [];
  parent = 0;
  started = false;
  file = none;
  bytes_transferred = pos 0;
  total_size_bytes = pos 0;
}

abbrev no_multi : MultiUpload
no_multi = record {
  correlation_id = [];
  children = [];
  total_count = 0;
  delete_uploaded = false;
  use_checksum = false;
  server_cert = [];
  status = none;
  total_bytes_transferred = pos 0;
  total_size_bytes = pos 0;
}

abbrev feature : AutoUploadable ℕ
feature = record {
  device_id = bytes "edge:device";
  cfg = cfg;
  state = record { active = true; start_time = none; end_time = none };
  uid_counter = 100;
  heap = record {
    uploads = [];
    multis = λ m. no_multi;
    singles = λ a. no_single;
    next = 0;
    events = [];
    deleted = [];
  };
  executor = none;
  sent = [];
  tasks = [];
}

abbrev json : Decoder
json = record {
  activate_params = λ payload. some (none, some 7);
  trigger_params = λ payload. some ([], []);
  start_params = λ payload. some (payload, []);
  cancel_params = λ payload. none;
  show_time = decimal;
}

abbrev size_of : Text → Option ℤ
size_of path = some (pos 3)

abbrev all_stop : Executor → Bool
all_stop e = true

activate-fault_iff_example : (activate json all_stop [] feature ≡ err nil_pointer) ↔ (
    (from to : Option Time) × (◌≡◌ {A = Option (Option Time × Option Time)}
      (some (none, some 7))
      (some (from, to)))
    × ((from ≡ none) ⊎ (to ≡ none)))
activate-fault_iff_example = activate-fault_iff json all_stop [] feature

connect_handler-deactivate_example :
    (v w : AutoUploadable ℕ) × (deactivate json all_stop [] feature ≡ ok (v, none))
    × (v.executor ≡ none)
    × (connect_handler all_stop v ≡ ok w)
    × (w.executor ≡ some (record { from = none; to = none; period = pos 36000000000000 }))
    × (w.sent
        ≡ v.sent
          ++ create_feature (record { active = false; start_time = none; end_time = none }) ∷ [])
connect_handler-deactivate_example =
    connect_handler-deactivate json all_stop [] feature refl (λ e h. refl)

abbrev any_uploader : Dict Text → Text → Result OptionError ℕ
any_uploader options cert = ok 0

abbrev msg : Envelope
msg = record {
  path = bytes "/features/AutoUploadable/inbox/messages/start";
  device = bytes "edge:device";
  value = none;
  is_map = false;
  response_required = true;
}

route_iff_example : (route (bytes "AutoUploadable") (bytes "edge:device") msg ≡ some start_call) ↔ (
    (name : Text) × Calls (bytes "AutoUploadable") (bytes "edge:device") msg name
    × Names start_call name)
route_iff_example = route_iff (bytes "AutoUploadable") (bytes "edge:device") msg start_call

abbrev fs : FileSystem
fs = record {
  matches = λ pattern name. ok true;
  glob = λ pattern. ok (pattern ∷ []);
  stat = size_of;
}

do_trigger-Selected_example :
    let (result, v) = do_trigger fs (bytes "*.log") strict (bytes "u") [] feature in
    ((result ≡ ok tt)
      × (files : List Text) × Selected fs (bytes "*.log") strict [] feature files
      × (v ≡ upload_files size_of (bytes "u") files [] feature))
    ⊎ ((e : Text) × (result ≡ err e) × (v ≡ feature))
do_trigger-Selected_example = do_trigger-Selected fs (bytes "*.log") strict (bytes "u") [] feature

abbrev connection : Connection ℕ
connection = record {
  feature = record feature { heap = running };
  tenant_id = bytes "tenant";
  status_events = new_status_events_consumer zero_status 100;
  has_client = true;
  calls = [];
}

text_of_error :
    error_response_text
      (record { status = 400; error_code = parameter_invalid; message = bytes "m" })
    ≡ bytes "error response [status=400, error code=messages:parameter.invalid, msg=m]"
unfolding error_response_text decimal
text_of_error = refl
