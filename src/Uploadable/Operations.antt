-- ===== src/Uploadable/Operations.antt =====
-- The operations of the feature: activate, deactivate, trigger, start and cancel. Each returns the
-- new state and the error response, if there is one.
pub mod Laws
use file_upload.Prelude.{
  ℕ, Bool, true, false, if◌then◌else◌, Option, none, some, List, [], ◌∷◌, ◌++◌, ltb,
}
use file_upload.Prelude.Text.{Text, bytes, is_empty}
use file_upload.Prelude.Dict.{Dict, insert}
use file_upload.Prelude.Int.{ℤ}
use file_upload.Prelude.Result.{Result, ok, err, ◌>>=◌}
use file_upload.Uploads.Status.{Time}
use file_upload.Uploads.Heap.{Heap, Upload, single, multi}
use file_upload.Uploads.Registry
use file_upload.Uploads.Methods.{start_single, start_error_text, StartError, is_multi}
use file_upload.Uploaders.{OptionError, extract_dictionary}
use file_upload.Uploadable.{
  Executor, AutoUploadable, AutoUploadableState, ErrorResponse, parameter_invalid, execution_failed,
  update_auto_upload, run_upload, cancel_upload, send_upload_request, Task,
}
use file_upload.Uploadable.Config.{
  Failure, nil_pointer, next_uid, start_executor, stop_executor, send,
}

-- encoding/json on the payloads of the operations; a missing field is its zero value.
pub record Decoder : Type 0 where
  pub activate_params : Text → Option (Option Time × Option Time)
  pub trigger_params : Text → Option (Text × Dict Text)
  pub start_params : Text → Option (Text × Dict Text)
  pub cancel_params : Text → Option (Text × Text × Text)
  pub show_time : Time → Text

abbrev pub bad_request : ℕ
bad_request = 400

abbrev pub not_found : ℕ
not_found = 404

abbrev pub internal_server_error : ℕ
internal_server_error = 500

unfoldable pub invalid_parameters : Text → Text → ErrorResponse
invalid_parameters operation payload = record {
  status = bad_request;
  error_code = parameter_invalid;
  message = bytes "invalid '" ++ (operation ++ (bytes "' operation parameters: " ++ payload));
}

unfoldable pub upload_not_found : Text → ErrorResponse
upload_not_found id = record {
  status = not_found;
  error_code = parameter_invalid;
  message = bytes "upload with correlation ID '" ++ (id ++ bytes "' not found");
}

abbrev pub failed_with : Text → ErrorResponse
failed_with message = record {
  status = internal_server_error;
  error_code = execution_failed;
  message = message;
}

-- The new state, and the error response or nil.
abbrev pub Outcome {ℓ} : Type ℓ → Type ℓ
Outcome U = AutoUploadable U × Option ErrorResponse

abbrev spawn {ℓ} : {U : Type ℓ} → Task U → AutoUploadable U → AutoUploadable U
spawn task u = record u { tasks = u.tasks ++ (task ∷ []) }

module _ {ℓ} {U : Type ℓ} (json : Decoder) where
  -- `activate` with its parameters, of which a nil time is a fault. `stops` is as in `stopExecutor`.
  unfoldable pub activate_with :
      (Executor → Bool) → Option Time → Option Time → AutoUploadable U → Result Failure (Outcome U)
  unfolding start_executor
  activate_with stops (some from) (some to) u =
      let state : AutoUploadableState = record {
        active = true;
        start_time = some from;
        end_time = some to;
      } in
      if ltb to from
      then ok (
        u,
        some (record {
          status = bad_request;
          error_code = parameter_invalid;
          message =
              bytes "period end - "
              ++ (json.show_time to
                  ++ (bytes " -  is before period start - " ++ json.show_time from));
        }),
      )
      else (do
        u' ← start_executor stops (record u { state = state })
        ok (send (update_auto_upload state) u', none))
  activate_with stops _ _ u = err nil_pointer

  -- `activate`
  unfoldable pub activate : (Executor → Bool) → Text → AutoUploadable U → Result Failure (Outcome U)
  unfolding activate_with invalid_parameters
  activate stops payload u = elim (json.activate_params payload) [
    | none ↦ ok (u, some (invalid_parameters (bytes "activate") payload))
    | some (from, to) ↦ activate_with stops from to u
  ]

  -- `deactivate`
  unfoldable pub deactivate :
      (Executor → Bool) → Text → AutoUploadable U → Result Failure (Outcome U)
  unfolding stop_executor
  deactivate stops payload u =
      let state : AutoUploadableState = record {
        active = false;
        start_time = none;
        end_time = none;
      } in
      (do
        u' ← stop_executor stops (record u { state = state })
        ok (send (update_auto_upload state) u', none))

  -- The correlation ID of a trigger: a new one if none is given.
  unfoldable pub trigger_id : Text → AutoUploadable U → Text × AutoUploadable U
  unfolding next_uid
  trigger_id id u = if is_empty id then next_uid u else (id, u)

  -- `trigger`; `do_trigger` is `DoTrigger` of the customizer.
  unfoldable pub trigger :
      (Text → Dict Text → AutoUploadable U → Result Text (Unit {0}) × AutoUploadable U)
      → Text
      → AutoUploadable U
      → Outcome U
  unfolding trigger_id invalid_parameters
  trigger do_trigger payload u = elim (json.trigger_params payload) [
    | none ↦ (u, some (invalid_parameters (bytes "trigger") payload))
    | some (id, options) ↦
        let (id', u') = trigger_id id u in
        let (result, v) = do_trigger id' options u' in
        (v, elim result [ ok _ ↦ none | err e ↦ some (failed_with e) ])
  ]

  module _ (uploader : Dict Text → Text → Result OptionError U) where
    -- `start` of an upload that was found.
    unfoldable pub start_found : Upload → Time → Dict Text → AutoUploadable U → Outcome U
    unfolding start_single start_error_text
    start_found (multi m) now options u =
        (u, some (failed_with (start_error_text (is_multi (u.heap.multis m).correlation_id))))
    start_found (single a) now options u = elim (start_single uploader a now options u.heap) [
      | err e ↦ (u, some (failed_with (start_error_text e)))
      | ok (v, h) ↦ (spawn (run_upload a v) (record u { heap = h }), none)
    ]

    -- `start`
    unfoldable pub start : Time → Text → AutoUploadable U → Outcome U
    unfolding start_found invalid_parameters upload_not_found
    start now payload u = elim (json.start_params payload) [
      | none ↦ (u, some (invalid_parameters (bytes "start") payload))
      | some (id, options) ↦ (elim (Registry.get id u.heap) [
        | none ↦ (u, some (upload_not_found id))
        | some up ↦ start_found up now options u
      ])
    ]

  -- `cancel`
  unfoldable pub cancel : Text → AutoUploadable U → Outcome U
  unfolding invalid_parameters upload_not_found
  cancel payload u = elim (json.cancel_params payload) [
    | none ↦ (u, some (invalid_parameters (bytes "cancel") payload))
    | some (id, code, message) ↦ (elim (Registry.get id u.heap) [
      | none ↦ (u, some (upload_not_found id))
      | some up ↦ (spawn (cancel_upload up code message) u, none)
    ])
  ]

abbrev file_path_option : Text
file_path_option = bytes "file.path"

abbrev options_prefix : Text
options_prefix = bytes "options."

-- The options of the request for one file.
unfoldable pub request_options : Dict Text → Text → Dict Text
unfolding extract_dictionary insert
request_options options file = insert file_path_option file (
    insert (bytes "storage.providers") (bytes "aws, azure, generic")
      (extract_dictionary options options_prefix))

-- The loop of `UploadFiles`: one request for each child, each in a goroutine of its own.
unfoldable pub request_uploads {ℓ} :
    {U : Type ℓ} → List Text → List Text → Dict Text → AutoUploadable U → AutoUploadable U
unfolding request_options
request_uploads (id ∷ ids) (file ∷ files) options u =
    request_uploads ids files options
      (spawn (send_upload_request id (request_options options file) file) u)
request_uploads _ _ options u = u

-- `UploadFiles`
unfoldable pub upload_files {ℓ} :
    {U : Type ℓ}
    → (Text → Option ℤ)
    → Text
    → List Text
    → Dict Text
    → AutoUploadable U
    → AutoUploadable U
unfolding request_uploads
upload_files stat id files options u =
    let (h, ids) =
      Registry.add_multi stat id files u.cfg.delete_uploaded u.cfg.checksum u.cfg.server_cert
        u.heap in
    request_uploads ids files options (record u { heap = h })
