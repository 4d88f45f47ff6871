-- ===== src/FileUpload.antt =====
-- client/fileupload.go: the files that an AutoUploadable feature uploads.
pub mod Permission
pub mod Life
use file_upload.Prelude.{
  Bool, true, false, not, ◌&&◌, if◌then◌else◌, Option, none, some, List, [], ◌∷◌, ◌++◌, ◌==◌,
}
use file_upload.Prelude.Text.{Text, bytes, is_empty, text_beq, text_eq}
use file_upload.Prelude.Dict.{Dict, lookup}
use file_upload.Prelude.Int.{ℤ}
use file_upload.Prelude.Result.{Result, ok, err, ◌>>=◌, ◌>>◌, guard}
use file_upload.Mode.{AccessMode, na, strict, lax, scoped, mode_string}
use file_upload.Uploads.Registry.{has_pending_uploads}
use file_upload.Uploadable.{AutoUploadable, ErrorResponse, execution_failed}
use file_upload.Uploadable.Config.{next_uid}
use file_upload.Uploadable.Operations.{upload_files, bad_request}

abbrev pub upload_files_property : Text
upload_files_property = bytes "upload.files"

-- path/filepath and the file sizes of the file system.
pub record FileSystem : Type 0 where
  pub matches : Text → Text → Result Text Bool
  pub glob : Text → Result Text (List Text)
  pub stat : Text → Option ℤ

-- Whether a trigger must wait for the uploads in progress.
unfoldable pub is_single : Bool → Dict Text → Bool
unfolding lookup text_beq
is_single single options = elim (lookup (bytes "force") options) [
  | none ↦ single
  | some v ↦ if v == bytes "true" then false else single
]

unfoldable pub ongoing : Text
ongoing =
    bytes
      "there is an ongoing upload -  set the 'force' option to 'true' to force trigger the upload"

module _ (fs : FileSystem) (files_glob : Text) (mode : AccessMode) where
  -- `isGlobUploadPermitted`
  unfoldable pub is_glob_upload_permitted : Text → Result Text Bool
  unfolding text_beq
  is_glob_upload_permitted glob = elim mode [
    | lax ↦ ok true
    | strict ↦ ok (glob == files_glob)
    | scoped ↦ fs.matches files_glob glob
    | na ↦ ok false
  ]

  not_permitted : Text → Text
  not_permitted glob =
      bytes "uploading '"
      ++ (glob ++ (bytes "' with mode '" ++ (mode_string mode ++ bytes "' is not permitted")))

  -- The pattern of the files to upload: that of the options, if it is permitted.
  unfoldable pub choose_glob : Option Text → Result Text Text
  unfolding is_glob_upload_permitted not_permitted
  choose_glob none = ok files_glob
  choose_glob (some glob) = do
    permitted ← is_glob_upload_permitted glob
    guard permitted (not_permitted glob)
    ok glob

  -- The checks of `DoTrigger`, and the files that pass them.
  unfoldable pub files_to_upload {ℓ} :
      {U : Type ℓ} → Dict Text → AutoUploadable U → Result Text (List Text)
  unfolding choose_glob is_single ongoing lookup has_pending_uploads
  files_to_upload options u = do
    glob ← choose_glob (lookup upload_files_property options)
    guard (not (is_empty glob)) (bytes "upload files not specified")
    guard (not (is_single u.cfg.single_upload options && has_pending_uploads u.heap)) ongoing
    fs.glob glob

  -- `DoTrigger`
  unfoldable pub do_trigger {ℓ} :
      {U : Type ℓ} → Text → Dict Text → AutoUploadable U → Result Text (Unit {0}) × AutoUploadable U
  unfolding files_to_upload upload_files
  do_trigger id options u = elim (files_to_upload options u) [
    | err e ↦ (err e, u)
    | ok files ↦ (ok tt, upload_files fs.stat id files options u)
  ]

  -- `OnTick`: an error is only logged.
  unfoldable pub on_tick {ℓ} : {U : Type ℓ} → AutoUploadable U → AutoUploadable U
  unfolding next_uid do_trigger
  on_tick u = let (id, u') = next_uid u in (do_trigger id [] u').1

-- `HandleOperation`
unfoldable pub handle_operation : Text → ErrorResponse
handle_operation operation = record {
  status = bad_request;
  error_code = execution_failed;
  message = bytes "Unsupported operation: " ++ operation;
}
