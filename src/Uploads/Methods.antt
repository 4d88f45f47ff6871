-- ===== src/Uploads/Methods.antt =====
-- client/uploads.go: the methods of `MultiUpload` and `SingleUpload` on the shared objects. Each is
-- the sequence of its locked parts, of the removals from the registry and of the closing of files.
pub mod Ending
pub mod Failing
pub mod Cancelling
pub mod Finishing
pub mod Starting
pub mod NoFault
pub mod Accounting
use file_upload.Prelude.{
  ℕ, Bool, true, false, not, ◌&&◌, if◌then◌else◌, Option, none, some, List, [], ◌∷◌, ◌++◌,
}
use file_upload.Prelude.Text.{Text, bytes}
use file_upload.Prelude.Dict.{Dict, delete}
use file_upload.Prelude.Int.{ℤ, pos, ◌-ℤ◌, ℤ_beq, wrap}
use file_upload.Prelude.Result.{Result, ok, err}
use mathlib.Core.Option
use file_upload.Uploads.Status.{Time}
use file_upload.Uploads.Multi
use file_upload.Uploads.Multi.{SingleUpload, MultiUpload, Outcome, not_supported}
use file_upload.Uploads.Multi.Actions.{without_child}
use file_upload.Uploads.Multi.Floats.{Float}
use file_upload.Uploads.Heap.{Heap, update, set_multi, set_single, commit}
use file_upload.Uploads.Registry.{remove}
use file_upload.Uploaders.{OptionError, extract_dictionary, error_text}

-- `removeChild`: the child leaves the upload, and then the registry.
unfoldable pub remove_child : ℕ → Text → Heap → Heap
unfolding without_child
remove_child m id h = remove id (set_multi m (without_child id (h.multis m)) h)

-- `internalCancel`, and whether it logs that it failed to close the file: an open file is closed, and
-- a file that is already closed answers with os.ErrClosed.
unfoldable pub internal_cancel : SingleUpload → SingleUpload × Bool
internal_cancel su = elim su.file [
  | none ↦ (su, false)
  | some still_open ↦ (record su { file = some false }, still_open)
]

unfoldable pub cancel_at : ℕ → Heap → Heap
unfolding internal_cancel
cancel_at a h = set_single a (internal_cancel (h.singles a)).0 h

-- The loop of `cancelUploads` over the children.
unfoldable pub cancel_children : Dict ℕ → Heap → Heap
unfolding cancel_at
cancel_children [] h = h
cancel_children ((id, a) ∷ rest) h = cancel_children rest (cancel_at a h)

-- `cancelUploads`
unfoldable pub cancel_uploads : ℕ → Heap → Heap
unfolding cancel_children
cancel_uploads m h = cancel_children (h.multis m).children h

-- What `cancel` and `uploadFailed` do after the locked part.
unfoldable pub close_down : ℕ → Outcome → Heap → Heap
unfolding cancel_uploads
close_down m o h =
    let h' = commit m o h in
    if o.done then h' else remove (h'.multis m).correlation_id (cancel_uploads m h')

-- `MultiUpload.cancel`
unfoldable pub cancel_multi : ℕ → Time → Text → Text → Heap → Heap
unfolding close_down
cancel_multi m now code message h =
    close_down m (Multi.cancel_status now code message (h.multis m)) h

-- `uploadStarted`
unfoldable pub upload_started : ℕ → Time → Dict Text → Heap → Heap
unfolding Multi.upload_started
upload_started m now info h = commit m (Multi.upload_started now info (h.multis m)) h

-- `uploadFailed`, of the child at `a`.
unfoldable pub upload_failed : ℕ → Time → Text → Heap → Heap
unfolding remove_child close_down
upload_failed a now message h =
    let su = h.singles a in
    let h' = remove_child su.parent su.correlation_id h in
    close_down su.parent (Multi.fail_status now message (h'.multis su.parent)) h'

-- `uploadCancelled`
unfoldable pub upload_cancelled : ℕ → Time → Text → Text → Heap → Heap
unfolding remove_child cancel_multi
upload_cancelled a now code message h =
    let su = h.singles a in
    cancel_multi su.parent now code message (remove_child su.parent su.correlation_id h)

-- `SingleUpload.cancel`
unfoldable pub cancel_single : ℕ → Time → Text → Text → Heap → Heap
unfolding cancel_at upload_cancelled
cancel_single a now code message h = upload_cancelled a now code message (cancel_at a h)

-- What `start` may answer.
pub data StartError : Type 0 where
  bad_options : OptionError → StartError
  already_started : Text → StartError
  is_multi : Text → StartError

unfoldable pub start_error_text : StartError → Text
unfolding error_text
start_error_text (bad_options e) = error_text e
start_error_text (already_started id) = bytes "upload '" ++ (id ++ bytes "' already started")
start_error_text (is_multi id) =
    bytes "multi-file upload '"
    ++ (id ++ bytes "' cannot be started - start the individual uploads")

abbrev pub info_prefix : Text
info_prefix = bytes "info."

-- `SingleUpload.start` up to the goroutine that it spawns. `uploader` is `getUploader`.
module _ {ℓ} {U : Type ℓ} (uploader : Dict Text → Text → Result OptionError U) where
  unfoldable pub start_with : ℕ → Time → Dict Text → U → Heap → Result StartError (U × Heap)
  unfolding upload_started extract_dictionary
  start_with a now options u h =
      let su = h.singles a in
      if su.started
      then err (already_started su.correlation_id)
      else ok (
        u,
        upload_started su.parent now (extract_dictionary options info_prefix)
            (set_single a (record su { started = true }) h),
      )

  unfoldable pub start_single : ℕ → Time → Dict Text → Heap → Result StartError (U × Heap)
  unfolding start_with
  start_single a now options h =
      elim (uploader options (h.multis (h.singles a).parent).server_cert) [
        | err e ↦ err (bad_options e)
        | ok u ↦ start_with a now options u h
      ]

-- What `uploadFinished` does after the locked part: a complete upload leaves the registry.
unfoldable pub complete : ℕ → Outcome → Heap → Heap
complete m o h =
    let h' = commit m o h in if o.done then remove (h'.multis m).correlation_id h' else h'

module _ (f64 f32 : Float) where
  -- `uploadFinished`, of the child at `a`. `none` is the fault of a nil status.
  unfoldable pub upload_finished : ℕ → Time → Heap → Option Heap
  unfolding remove_child complete
  upload_finished a now h =
      let su = h.singles a in
      let h' = remove_child su.parent su.correlation_id h in
      elim (Multi.finish_status f64 f32 now su (h'.multis su.parent)) [
        | none ↦ none
        | some o ↦ some (complete su.parent o h')
      ]

  -- `changeProgress`
  unfoldable pub change_progress : ℕ → ℤ → Heap → Option Heap
  change_progress m n h = elim (Multi.change_progress f64 f32 n (h.multis m)) [
    | none ↦ none
    | some o ↦ some (commit m o h)
  ]

  -- `progressFunc`, the listener that `start` gives to the uploader.
  unfoldable pub report_progress : ℕ → ℤ → Heap → Option Heap
  unfolding change_progress
  report_progress a n h =
      let su = h.singles a in
      let change = wrap (n -ℤ su.bytes_transferred) in
      let h' = set_single a (record su { bytes_transferred = n }) h in
      if ℤ_beq (h.multis su.parent).total_size_bytes not_supported
      then some h
      else if ℤ_beq su.total_size_bytes (pos 0) && not (ℤ_beq n (pos 0))
      then some h
      else if ℤ_beq su.bytes_transferred n
      then some h
      else if ℤ_beq change (pos 0)
      then some h'
      else change_progress su.parent change h'

  unfoldable pub report_all : ℕ → List ℤ → Heap → Option Heap
  unfolding report_progress
  report_all a [] h = some h
  report_all a (n ∷ ns) h = elim (report_progress a n h) [
    | none ↦ none
    | some h' ↦ report_all a ns h'
  ]

  -- What the goroutine of `start` meets: whether the file opens, what the uploader reports, and how
  -- it ends.
  pub record Attempt : Type 0 where
    pub opened : Result Text (Unit {0})
    pub reports : List ℤ
    pub outcome : Result Text (Unit {0})

  abbrev pub set_file : ℕ → Bool → Heap → Heap
  set_file a still_open h = set_single a (record (h.singles a) { file = some still_open }) h

  -- After a successful upload: `uploadFinished`, and the file is deleted if that was asked for.
  unfoldable pub succeed : ℕ → Time → Heap → Option Heap
  unfolding upload_finished
  succeed a now h = elim (upload_finished a now h) [
    | none ↦ none
    | some g ↦
        let su = g.singles a in
        some (
          if (g.multis su.parent).delete_uploaded
          then record g { deleted = g.deleted ++ (su.file_path ∷ []) }
          else g)
  ]

  -- The goroutine of `start`, with no other goroutine between its steps.
  unfoldable pub upload_task : ℕ → Time → Attempt → Heap → Option Heap
  unfolding upload_failed report_all succeed
  upload_task a now attempt h = elim attempt.opened [
    | err e ↦ some (upload_failed a now e h)
    | ok _ ↦ (elim (report_all a attempt.reports (set_file a true h)) [
      | none ↦ none
      | some g ↦ (elim attempt.outcome [
        | err e ↦ some (set_file a false (upload_failed a now e g))
        | ok _ ↦ Option.map (set_file a false) (succeed a now g)
      ])
    ])
  ]
