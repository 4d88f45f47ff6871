-- ===== src/Uploads/Methods/Cancelling.antt =====
-- client/uploads.go: `MultiUpload.cancel`.
use file_upload.Prelude.{refl, none, some, false, []}
use file_upload.Prelude.Text.{Text}
use file_upload.Prelude.Dict.{keys}
use file_upload.Uploads.Status.{Time, UploadStatus, canceled, finished, zero_status}
use file_upload.Uploads.Multi.{notify, cancel_status, Outcome, MultiUpload}
use file_upload.Uploads.Heap.{multi, Heap}
use file_upload.Uploads.Registry.{get}
use file_upload.Uploads.Registry.Removal.{contains}
use file_upload.Uploads.Methods.{close_down, cancel_multi}
use file_upload.Prelude.{ℕ, ◌≡◌, ap, ◌++◌, ◌∷◌, true, Bool, Option, arith}
use file_upload.Uploads.Methods.Ending.{ClosedDown, close_down-ClosedDown}
use file_upload.Uploads.Methods.Ending.{AllClosed}

-- The status that `cancel` changes: a new one if the upload was not started.
abbrev pub base_status : Option UploadStatus → UploadStatus
base_status none = zero_status
base_status (some s) = s

abbrev pub is_finished : Option UploadStatus → Bool
is_finished none = false
is_finished (some s) = finished s

cancel_status_unfinished :
    (now : Time) (code message : Text) (u : MultiUpload)
    → is_finished u.status ≡ false
    → cancel_status now code message u
      ≡ notify u
          (record (base_status u.status) {
            state = canceled;
            status_code = code;
            message = message;
            end_time = now;
          })
          false
unfolding cancel_status
cancel_status_unfinished now code message u f = ground arith

-- Cancelling a registered upload that has not ended makes it CANCELED with the given code and
-- message, tells the listener so once, closes every file, and takes the upload and its children out
-- of the registry.
pub cancel_multi_lem :
    (m : ℕ) (now : Time) (code message : Text) (h : Heap)
    → let u = h.multis m in
      let s' = record (base_status u.status) {
        state = canceled;
        status_code = code;
        message = message;
        end_time = now;
      } in
      let g = cancel_multi m now code message h in
      is_finished u.status ≡ false
      → get u.correlation_id h ≡ some (multi m)
      → ((g.multis m).status ≡ some s')
        × (g.events ≡ h.events ++ s' ∷ [])
        × (get u.correlation_id g ≡ none)
        × ((k : Text) → contains (keys u.children) k ≡ true → get k g ≡ none)
        × AllClosed u.children g
unfolding cancel_multi
cancel_multi_lem m now code message h unfinished known =
    rw (cancel_status_unfinished now code message (h.multis m) unfinished) (
      ap (λ v. v.status) down.upload,
      down.told,
      down.forgotten,
      down.children_forgotten,
      down.closed,
    )
  where
    o : Outcome
    o =
        notify (h.multis m)
          (record (base_status (h.multis m).status) {
            state = canceled;
            status_code = code;
            message = message;
            end_time = now;
          })
          false

    down : ClosedDown m o h (close_down m o h)
    down = close_down-ClosedDown m o h refl known

-- Cancelling a registered upload that was not started tells the listener a CANCELED status with no
-- correlation ID, whatever the ID of the upload.
pub cancel_unstarted :
    (m : ℕ) (now : Time) (code message : Text) (h : Heap)
    → (h.multis m).status ≡ none
    → get (h.multis m).correlation_id h ≡ some (multi m)
    → (s : UploadStatus) × ((cancel_multi m now code message h).events ≡ h.events ++ s ∷ [])
      × (s.state ≡ canceled)
      × (s.correlation_id ≡ [])
cancel_unstarted m now code message h e known =
    let c = cancel_multi_lem m now code message h (rw e) known in
    (_, c.1, refl, ap (λ o. (base_status o).correlation_id) e)
