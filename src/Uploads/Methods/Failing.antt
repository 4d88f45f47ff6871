-- ===== src/Uploads/Methods/Failing.antt =====
-- client/uploads.go: `uploadFailed`.
use file_upload.Prelude.{refl, none, some, false, []}
use file_upload.Prelude.Text.{Text}
use file_upload.Prelude.Dict.{keys, delete}
use file_upload.Uploads.Status.{Time, UploadStatus, failed, finished}
use file_upload.Uploads.Multi.{notify, fail_status, Outcome, MultiUpload}
use file_upload.Uploads.Multi.Actions.{without_child}
use file_upload.Uploads.Heap.{single, multi, Heap}
use file_upload.Uploads.Registry.{get}
use file_upload.Uploads.Registry.Removal.{contains}
use file_upload.Uploads.Methods.{remove_child, close_down, upload_failed}
use file_upload.Prelude.{ℕ, ◌≡◌, ap, ◌∙◌, ◌++◌, ◌∷◌, true, arith}
use file_upload.Uploads.Methods.Ending.{
  ClosedDown, close_down-ClosedDown, get-remove_child, multi-remove_child,
}
use file_upload.Uploads.Methods.Ending.{AllClosed}

fail_status_unfinished :
    (now : Time) (message : Text) (u : MultiUpload) (s : UploadStatus)
    → u.status ≡ some s
    → finished s ≡ false
    → fail_status now message u
      ≡ notify u (record s { state = failed; end_time = now; message = message }) false
unfolding fail_status
fail_status_unfinished now message u s e f = ground (arith, e, f)

-- When a registered file of a registered upload in progress fails, the upload is FAILED with the
-- error's text, the listener is told so once, every other file is closed, and the registry forgets
-- the upload and its other children.
pub upload_failed_lem :
    (a : ℕ) (now : Time) (message : Text) (h : Heap) (s : UploadStatus)
    → let su = h.singles a in
      let u = h.multis su.parent in
      let s' = record s { state = failed; end_time = now; message = message } in
      let rest = delete su.correlation_id u.children in
      let g = upload_failed a now message h in
      u.status ≡ some s
      → finished s ≡ false
      → get u.correlation_id h ≡ some (multi su.parent)
      → get su.correlation_id h ≡ some (single a)
      → ((g.multis su.parent).status ≡ some s')
        × (g.events ≡ h.events ++ s' ∷ [])
        × (get u.correlation_id g ≡ none)
        × ((k : Text) → contains (keys rest) k ≡ true → get k g ≡ none)
        × AllClosed rest g
unfolding upload_failed
upload_failed_lem a now message h s active unfinished known child = rw told_failed (
  ap (λ v. v.status) down.upload,
  down.told ∙ ap (λ es. es ++ s' ∷ []) left.1,
  down.forgotten,
  down.children_forgotten,
  down.closed,
)
  where
    m : ℕ
    m = (h.singles a).parent

    id : Text
    id = (h.singles a).correlation_id

    u : MultiUpload
    u = h.multis m

    s' : UploadStatus
    s' = record s { state = failed; end_time = now; message = message }

    h' : Heap
    h' = remove_child m id h

    o : Outcome
    o = notify (without_child id u) s' false

    left : (h'.multis m ≡ without_child id u) × (h'.events ≡ h.events)
    left = multi-remove_child m id h

    told_failed : fail_status now message (h'.multis m) ≡ o
    told_failed =
        ap (fail_status now message) left.0
        ∙ fail_status_unfinished now message (without_child id u) s active unfinished

    down : ClosedDown m o h' (close_down m o h')
    down =
        close_down-ClosedDown m o h' refl
          (get-remove_child m id u.correlation_id a h child (λ e. cc (known, child, e)) ∙ known)
