-- ===== src/Uploads/Methods/Starting.antt =====
-- client/uploads.go: `SingleUpload.start` before its goroutine.
use file_upload.Prelude.{append-nil, ℕ, ◌≡◌, ◌++◌, ◌∷◌, [], true, false, none, some, arith}
use file_upload.Prelude.Text.{Text}
use file_upload.Prelude.Dict.{Dict}
use file_upload.Prelude.Result.{Result, ok}
use file_upload.Uploads.Status.{is_pending, uploading, zero_status, UploadStatus, Time}
use file_upload.Uploads.Heap.{Heap, update}
use file_upload.Uploads.Methods.{start_single, start_with, upload_started, info_prefix}
use file_upload.Uploaders.{OptionError, extract_dictionary}

module _ {ℓ} {U : Type ℓ} (uploader : Dict Text → Text → Result OptionError U) where
  -- A `start` that goes well: the options made an uploader, the file was not started and now it is.
  start_single-ok :
      (a : ℕ) (now : Time) (options : Dict Text) (h : Heap) {u : U} {g : Heap}
      → let m = (h.singles a).parent in
        start_single uploader a now options h ≡ ok (u, g)
        → (uploader options (h.multis m).server_cert ≡ ok u)
          × ((h.singles a).started ≡ false)
          × ((g.singles a).started ≡ true)
  unfolding start_single start_with upload_started update
  start_single-ok a now options h e = (ground arith, ground arith, ground arith)

  -- The first file that starts: the options made an uploader, the file was not started and now it
  -- is, the upload is UPLOADING with the options' info, and the listener is told so.
  pub start_single_first :
      (a : ℕ) (now : Time) (options : Dict Text) (h : Heap) {u : U} {g : Heap}
      → (h.multis (h.singles a).parent).status ≡ none
      → start_single uploader a now options h ≡ ok (u, g)
      → let m = (h.singles a).parent in
        let s' = record zero_status {
          correlation_id = (h.multis m).correlation_id;
          state = uploading;
          start_time = now;
          info = extract_dictionary options info_prefix;
        } in
        (uploader options (h.multis m).server_cert ≡ ok u)
        × ((h.singles a).started ≡ false)
        × ((g.singles a).started ≡ true)
        × ((g.multis m).status ≡ some s')
        × (g.events ≡ h.events ++ s' ∷ [])
  unfolding start_single start_with upload_started update
  start_single_first a now options h n e =
      let (made, fresh, started) = start_single-ok a now options h e in
      (made, fresh, started, ground (arith, e, n), ground (arith, e, n))

  -- A later file that starts: the options made an uploader, the file was not started and now it is,
  -- and an upload whose state is not PENDING keeps its status, and the listener is told nothing.
  pub start_single_later :
      (a : ℕ) (now : Time) (options : Dict Text) (h : Heap) (s : UploadStatus) {u : U} {g : Heap}
      → (h.multis (h.singles a).parent).status ≡ some s
      → is_pending s.state ≡ false
      → start_single uploader a now options h ≡ ok (u, g)
      → let m = (h.singles a).parent in
        (uploader options (h.multis m).server_cert ≡ ok u)
        × ((h.singles a).started ≡ false)
        × ((g.singles a).started ≡ true)
        × ((g.multis m).status ≡ some s)
        × (g.events ≡ h.events)
  unfolding start_single start_with upload_started update
  start_single_later a now options h s q p e =
      let (made, fresh, started) = start_single-ok a now options h e in
      (made, fresh, started, ground (arith, e, q, p), ground (arith, e, q, p, append-nil h.events))
