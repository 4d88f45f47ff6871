-- ===== src/Uploads/Multi.antt =====
-- client/uploads.go: `MultiUpload` and the parts of its methods that run under its mutex. Each takes
-- the upload and returns the new one with the statuses that the listener is given, in order.
pub mod Floats
pub mod Actions
pub mod Finality
pub mod Transitions
pub mod Percent
pub mod Progress
use file_upload.Prelude.{
  ◌++◌, ℕ, ◌==◌, nat_eq, Bool, true, false, not, ◌&&◌, if◌then◌else◌, Option, none, some, List, [],
  ◌∷◌, length,
}
use file_upload.Prelude.Text.{Text, bytes}
use file_upload.Prelude.Dict.{Dict}
use file_upload.Prelude.Int.{ℤ, pos, negsuc, ◌+ℤ◌, ◌-ℤ◌, ℤ_beq, wrap}
use file_upload.Uploads.Status.{
  State, uploading, success, failed, canceled, Time, UploadStatus, zero_status, is_pending,
  finished,
}
use Floats.{Float}

pub record SingleUpload : Type 0 where
  pub correlation_id : Text
  pub file_path : Text
  -- The address of the `MultiUpload`.
  pub parent : ℕ
  pub started : Bool
  -- The open file: `none` for nil, or whether it is still open.
  pub file : Option Bool
  pub bytes_transferred : ℤ
  pub total_size_bytes : ℤ

-- `SingleUpload.String`
unfoldable pub upload_text : SingleUpload → Text
upload_text su =
    bytes "[correlationID: "
    ++ (su.correlation_id ++ (bytes ", file: " ++ (su.file_path ++ bytes "]")))

pub record MultiUpload : Type 0 where
  pub correlation_id : Text
  -- The addresses of the `SingleUpload`s.
  pub children : Dict ℕ
  pub total_count : ℕ
  pub delete_uploaded : Bool
  pub use_checksum : Bool
  pub server_cert : Text
  pub status : Option UploadStatus
  pub total_bytes_transferred : ℤ
  pub total_size_bytes : ℤ

-- fineGrainedUploadProgressNotSupported
abbrev pub not_supported : ℤ
not_supported = negsuc 0

-- The new upload with the notifications, and whether the method is done.
pub record Outcome : Type 0 where
  pub upload : MultiUpload
  pub events : List UploadStatus
  pub done : Bool

already_started : Option UploadStatus → Bool
already_started none = false
already_started (some s) = not (is_pending s.state)

-- The locked part of `uploadStarted`.
unfoldable pub upload_started : Time → Dict Text → MultiUpload → Outcome
unfolding already_started
upload_started now info u =
    let s : UploadStatus = record zero_status {
      correlation_id = u.correlation_id;
      state = uploading;
      start_time = now;
      progress = pos 0;
      info = info;
    } in
    if already_started u.status
    then record { upload = u; events = []; done = true }
    else record { upload = record u { status = some s }; events = s ∷ []; done = false }

-- `u.status` set to `s`, and the listener told.
abbrev pub notify : MultiUpload → UploadStatus → Bool → Outcome
notify u s done = record { upload = record u { status = some s }; events = s ∷ []; done = done }

abbrev pub unchanged : MultiUpload → Bool → Outcome
unchanged u done = record { upload = u; events = []; done = done }

canceled_from : Time → Text → Text → MultiUpload → UploadStatus → Outcome
canceled_from now code message u s =
    notify u (record s { state = canceled; status_code = code; message = message; end_time = now })
      false

-- The locked part of `cancel`.
unfoldable pub cancel_status : Time → Text → Text → MultiUpload → Outcome
unfolding canceled_from finished
cancel_status now code message u = elim u.status [
  | none ↦ canceled_from now code message u zero_status
  | some s ↦ if finished s then unchanged u true else canceled_from now code message u s
]

-- The locked part of `uploadFailed`.
unfoldable pub fail_status : Time → Text → MultiUpload → Outcome
unfolding finished
fail_status now err u = elim u.status [
  | none ↦ unchanged u true
  | some s ↦
      if finished s
      then unchanged u true
      else notify u (record s { state = failed; end_time = now; message = err }) false
]

module _ (f64 f32 : Float) where
  -- int((100 * float64(transferred)) / float64(size))
  abbrev pub progress_of : ℤ → ℤ → ℤ
  progress_of transferred size =
      f64.truncate
        (f64.div (f64.mul (f64.of_int (pos 100)) (f64.of_int transferred)) (f64.of_int size))

  -- int(100 * (float64(transferred) / float64(size)))
  abbrev pub finish_progress_of : ℤ → ℤ → ℤ
  finish_progress_of transferred size =
      f64.truncate
        (f64.mul (f64.of_int (pos 100)) (f64.div (f64.of_int transferred) (f64.of_int size)))

  -- int(100 * (float32(done) / float32(count)))
  abbrev pub count_progress_of : ℤ → ℤ → ℤ
  count_progress_of done count =
      f32.truncate (f32.mul (f32.of_int (pos 100)) (f32.div (f32.of_int done) (f32.of_int count)))

  -- `changeProgress`. `none` is the fault of a nil status.
  unfoldable pub change_progress : ℤ → MultiUpload → Option Outcome
  change_progress new_bytes u =
      let total = wrap (u.total_bytes_transferred +ℤ new_bytes) in
      let p = progress_of total u.total_size_bytes in
      if ℤ_beq u.total_size_bytes (pos 0)
      then some (unchanged u true)
      else if ℤ_beq u.total_size_bytes not_supported
      then some (unchanged u true)
      else (elim u.status [
        | none ↦ none
        | some s ↦
            let s' = record s { progress = p } in
            some (record {
              upload = record u { total_bytes_transferred = total; status = some s' };
              events = if ℤ_beq p s.progress then [] else s' ∷ [];
              done = false;
            })
      ])

  finished_from : Time → SingleUpload → MultiUpload → UploadStatus → Outcome
  finished_from now su u s =
      let remaining = length u.children in
      let total =
        wrap (u.total_bytes_transferred +ℤ wrap (su.total_size_bytes -ℤ su.bytes_transferred)) in
      if remaining == 0
      then notify u (record s { progress = pos 100; state = success; end_time = now }) true
      else if not (ℤ_beq u.total_size_bytes not_supported) && not (ℤ_beq u.total_size_bytes (pos 0))
      then notify (record u { total_bytes_transferred = total })
          (record s { progress = finish_progress_of total u.total_size_bytes }) false
      else notify u
          (record s {
            progress = count_progress_of (pos u.total_count -ℤ pos remaining) (pos u.total_count);
          })
          false

  -- The locked part of `uploadFinished`; `done` says that the upload is complete.
  unfoldable pub finish_status : Time → SingleUpload → MultiUpload → Option Outcome
  unfolding finished_from finished
  finish_status now su u = elim u.status [
    | none ↦ none
    | some s ↦ some (if finished s then unchanged u false else finished_from now su u s)
  ]
