-- ===== src/Uploads/Threads.antt =====
-- client/uploads.go: the methods of the uploads as goroutines that interleave. A goroutine is the list
-- of what it still has to do; each entry is a section under one mutex, or one access to an object
-- outside of them, and may put further entries in front of the others.
pub mod Frame
pub mod Ready
pub mod Safety
pub mod Projection
pub mod Refine
pub mod Leaving
pub mod Forgetting
pub mod Race
pub mod Weights
pub mod Ending
pub mod Termination
pub mod Once
mod Tests
use file_upload.Prelude.{ℕ, true, not, ◌&&◌, if◌then◌else◌, Option, none, some, List, [], ◌∷◌, ◌++◌}
use file_upload.Prelude.Text.{Text}
use file_upload.Prelude.Dict.{Dict}
use file_upload.Prelude.Int.{ℤ, pos, ◌-ℤ◌, ℤ_beq, wrap}
use file_upload.Prelude.Result.{Result, ok, err}
use file_upload.Uploads.Status.{Time}
use file_upload.Uploads.Multi
use file_upload.Uploads.Multi.{MultiUpload, Outcome, not_supported}
use file_upload.Uploads.Multi.Actions.{without_child}
use file_upload.Uploads.Multi.Floats.{Float}
use file_upload.Uploads.Heap.{Heap, update, set_multi, set_single, commit}
use file_upload.Uploads.Registry.{remove}
use file_upload.Uploads.Methods.{Attempt, cancel_at, set_file, info_prefix}
use file_upload.Uploaders.{OptionError, extract_dictionary}

module _ (f64 f32 : Float) where
  -- `start`: the choice of the uploader and the compare-and-swap. `announce`: `uploadStarted`. `open_path`:
  -- `os.Open` in the goroutine. `report`: `progressFunc`; `change`: `changeProgress`. `upload_failed`,
  -- `upload_finished` and `upload_cancelled` begin with the locked part of `removeChild`; `fail`,
  -- `finish` and `cancel` are the locked parts that follow. `leave`: `Uploads.Remove`.
  -- `cancel_uploads`: its locked part; `look_file` and `close_file`: the two parts of
  -- `internalCancel`. `dispose` and `delete_file`: the end of the goroutine.
  pub data Instruction : Type 0 where
    start : ℕ → Time → Dict Text → Attempt f64 f32 → Instruction
    announce : ℕ → Time → Dict Text → Attempt f64 f32 → Instruction
    open_path : ℕ → Time → Attempt f64 f32 → Instruction
    report : ℕ → ℤ → Instruction
    change : ℕ → ℤ → Instruction
    upload_failed : ℕ → Time → Text → Instruction
    upload_finished : ℕ → Time → Instruction
    upload_cancelled : ℕ → Time → Text → Text → Instruction
    fail : ℕ → Time → Text → Instruction
    finish : ℕ → Time → Instruction
    cancel : ℕ → Time → Text → Text → Instruction
    leave : Text → Instruction
    cancel_uploads : ℕ → Instruction
    look_file close_file dispose delete_file : ℕ → Instruction

  -- `SingleUpload.cancel` of the file at `a`.
  unfoldable pub cancel_single : ℕ → Time → Text → Text → List Instruction
  cancel_single a now code message = look_file a ∷ upload_cancelled a now code message ∷ []

  unfoldable pub report_all : ℕ → List ℤ → List Instruction
  report_all a [] = []
  report_all a (n ∷ ns) = report a n ∷ report_all a ns

  -- The loop of `cancelUploads`.
  unfoldable pub look_files : Dict ℕ → List Instruction
  look_files [] = []
  look_files ((id, a) ∷ rest) = look_file a ∷ look_files rest

  -- What the goroutine does when the uploader has returned.
  unfoldable pub after_upload : ℕ → Time → Result Text (Unit {0}) → List Instruction
  after_upload a now (err e) = upload_failed a now e ∷ close_file a ∷ []
  after_upload a now (ok _) = upload_finished a now ∷ dispose a ∷ close_file a ∷ []

  -- A section under the mutex of the upload at `m`, and what follows it.
  abbrev pub locked : ℕ → Outcome → List Instruction → Heap → Heap × List Instruction
  locked m o next h = (commit m o h, next)

  -- `cancel` and `fail` go on if they are not done, and `finish` if it is.
  unfoldable pub close_down : ℕ → Outcome → Heap → Heap × List Instruction
  close_down m o h =
      locked m o (if o.done then [] else cancel_uploads m ∷ leave o.upload.correlation_id ∷ []) h

  unfoldable pub complete : ℕ → Outcome → Heap → Heap × List Instruction
  complete m o h = locked m o (if o.done then leave o.upload.correlation_id ∷ [] else []) h

  -- The locked part of `removeChild` for the file at `a`, its deferred `Remove`, and what follows.
  unfoldable pub remove_child : ℕ → Instruction → Heap → Heap × List Instruction
  unfolding without_child
  remove_child a next h =
      let su = h.singles a in
      (
        set_multi su.parent (without_child su.correlation_id (h.multis su.parent)) h,
        leave su.correlation_id ∷ next ∷ [],
      )

  unfoldable pub report_progress : ℕ → ℤ → Heap → Heap × List Instruction
  report_progress a n h =
      let su = h.singles a in
      let moved = wrap (n -ℤ su.bytes_transferred) in
      if ℤ_beq (h.multis su.parent).total_size_bytes not_supported
      then (h, [])
      else if ℤ_beq su.total_size_bytes (pos 0) && not (ℤ_beq n (pos 0))
      then (h, [])
      else if ℤ_beq su.bytes_transferred n
      then (h, [])
      else (
        set_single a (record su { bytes_transferred = n }) h,
        if ℤ_beq moved (pos 0) then [] else change su.parent moved ∷ [],
      )

  unfoldable pub open_file : ℕ → Time → Attempt f64 f32 → Heap → Heap × List Instruction
  unfolding report_all after_upload
  open_file a now attempt h = elim attempt.opened [
    | err e ↦ (h, upload_failed a now e ∷ [])
    | ok _ ↦ (
      set_file f64 f32 a true h,
      report_all a attempt.reports ++ after_upload a now attempt.outcome,
    )
  ]

  unfoldable pub look : ℕ → Heap → List Instruction
  look a h = elim (h.singles a).file [ none ↦ [] | some still_open ↦ close_file a ∷ [] ]

  -- A step that may meet a nil status.
  unfoldable pub or_fault :
      Option Outcome
      → (Outcome → Heap → Heap × List Instruction)
      → Heap
      → Option (Heap × List Instruction)
  or_fault none k h = none
  or_fault (some o) k h = some (k o h)

  module _ {ℓ} {U : Type ℓ} (uploader : Dict Text → Text → Result OptionError U) where
    unfoldable pub swap_started :
        ℕ → Time → Dict Text → Attempt f64 f32 → Heap → Heap × List Instruction
    swap_started a now options attempt h =
        let su = h.singles a in
        if su.started then (h, []) else (
          set_single a (record su { started = true }) h,
          announce a now (extract_dictionary options info_prefix) attempt ∷ [],
        )

    unfoldable pub start_single :
        ℕ → Time → Dict Text → Attempt f64 f32 → Heap → Heap × List Instruction
    unfolding swap_started
    start_single a now options attempt h =
        elim (uploader options (h.multis (h.singles a).parent).server_cert) [
          | err e ↦ (h, [])
          | ok u ↦ swap_started a now options attempt h
        ]

    -- One entry of a goroutine: the objects after it, and what it puts in front of the others.
    -- `none` is the fault of a nil status.
    unfoldable pub exec : Instruction → Heap → Option (Heap × List Instruction)
    unfolding start_single open_file report_progress remove_child close_down complete look
        look_files or_fault
    exec (start a now options attempt) h = some (start_single a now options attempt h)
    exec (announce a now info attempt) h =
        let m = (h.singles a).parent in
        some
          (locked m (Multi.upload_started now info (h.multis m)) (open_path a now attempt ∷ []) h)
    exec (open_path a now attempt) h = some (open_file a now attempt h)
    exec (report a n) h = some (report_progress a n h)
    exec (change m n) h =
        or_fault (Multi.change_progress f64 f32 n (h.multis m)) (λ o. locked m o []) h
    exec (upload_failed a now e) h = some (remove_child a (fail (h.singles a).parent now e) h)
    exec (upload_finished a now) h = some (remove_child a (finish a now) h)
    exec (upload_cancelled a now code message) h =
        some (remove_child a (cancel (h.singles a).parent now code message) h)
    exec (fail m now e) h = some (close_down m (Multi.fail_status now e (h.multis m)) h)
    exec (finish a now) h =
        let m = (h.singles a).parent in
        or_fault (Multi.finish_status f64 f32 now (h.singles a) (h.multis m)) (complete m) h
    exec (cancel m now code message) h =
        some (close_down m (Multi.cancel_status now code message (h.multis m)) h)
    exec (leave id) h = some (remove id h, [])
    exec (cancel_uploads m) h = some (h, look_files (h.multis m).children)
    exec (look_file a) h = some (h, look a h)
    exec (close_file a) h = some (cancel_at a h, [])
    exec (dispose a) h = some (
      h,
      if (h.multis (h.singles a).parent).delete_uploaded
          then close_file a ∷ delete_file a ∷ []
          else [],
    )
    exec (delete_file a) h =
        some (record h { deleted = h.deleted ++ ((h.singles a).file_path ∷ []) }, [])

    -- The objects, and what each goroutine still has to do.
    pub record Machine : Type 0 where
      pub heap : Heap
      pub rest : ℕ → List Instruction

    -- The goroutine `i` after a step, which has `xs` still to do after what the step puts in front.
    unfoldable pub go_on :
        ℕ → List Instruction → Machine → Option (Heap × List Instruction) → Option Machine
    unfolding update
    go_on i xs m none = none
    go_on i xs m (some (h, more)) = some (record { heap = h; rest = update m.rest i (more ++ xs) })

    unfoldable pub resume : ℕ → List Instruction → Machine → Option Machine
    unfolding exec go_on
    resume i [] m = some m
    resume i (x ∷ xs) m = go_on i xs m (exec x m.heap)

    -- The goroutines take their steps in the order of the list. One that is at its end does nothing.
    unfoldable pub run : List ℕ → Machine → Option Machine
    unfolding resume
    run [] m = some m
    run (i ∷ turns) m = elim (resume i (m.rest i) m) [ none ↦ none | some n ↦ run turns n ]
