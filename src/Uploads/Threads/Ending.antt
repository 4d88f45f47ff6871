-- ===== src/Uploads/Threads/Ending.antt =====
-- client/uploads.go: a step of a goroutine makes what it has still to do lighter.
use file_upload.Prelude.{ℕ, ◌+◌, ◌*◌, ◌<◌, length, ◌≡◌, refl, arith, Option, none, some, List}
use file_upload.Prelude.Text.{Text}
use file_upload.Prelude.Dict.{Dict}
use file_upload.Prelude.Int.{ℤ}
use file_upload.Prelude.Result.{Result}
use file_upload.Uploaders.{OptionError}
use file_upload.Uploads.Status.{Time}
use file_upload.Uploads.Multi
use file_upload.Uploads.Multi.{MultiUpload, Outcome, SingleUpload}
use file_upload.Uploads.Multi.Actions.{without_child}
use file_upload.Uploads.Multi.Floats.{Float}
use file_upload.Uploads.Heap.{Heap, commit, set_multi}
use file_upload.Uploads.Methods.{Attempt}
use file_upload.Uploads.Methods.Ending.{remove-frame}
use file_upload.Uploads.Threads.{
  Instruction, start, announce, open_path, report, change, upload_failed, upload_finished,
  upload_cancelled, fail, finish, cancel, leave, cancel_uploads, look_file, close_file, dispose,
  delete_file, exec, start_single, swap_started, or_fault, remove_child,
}
use file_upload.Uploads.Threads.Projection.{start_same, open_same, report_same, close_same}
use file_upload.Uploads.Threads.Weights.{
  AtMost, AtMost-same, AtMost-set, length-delete, weight, weights, weights-look_files,
  open_file_light, report_progress_light, look_light, close_down_light, complete_light,
}

module _ {ℓ} {U : Type ℓ} (f64 f32 : Float) (uploader : Dict Text → Text → Result OptionError U)
    (k : ℕ) where
  -- What a step that does not fault puts in front is lighter, and no upload gets more files.
  unfoldable pub IsLighterIf : Heap → ℕ → Option (Heap × List (Instruction f64 f32)) → Type 0
  IsLighterIf h w none = Unit
  IsLighterIf h w (some (g, more)) = (weights f64 f32 k more < w) × AtMost k g

  start_single_light :
      (a : ℕ) (now : Time) (options : Dict Text) (attempt : Attempt f64 f32) (h : Heap)
      → weights f64 f32 k (start_single f64 f32 uploader a now options attempt h).1
        < 2 * length attempt.reports + 2 * k + 17
  unfolding weights start_single swap_started
  start_single_light a now options attempt h = ground arith

  or_fault_light :
      (h : Heap) (w : ℕ) (made : Option Outcome)
      (f : Outcome → Heap → Heap × List (Instruction f64 f32))
      → ((o : Outcome) → made ≡ some o → (weights f64 f32 k (f o h).1 < w) × AtMost k (f o h).0)
      → IsLighterIf h w (or_fault f64 f32 made f h)
  unfolding or_fault IsLighterIf
  or_fault_light h w none f l = tt
  or_fault_light h w (some o) f l = l o refl

  start_children :
      (now : Time) (info : Dict Text) (u : MultiUpload)
      → (Multi.upload_started now info u).upload.children ≡ u.children
  unfolding Multi.upload_started
  start_children now info u = ground arith

  fail_children :
      (now : Time) (e : Text) (u : MultiUpload)
      → (Multi.fail_status now e u).upload.children ≡ u.children
  unfolding Multi.fail_status
  fail_children now e u = ground arith

  cancel_children_same :
      (now : Time) (code message : Text) (u : MultiUpload)
      → (Multi.cancel_status now code message u).upload.children ≡ u.children
  unfolding Multi.cancel_status
  cancel_children_same now code message u = ground arith

  change_children :
      (n : ℤ) (u : MultiUpload) (o : Outcome)
      → Multi.change_progress f64 f32 n u ≡ some o
      → o.upload.children ≡ u.children
  unfolding Multi.change_progress
  change_children n u o e = ground (arith, e)

  finish_children :
      (now : Time) (su : SingleUpload) (u : MultiUpload) (o : Outcome)
      → Multi.finish_status f64 f32 now su u ≡ some o
      → o.upload.children ≡ u.children
  unfolding Multi.finish_status
  finish_children now su u o e = ground (arith, e)

  AtMost-commit :
      (n : ℕ) (o : Outcome) (h : Heap)
      → o.upload.children ≡ (h.multis n).children
      → AtMost k h
      → AtMost k (commit n o h)
  AtMost-commit n o h same few = AtMost-set k n o.upload h (rw same (omega arith)) few

  AtMost-child :
      (n : ℕ) (id : Text) (h : Heap)
      → AtMost k h
      → AtMost k (set_multi n (without_child id (h.multis n)) h)
  unfolding without_child
  AtMost-child n id h few = AtMost-set k n _ h (length-delete id (h.multis n).children) few

  pub exec_light :
      (x : Instruction f64 f32) (h : Heap)
      → AtMost k h
      → IsLighterIf h (weight f64 f32 k x) (exec f64 f32 uploader x h)
  unfolding exec remove_child IsLighterIf weight weights
  exec_light (start a now options attempt) h few = (
    start_single_light a now options attempt h,
    AtMost-same k _ _ (start_same f64 f32 uploader a now options attempt h).0 few,
  )
  exec_light (announce a now info attempt) h few = (
    omega arith,
    AtMost-commit (h.singles a).parent
        (Multi.upload_started now info (h.multis (h.singles a).parent)) h
        (start_children now info (h.multis (h.singles a).parent)) few,
  )
  exec_light (open_path a now attempt) h few = (
    open_file_light f64 f32 k a now attempt h,
    AtMost-same k _ _ (open_same f64 f32 a now attempt h).0 few,
  )
  exec_light (report a n) h few =
      (report_progress_light f64 f32 k a n h, AtMost-same k _ _ (report_same f64 f32 a n h).0 few)
  exec_light (change m n) h few =
      or_fault_light h 1 (Multi.change_progress f64 f32 n (h.multis m)) _
        (λ o e. (omega arith, AtMost-commit m o h (change_children n (h.multis m) o e) few))
  exec_light (upload_failed a now e) h few = (omega arith, AtMost-child _ _ h few)
  exec_light (upload_finished a now) h few = (omega arith, AtMost-child _ _ h few)
  exec_light (upload_cancelled a now code message) h few = (omega arith, AtMost-child _ _ h few)
  exec_light (fail m now e) h few = (
    close_down_light f64 f32 k m (Multi.fail_status now e (h.multis m)) h,
    AtMost-commit m (Multi.fail_status now e (h.multis m)) h (fail_children now e (h.multis m)) few,
  )
  exec_light (finish a now) h few =
      let m = (h.singles a).parent in
      or_fault_light h 2 (Multi.finish_status f64 f32 now (h.singles a) (h.multis m)) _ (λ o e. (
        complete_light f64 f32 k m o h,
        AtMost-commit m o h (finish_children now (h.singles a) (h.multis m) o e) few,
      ))
  exec_light (cancel m now code message) h few = (
    close_down_light f64 f32 k m (Multi.cancel_status now code message (h.multis m)) h,
    AtMost-commit m (Multi.cancel_status now code message (h.multis m)) h
        (cancel_children_same now code message (h.multis m)) few,
  )
  exec_light (leave id) h few = (omega arith, AtMost-same k _ _ (remove-frame id h).0 few)
  exec_light (cancel_uploads m) h few =
      (omega (arith, weights-look_files f64 f32 k (h.multis m).children, few m), few)
  exec_light (look_file a) h few = (look_light f64 f32 k a h, few)
  exec_light (close_file a) h few = (omega arith, AtMost-same k _ _ (close_same f64 f32 a h).0 few)
  exec_light (dispose a) h few = (ground arith, few)
  exec_light (delete_file a) h few = (omega arith, few)
