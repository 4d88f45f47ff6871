-- ===== src/Uploads/Threads/Ready.antt =====
-- client/uploads.go: a step of a goroutine does not meet a nil status.
use file_upload.Prelude.{
  ℕ, ◌≡◌, refl, Bool, true, false, none, some, List, [], ◌∷◌, arith, inl, inr, Option,
  if◌then◌else◌, not, ◌&&◌, Option-cases,
}
use mathlib.Core.Path.{subst, sym}
use file_upload.Prelude.Text.{Text}
use file_upload.Prelude.Dict.{Dict}
use file_upload.Prelude.Int.{◌-ℤ◌, wrap, ℤ, pos, ℤ_beq}
use file_upload.Prelude.Result.{Result, ok, err, Result-cases}
use file_upload.Uploaders.{OptionError}
use file_upload.Uploads.Status.{Time, UploadStatus}
use file_upload.Uploads.Multi
use file_upload.Uploads.Multi.{SingleUpload, MultiUpload, Outcome, not_supported}
use file_upload.Uploads.Multi.Finality.{Each, Each-concat}
use file_upload.Uploads.Multi.Floats.{Float}
use file_upload.Uploads.Heap.{Upload, single, multi, Heap, update, commit}
use file_upload.Uploads.Methods.{Attempt}
use file_upload.Uploads.Methods.NoFault.{change_progress_total}
use file_upload.Uploads.Methods.Finishing.{finish_status_total}
use file_upload.Uploads.Consistency.{has_status}
use file_upload.Uploads.Consistency.Steps.{upload_started_keeps}
use file_upload.Uploads.Threads.Frame.{FrameIf, Frame, exec-FrameIf}
use file_upload.Uploads.Threads.{
  Instruction, start, announce, open_path, report, change, upload_failed, upload_finished,
  upload_cancelled, fail, finish, cancel, leave, cancel_uploads, look_file, close_file, dispose,
  delete_file, look, look_files, exec, start_single, swap_started, open_file, report_progress,
  or_fault, remove_child, close_down, complete, report_all, after_upload,
}

-- The upload, or that of a file, has a status, if one is named.
abbrev pub has_needed : Option Upload → Heap → Bool
has_needed none h = true
has_needed (some (multi m)) h = has_status (h.multis m)
has_needed (some (single a)) h = has_status (h.multis (h.singles a).parent)

has_needed-Frame :
    (u : Option Upload) {h g : Heap} → Frame h g → has_needed u h ≡ true → has_needed u g ≡ true
has_needed-Frame none f e = refl
has_needed-Frame (some (multi m)) f e = f.statuses m e
has_needed-Frame (some (single a)) f e = rw (f.parents a) (f.statuses _ e)

status_of : (u : MultiUpload) → has_status u ≡ true → (s : UploadStatus) × (u.status ≡ some s)
status_of u e = elim (Option-cases u.status) [
  | inl q ↦ absurd (ground (arith, e, q))
  | inr found ↦ found
]

module _ (f64 f32 : Float) where
  -- What an entry needs to have a status.
  abbrev pub needs : Instruction f64 f32 → Option Upload
  needs (open_path a now attempt) = some (single a)
  needs (report a n) = some (single a)
  needs (change m n) = some (multi m)
  needs (upload_finished a now) = some (single a)
  needs (finish a now) = some (single a)
  needs _ = none

  -- Each entry of a goroutine finds the status that it needs.
  abbrev pub IsReady : Heap → List (Instruction f64 f32) → Type 0
  IsReady h xs = Each (λ x. has_needed (needs x) h ≡ true) xs

  pub IsReady-Frame :
      {h g : Heap} (xs : List (Instruction f64 f32)) → Frame h g → IsReady h xs → IsReady g xs
  IsReady-Frame [] f r = tt
  IsReady-Frame (x ∷ xs) f (r, rs) = (has_needed-Frame (needs x) f r, IsReady-Frame xs f rs)

  report_all-IsReady :
      (a : ℕ) (ns : List ℤ) (h : Heap)
      → has_status (h.multis (h.singles a).parent) ≡ true
      → IsReady h (report_all f64 f32 a ns)
  unfolding report_all
  report_all-IsReady a [] h e = tt
  report_all-IsReady a (n ∷ ns) h e = (e, report_all-IsReady a ns h e)

  after_upload-IsReady :
      (a : ℕ) (now : Time) (outcome : Result Text (Unit {0})) (h : Heap)
      → has_status (h.multis (h.singles a).parent) ≡ true
      → IsReady h (after_upload f64 f32 a now outcome)
  unfolding after_upload
  after_upload-IsReady a now (err x) h e = (refl, (refl, tt))
  after_upload-IsReady a now (ok u) h e = (e, (refl, (refl, tt)))

  look_files-IsReady : (d : Dict ℕ) (h : Heap) → IsReady h (look_files f64 f32 d)
  unfolding look_files
  look_files-IsReady [] h = tt
  look_files-IsReady ((id, a) ∷ d) h = (refl, look_files-IsReady d h)

  look-IsReady : (a : ℕ) (h : Heap) → IsReady h (look f64 f32 a h)
  unfolding look
  look-IsReady a h = elim (Option-cases (h.singles a).file) [
    | inl e ↦ rw (e, look) tt
    | inr (b, e) ↦ rw (e, look) (refl, tt)
  ]

  if-IsReady :
      (b : Bool) (xs ys : List (Instruction f64 f32)) (h : Heap)
      → IsReady h xs
      → IsReady h ys
      → IsReady h (if b then xs else ys)
  if-IsReady true xs ys h p q = p
  if-IsReady false xs ys h p q = q

  pair-IsReady :
      (h : Heap) (b : Bool) (p q : Heap × List (Instruction f64 f32))
      → IsReady h p.1
      → IsReady h q.1
      → IsReady h (if b then p else q).1
  pair-IsReady h true p q first second = first
  pair-IsReady h false p q first second = second

  open_file-IsReady :
      (a : ℕ) (now : Time) (attempt : Attempt f64 f32) (h : Heap)
      → has_status (h.multis (h.singles a).parent) ≡ true
      → IsReady h (open_file f64 f32 a now attempt h).1
  unfolding open_file
  open_file-IsReady a now attempt h e = elim (Result-cases attempt.opened) [
    | inl (u, q) ↦
        rw (q, open_file)
          (Each-concat (λ x. has_needed (needs x) h ≡ true) (report_all f64 f32 a attempt.reports) _
            (report_all-IsReady a attempt.reports h e)
            (after_upload-IsReady a now attempt.outcome h e))
    | inr (x, q) ↦ rw (q, open_file) (refl, tt)
  ]

  report_progress-IsReady :
      (a : ℕ) (n : ℤ) (h : Heap)
      → has_status (h.multis (h.singles a).parent) ≡ true
      → IsReady h (report_progress f64 f32 a n h).1
  unfolding report_progress
  report_progress-IsReady a n h e =
      let su = h.singles a in
      pair-IsReady h (ℤ_beq (h.multis su.parent).total_size_bytes not_supported) _ _ tt (
        pair-IsReady h (ℤ_beq su.total_size_bytes (pos 0) && not (ℤ_beq n (pos 0))) _ _ tt (
          pair-IsReady h (ℤ_beq su.bytes_transferred n) _ _ tt
            (if-IsReady (ℤ_beq (wrap (n -ℤ su.bytes_transferred)) (pos 0)) _ _ h tt (e, tt))))

  module _ {ℓ} {U : Type ℓ} (uploader : Dict Text → Text → Result OptionError U) where
    start_single-IsReady :
        (a : ℕ) (now : Time) (options : Dict Text) (attempt : Attempt f64 f32) (h : Heap)
        → IsReady h (start_single f64 f32 uploader a now options attempt h).1
    unfolding start_single swap_started
    start_single-IsReady a now options attempt h =
        elim (Result-cases (uploader options (h.multis (h.singles a).parent).server_cert)) [
          | inl (u, e) ↦
              rw (e, start_single) (pair-IsReady h (h.singles a).started _ _ tt (refl, tt))
          | inr (x, e) ↦ rw (e, start_single) tt
        ]

    -- A step that does not fault: what it leaves alone, and that what it puts in front is ready.
    abbrev Steps : Heap → Option (Heap × List (Instruction f64 f32)) → Type 0
    Steps h o =
        (g : Heap) × (more : List (Instruction f64 f32)) × (o ≡ some (g, more)) × IsReady h more

    or_fault-Steps :
        (o : Outcome) (made : Option Outcome)
        (k : Outcome → Heap → Heap × List (Instruction f64 f32)) (h : Heap)
        → made ≡ some o
        → ((p : Outcome) → IsReady h (k p h).1)
        → Steps h (or_fault f64 f32 made k h)
    unfolding or_fault
    or_fault-Steps o none k h e r = absurd (ground (arith, e))
    or_fault-Steps o (some p) k h e r = ((k p h).0, (k p h).1, refl, r p)

    close_down-IsReady : (m : ℕ) (o : Outcome) (h : Heap) → IsReady h (close_down f64 f32 m o h).1
    unfolding close_down
    close_down-IsReady m o h = if-IsReady o.done _ _ h tt (refl, (refl, tt))

    complete-IsReady : (m : ℕ) (o : Outcome) (h : Heap) → IsReady h (complete f64 f32 m o h).1
    unfolding complete
    complete-IsReady m o h = if-IsReady o.done _ _ h (refl, tt) tt

    -- A step that does not fault and leaves alone what `Frame` says, and the goroutine is ready.
    abbrev pub Goes : Heap → Option (Heap × List (Instruction f64 f32)) → Type 0
    Goes h o =
        (g : Heap) × (more : List (Instruction f64 f32)) × (o ≡ some (g, more))
        × IsReady g more
        × Frame h g

    IsReady-some :
        (h : Heap) {p q : Heap × List (Instruction f64 f32)}
        → some p ≡ some q
        → IsReady h q.1
        → IsReady h p.1
    IsReady-some h e r = subst (λ o. IsReady h (more_of o)) (sym e) r
      where
        more_of : Option (Heap × List (Instruction f64 f32)) → List (Instruction f64 f32)
        more_of none = []
        more_of (some s) = s.1

    Steps-Goes :
        (h : Heap) (o : Option (Heap × List (Instruction f64 f32)))
        → FrameIf f64 f32 uploader h o
        → Steps h o
        → Goes h o
    Steps-Goes h none f (g, more, e, r) = absurd (ground (arith, e))
    Steps-Goes h (some (g, more)) f (g', more', e, r) =
        (g, more, refl, IsReady-Frame more f (IsReady-some h e r), f)

    change-Steps :
        (m : ℕ) (n : ℤ) (h : Heap)
        → has_status (h.multis m) ≡ true
        → Steps h (exec f64 f32 uploader (change m n) h)
    unfolding exec
    change-Steps m n h e =
        let (s, q) = status_of (h.multis m) e in
        let (o, t, made, status) = change_progress_total f64 f32 n (h.multis m) s q in
        or_fault-Steps o _ _ h made (λ p. tt)

    finish-Steps :
        (a : ℕ) (now : Time) (h : Heap)
        → has_status (h.multis (h.singles a).parent) ≡ true
        → Steps h (exec f64 f32 uploader (finish a now) h)
    unfolding exec
    finish-Steps a now h e =
        let u = h.multis (h.singles a).parent in
        let (s, q) = status_of u e in
        let (o, made) = finish_status_total f64 f32 now (h.singles a) u s q in
        or_fault-Steps o _ _ h made (λ p. complete-IsReady (h.singles a).parent p h)

    Steps-some :
        {h : Heap} (p : Heap × List (Instruction f64 f32)) → IsReady h p.1 → Steps h (some p)
    Steps-some (g, more) r = (g, more, refl, r)

    Goes-Steps :
        (x : Instruction f64 f32) (h : Heap)
        → Steps h (exec f64 f32 uploader x h)
        → Goes h (exec f64 f32 uploader x h)
    Goes-Steps x h s =
        Steps-Goes h (exec f64 f32 uploader x h) (exec-FrameIf f64 f32 uploader x h) s

    announce-Goes :
        (a : ℕ) (now : Time) (info : Dict Text) (attempt : Attempt f64 f32) (h : Heap)
        → Goes h (exec f64 f32 uploader (announce a now info attempt) h)
    unfolding exec update
    announce-Goes a now info attempt h =
        let m = (h.singles a).parent in
        (
          commit m (Multi.upload_started now info (h.multis m)) h,
          open_path a now attempt ∷ [],
          refl,
          (ground (arith, (upload_started_keeps uploader now info (h.multis m)).1), tt),
          exec-FrameIf f64 f32 uploader (announce a now info attempt) h,
        )

    pub exec-Goes :
        (x : Instruction f64 f32) (h : Heap)
        → has_needed (needs x) h ≡ true
        → Goes h (exec f64 f32 uploader x h)
    unfolding exec remove_child
    exec-Goes (start a now options attempt) h e =
        Goes-Steps (start a now options attempt) h
          (Steps-some _ (start_single-IsReady a now options attempt h))
    exec-Goes (announce a now info attempt) h e = announce-Goes a now info attempt h
    exec-Goes (open_path a now attempt) h e =
        Goes-Steps (open_path a now attempt) h (Steps-some _ (open_file-IsReady a now attempt h e))
    exec-Goes (report a n) h e =
        Goes-Steps (report a n) h (Steps-some _ (report_progress-IsReady a n h e))
    exec-Goes (change m n) h e = Goes-Steps (change m n) h (change-Steps m n h e)
    exec-Goes (upload_failed a now x) h e =
        Goes-Steps (upload_failed a now x) h (Steps-some _ (refl, (refl, tt)))
    exec-Goes (upload_finished a now) h e =
        Goes-Steps (upload_finished a now) h (Steps-some _ (refl, (e, tt)))
    exec-Goes (upload_cancelled a now code message) h e =
        Goes-Steps (upload_cancelled a now code message) h (Steps-some _ (refl, (refl, tt)))
    exec-Goes (fail m now x) h e =
        Goes-Steps (fail m now x) h
          (Steps-some _ (close_down-IsReady m (Multi.fail_status now x (h.multis m)) h))
    exec-Goes (finish a now) h e = Goes-Steps (finish a now) h (finish-Steps a now h e)
    exec-Goes (cancel m now code message) h e =
        Goes-Steps (cancel m now code message) h (
          Steps-some _ (close_down-IsReady m (Multi.cancel_status now code message (h.multis m)) h))
    exec-Goes (leave id) h e = Goes-Steps (leave id) h (Steps-some _ tt)
    exec-Goes (cancel_uploads m) h e =
        Goes-Steps (cancel_uploads m) h (Steps-some _ (look_files-IsReady (h.multis m).children h))
    exec-Goes (look_file a) h e = Goes-Steps (look_file a) h (Steps-some _ (look-IsReady a h))
    exec-Goes (close_file a) h e = Goes-Steps (close_file a) h (Steps-some _ tt)
    exec-Goes (dispose a) h e = Goes-Steps (dispose a) h (
        Steps-some _ (
          if-IsReady ((h.multis (h.singles a).parent).delete_uploaded) _ [] h (refl, (refl, tt))
            tt))
    exec-Goes (delete_file a) h e = Goes-Steps (delete_file a) h (Steps-some _ tt)
