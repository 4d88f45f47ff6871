-- ===== src/Uploads/Threads/Once.antt =====
-- client/uploads.go: the compare-and-swap of `start`, among all goroutines.
use file_upload.Prelude.{
  ℕ, ◌+◌, ◌≤◌, ◌++◌, ◌≡◌, eqb, eqb_iff, Bool-cases, refl, arith, inl, inr, Option, none, some, List,
  [], ◌∷◌, if◌then◌else◌, Option-cases, true,
}
use mathlib.Core.Path.{subst}
use file_upload.Prelude.Text.{Text}
use file_upload.Prelude.Dict.{Dict}
use file_upload.Prelude.Int.{ℤ}
use file_upload.Prelude.Result.{Result, ok, err, Result-cases}
use file_upload.Uploaders.{OptionError}
use file_upload.Uploads.Status.{Time}
use file_upload.Uploads.Multi.{Outcome, SingleUpload}
use file_upload.Uploads.Multi.Floats.{Float}
use file_upload.Uploads.Heap.{Heap, update, set_single}
use file_upload.Uploads.Methods.{Attempt, cancel_at, internal_cancel}
use file_upload.Uploads.Methods.Ending.{remove-frame}
use file_upload.Uploads.Threads.{
  Instruction, start, announce, open_path, report, change, upload_failed, upload_finished,
  upload_cancelled, fail, finish, cancel, leave, cancel_uploads, look_file, close_file, dispose,
  delete_file, Machine, resume, go_on, exec, start_single, swap_started, open_file, report_all,
  after_upload, report_progress, or_fault, remove_child, close_down, complete, look, look_files,
}

-- 1 if the file at an address was started, else 0.
abbrev pub flag : ℕ → Heap → ℕ
flag a h = if (h.singles a).started then 1 else 0

flag_bound : (a : ℕ) (h : Heap) → flag a h ≤ 1
flag_bound a h = ground arith

-- A step that keeps the flag of the file it sets keeps all of them.
flag-set_single :
    (a b : ℕ) (su : SingleUpload) (h : Heap)
    → su.started ≡ (h.singles b).started
    → flag a (set_single b su h) ≡ flag a h
unfolding update
flag-set_single a b su h same = elim (Bool-cases (eqb a b)) [
  | inl e ↦ rw (e, same, (eqb_iff a b).0 e) refl
  | inr e ↦ rw e refl
]

cancel_at-flag : (a b : ℕ) (h : Heap) → flag a (cancel_at b h) ≡ flag a h
unfolding cancel_at internal_cancel
cancel_at-flag a b h = flag-set_single a b (internal_cancel (h.singles b)).0 h (ground arith)

module _ (f64 f32 : Float) (a : ℕ) where
  -- How often a list of entries tells the upload that the file at `a` is started.
  abbrev pub announces : List (Instruction f64 f32) → ℕ
  announces [] = 0
  announces (announce b now info attempt ∷ rest) =
      if eqb a b then 1 + announces rest else announces rest
  announces (_ ∷ rest) = announces rest

  announces-report_all :
      (b : ℕ) (ns : List ℤ) (rest : List (Instruction f64 f32))
      → announces (report_all f64 f32 b ns ++ rest) ≡ announces rest
  unfolding report_all
  announces-report_all b [] rest = refl
  announces-report_all b (n ∷ ns) rest = announces-report_all b ns rest

  announces-after_upload :
      (b : ℕ) (now : Time) (o : Result Text (Unit {0}))
      → announces (after_upload f64 f32 b now o) ≡ 0
  unfolding after_upload
  announces-after_upload b now (ok u) = refl
  announces-after_upload b now (err e) = refl

  announces-look_files : (files : Dict ℕ) → announces (look_files f64 f32 files) ≡ 0
  unfolding look_files
  announces-look_files [] = refl
  announces-look_files ((id, b) ∷ rest) = announces-look_files rest

  -- A step that does not fault keeps the flag, and announces the file only if it sets it.
  unfoldable pub IsOnceIf : Heap → Option (Heap × List (Instruction f64 f32)) → Type 0
  IsOnceIf h none = Unit
  IsOnceIf h (some (g, more)) = flag a h + announces more ≤ flag a g

  open_file-once :
      (b : ℕ) (now : Time) (attempt : Attempt f64 f32) (h : Heap)
      → IsOnceIf h (some (open_file f64 f32 b now attempt h))
  unfolding open_file IsOnceIf
  open_file-once b now attempt h = elim (Result-cases attempt.opened) [
    | inl (u, e) ↦
        rw
          (
            e,
            announces-report_all b attempt.reports (after_upload f64 f32 b now attempt.outcome),
            announces-after_upload b now attempt.outcome,
            flag-set_single a b (record (h.singles b) { file = some true }) h refl,
          )
          (omega arith)
    | inr (x, e) ↦ rw e (omega arith)
  ]

  report_progress-once :
      (b : ℕ) (n : ℤ) (h : Heap) → IsOnceIf h (some (report_progress f64 f32 b n h))
  unfolding report_progress IsOnceIf
  report_progress-once b n h =
      let same = flag-set_single a b (record (h.singles b) { bytes_transferred = n }) h refl in
      ground (arith, same)

  or_fault-once :
      (o : Option Outcome) (k : Outcome → Heap → Heap × List (Instruction f64 f32)) (h : Heap)
      → ((p : Outcome) → IsOnceIf h (some (k p h)))
      → IsOnceIf h (or_fault f64 f32 o k h)
  unfolding or_fault IsOnceIf
  or_fault-once none k h f = tt
  or_fault-once (some o) k h f = f o

  module _ {ℓ} {U : Type ℓ} (uploader : Dict Text → Text → Result OptionError U) where
    start_single-once :
        (b : ℕ) (now : Time) (options : Dict Text) (attempt : Attempt f64 f32) (h : Heap)
        → IsOnceIf h (some (start_single f64 f32 uploader b now options attempt h))
    unfolding start_single swap_started IsOnceIf update
    start_single-once b now options attempt h = ground (arith, eqb_iff a b)

    exec-once : (x : Instruction f64 f32) (h : Heap) → IsOnceIf h (exec f64 f32 uploader x h)
    unfolding exec remove_child close_down complete look IsOnceIf
    exec-once (start b now options attempt) h = start_single-once b now options attempt h
    exec-once (announce b now info attempt) h = omega arith
    exec-once (open_path b now attempt) h = open_file-once b now attempt h
    exec-once (report b n) h = report_progress-once b n h
    exec-once (change m n) h = or_fault-once _ _ h (λ o. omega arith)
    exec-once (upload_failed b now e) h = omega arith
    exec-once (upload_finished b now) h = omega arith
    exec-once (upload_cancelled b now code message) h = omega arith
    exec-once (fail m now e) h = ground arith
    exec-once (finish b now) h = or_fault-once _ _ h (λ o. ground arith)
    exec-once (cancel m now code message) h = ground arith
    exec-once (leave id) h = rw (remove-frame id h).1 (omega arith)
    exec-once (cancel_uploads m) h = rw (announces-look_files (h.multis m).children) (omega arith)
    exec-once (look_file b) h = ground arith
    exec-once (close_file b) h = rw (cancel_at-flag a b h) (omega arith)
    exec-once (dispose b) h = ground arith
    exec-once (delete_file b) h = omega arith

    -- How often a goroutine comes to start the upload of the file at `a` when it takes a step.
    abbrev pub begun : List (Instruction f64 f32) → Heap → ℕ
    begun [] h = 0
    begun (x ∷ xs) h = elim (exec f64 f32 uploader x h) [
      | none ↦ 0
      | some (g, more) ↦ announces more
    ]

    -- How often that happens in a run.
    abbrev pub starts : List ℕ → Machine f64 f32 uploader → ℕ
    starts [] m = 0
    starts (i ∷ turns) m =
        begun (m.rest i) m.heap
        + elim (resume f64 f32 uploader i (m.rest i) m) [ none ↦ 0 | some n ↦ starts turns n ]

    resume-once :
        (i : ℕ) (todo : List (Instruction f64 f32)) (m n : Machine f64 f32 uploader)
        → resume f64 f32 uploader i todo m ≡ some n
        → flag a m.heap + begun todo m.heap ≤ flag a n.heap
    unfolding resume go_on IsOnceIf
    resume-once i [] m n h = ground (arith, h)
    resume-once i (x ∷ xs) m n h = elim (Option-cases (exec f64 f32 uploader x m.heap)) [
      | inl e ↦ cc (rw (e, resume) at h)
      | inr ((g, more), e) ↦
          let once : IsOnceIf m.heap (some (g, more)) =
            subst (IsOnceIf m.heap) e (exec-once x m.heap) in
          rw (e, begun) (ground (arith, h, e, once))
    ]

    begun_fault :
        (i : ℕ) (todo : List (Instruction f64 f32)) (m : Machine f64 f32 uploader)
        → resume f64 f32 uploader i todo m ≡ none
        → begun todo m.heap ≡ 0
    unfolding resume go_on
    begun_fault i [] m h = refl
    begun_fault i (x ∷ xs) m h = elim (Option-cases (exec f64 f32 uploader x m.heap)) [
      | inl e ↦ rw (e, begun) refl
      | inr ((g, more), e) ↦ cc (rw (e, resume) at h)
    ]

    -- In whatever order any goroutines take their steps, and whatever they do, the upload of a file
    -- is started at most once, and never if the file was started before.
    pub starts_once :
        (turns : List ℕ) (m : Machine f64 f32 uploader) → flag a m.heap + starts turns m ≤ 1
    starts_once [] m = ground (arith, flag_bound a m.heap)
    starts_once (i ∷ turns) m = elim (Option-cases (resume f64 f32 uploader i (m.rest i) m)) [
      | inl e ↦
          let zero_begun = begun_fault i (m.rest i) m e in
          rw (e, zero_begun) (ground (arith, flag_bound a m.heap))
      | inr (n, e) ↦
          let now = resume-once i (m.rest i) m n e in
          let later = starts_once turns n in rw e (omega (arith, now, later))
    ]
