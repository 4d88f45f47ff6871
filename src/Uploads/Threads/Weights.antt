-- ===== src/Uploads/Threads/Weights.antt =====
-- client/uploads.go: how many steps a goroutine takes at most.
use file_upload.Prelude.{
  ℕ, ◌+◌, ◌*◌, ◌≤◌, ◌<◌, length, ◌++◌, ◌≡◌, sym, refl, arith, inl, inr, List, [], ◌∷◌,
}
use mathlib.Core.Path.{subst}
use file_upload.Prelude.Text.{Text}
use file_upload.Prelude.Dict.{Dict, delete}
use file_upload.Prelude.Int.{ℤ}
use file_upload.Prelude.Result.{Result, ok, err, Result-cases}
use file_upload.Uploads.Status.{Time}
use file_upload.Uploads.Multi.{MultiUpload, Outcome}
use file_upload.Uploads.Multi.Floats.{Float}
use file_upload.Uploads.Heap.{Heap, update, set_multi}
use file_upload.Uploads.Methods.{Attempt}
use file_upload.Uploads.Threads.{
  Instruction, start, announce, open_path, report, change, upload_failed, upload_finished,
  upload_cancelled, fail, finish, cancel, leave, cancel_uploads, look_file, close_file, dispose,
  delete_file, look, look_files, open_file, report_progress, close_down, complete, report_all,
  after_upload,
}

-- No upload has more than `k` files left.
abbrev pub AtMost : ℕ → Heap → Type 0
AtMost k h = (m : ℕ) → length (h.multis m).children ≤ k

pub length-delete : (id : Text) (d : Dict ℕ) → length (delete id d) ≤ length d
unfolding delete
length-delete id [] = omega arith
length-delete id ((j, a) ∷ d) = let ih = length-delete id d in ground (arith, ih)

pub AtMost-same :
    (k : ℕ) (f g : ℕ → MultiUpload)
    → g ≡ f
    → ((m : ℕ) → length (f m).children ≤ k)
    → (m : ℕ) → length (g m).children ≤ k
AtMost-same k f g same few m = subst (λ i. length (i m).children ≤ k) (sym same) (few m)

pub AtMost-set :
    (k n : ℕ) (u : MultiUpload) (h : Heap)
    → length u.children ≤ length (h.multis n).children
    → AtMost k h
    → AtMost k (set_multi n u h)
unfolding update
AtMost-set k n u h le few m = ground (arith, le, few m, few n)

module _ (f64 f32 : Float) (k : ℕ) where
  -- An entry weighs more than all that it puts in front.
  unfoldable pub weight : Instruction f64 f32 → ℕ
  weight (start a now options attempt) = 2 * length attempt.reports + 2 * k + 17
  weight (announce a now info attempt) = 2 * length attempt.reports + 2 * k + 16
  weight (open_path a now attempt) = 2 * length attempt.reports + 2 * k + 15
  weight (report a n) = 2
  weight (change m n) = 1
  weight (upload_failed a now e) = 2 * k + 5
  weight (upload_finished a now) = 4
  weight (upload_cancelled a now code message) = 2 * k + 5
  weight (fail m now e) = 2 * k + 3
  weight (finish a now) = 2
  weight (cancel m now code message) = 2 * k + 3
  weight (leave id) = 1
  weight (cancel_uploads m) = 2 * k + 1
  weight (look_file a) = 2
  weight (close_file a) = 1
  weight (dispose a) = 3
  weight (delete_file a) = 1

  -- The steps that a goroutine takes at most.
  unfoldable pub weights : List (Instruction f64 f32) → ℕ
  unfolding weight
  weights [] = 0
  weights (x ∷ xs) = weight x + weights xs

  pub weights-concat :
      (xs ys : List (Instruction f64 f32)) → weights (xs ++ ys) ≡ weights xs + weights ys
  unfolding weights
  weights-concat [] ys = omega arith
  weights-concat (x ∷ xs) ys = omega (arith, weights-concat xs ys)

  weights-report_all : (a : ℕ) (ns : List ℤ) → weights (report_all f64 f32 a ns) ≡ 2 * length ns
  unfolding weights report_all
  weights-report_all a [] = refl
  weights-report_all a (n ∷ ns) = omega (arith, weights-report_all a ns)

  pub weights-look_files : (d : Dict ℕ) → weights (look_files f64 f32 d) ≡ 2 * length d
  unfolding weights look_files
  weights-look_files [] = refl
  weights-look_files ((id, a) ∷ d) = omega (arith, weights-look_files d)

  pub after_upload_light :
      (a : ℕ) (now : Time) (r : Result Text (Unit {0}))
      → weights (after_upload f64 f32 a now r) < 2 * k + 15
  unfolding weights after_upload
  after_upload_light a now (err e) = omega arith
  after_upload_light a now (ok u) = omega arith

  pub open_file_light :
      (a : ℕ) (now : Time) (attempt : Attempt f64 f32) (h : Heap)
      → weights (open_file f64 f32 a now attempt h).1 < 2 * length attempt.reports + 2 * k + 15
  unfolding weights open_file
  open_file_light a now attempt h = elim (Result-cases attempt.opened) [
    | inl (u, q) ↦
        rw (q, open_file)
          (omega (
            arith,
            weights-concat (report_all f64 f32 a attempt.reports)
                (after_upload f64 f32 a now attempt.outcome),
            weights-report_all a attempt.reports,
            after_upload_light a now attempt.outcome,
          ))
    | inr (x, q) ↦ rw (q, open_file) (omega arith)
  ]

  pub report_progress_light :
      (a : ℕ) (n : ℤ) (h : Heap) → weights (report_progress f64 f32 a n h).1 < 2
  unfolding weights report_progress
  report_progress_light a n h = ground arith

  pub look_light : (a : ℕ) (h : Heap) → weights (look f64 f32 a h) < 2
  unfolding weights look
  look_light a h = ground arith

  pub close_down_light :
      (m : ℕ) (o : Outcome) (h : Heap) → weights (close_down f64 f32 m o h).1 < 2 * k + 3
  unfolding weights close_down
  close_down_light m o h = ground arith

  pub complete_light : (m : ℕ) (o : Outcome) (h : Heap) → weights (complete f64 f32 m o h).1 < 2
  unfolding weights complete
  complete_light m o h = ground arith
