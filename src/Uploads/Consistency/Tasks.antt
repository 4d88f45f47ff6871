-- ===== src/Uploads/Consistency/Tasks.antt =====
-- client/uploads.go: the goroutine of a file leaves alone what `Narrowed` says.
use file_upload.Prelude.{
  inl, ℕ, refl, true, false, Bool, if◌then◌else◌, Option, none, some, List, [], ◌∷◌, ◌++◌, not,
  ◌&&◌,
}
use file_upload.Prelude.Int.{ℤ, pos, ◌-ℤ◌, ℤ_beq, wrap}
use file_upload.Prelude.Result.{Result, ok, err}
use mathlib.Core.Option
use file_upload.Uploads.Status.{Time}
use file_upload.Uploads.Multi.{not_supported}
use file_upload.Uploads.Multi.Floats.{Float}
use file_upload.Uploads.Heap.{Heap, set_single}
use file_upload.Uploads.Registry.{get}
use file_upload.Uploads.Methods
use file_upload.Uploads.Methods.{Attempt, set_file}
use file_upload.Uploads.Consistency.{Text, Narrowed, Narrowed-refl, Narrowed-trans}
use file_upload.Uploads.Consistency.Steps.{
  NarrowedIf, NarrowedIf-trans, followed, set_single-Narrowed, upload_failed-Narrowed,
  upload_finished-NarrowedIf, change_progress-NarrowedIf,
}

module _ (h : Heap) where
  if-NarrowedIf :
      (b : Bool) (p q : Option Heap)
      → NarrowedIf h p
      → NarrowedIf h q
      → NarrowedIf h (if b then p else q)
  if-NarrowedIf true p q first second = first
  if-NarrowedIf false p q first second = second

  either {ℓ κ} :
      {E : Type ℓ} {B : Type κ} (r : Result E B) (f : E → Option Heap) (k : B → Option Heap)
      → ((e : E) → NarrowedIf h (f e))
      → ((b : B) → NarrowedIf h (k b))
      → NarrowedIf h (elim r [ err e ↦ f e | ok b ↦ k b ])
  either (err e) f k failed went_well = failed e
  either (ok b) f k failed went_well = went_well b

  mapped :
      (o : Option Heap) (f : Heap → Heap)
      → NarrowedIf h o
      → ((g : Heap) → Narrowed g (f g))
      → NarrowedIf h (Option.map f o)
  mapped none f p k = tt
  mapped (some g) f p k = Narrowed-trans p (k g)

deleting-Narrowed :
    (b : Bool) (paths : List Text) (h : Heap)
    → Narrowed h (if b then record h { deleted = paths } else h)
unfolding get
deleting-Narrowed true paths h = record {
  entries = λ k u e. e;
  same_next = refl;
  single_names = λ a. refl;
  multi_names = λ m. refl;
  parents = λ a. refl;
  statuses = λ m e. e;
  begun = λ a e. inl e;
}
deleting-Narrowed false paths h = Narrowed-refl h

module _ (f64 f32 : Float) where
  report_progress-NarrowedIf :
      (a : ℕ) (n : ℤ) (h : Heap) → NarrowedIf h (Methods.report_progress f64 f32 a n h)
  unfolding Methods.report_progress
  report_progress-NarrowedIf a n h =
      let su = h.singles a in
      let h' = set_single a (record su { bytes_transferred = n }) h in
      let moved = set_single-Narrowed a (record su { bytes_transferred = n }) h refl refl refl in
      let change = wrap (n -ℤ su.bytes_transferred) in
      let here = Narrowed-refl h in
      if-NarrowedIf h (ℤ_beq (h.multis su.parent).total_size_bytes not_supported) _ _ here (
        if-NarrowedIf h (ℤ_beq su.total_size_bytes (pos 0) && not (ℤ_beq n (pos 0))) _ _ here (
          if-NarrowedIf h (ℤ_beq su.bytes_transferred n) _ _ here (
            if-NarrowedIf h (ℤ_beq change (pos 0)) _ _ moved (
              NarrowedIf-trans moved (Methods.change_progress f64 f32 su.parent change h')
                (change_progress-NarrowedIf f64 f32 su.parent change h')))))

  report_all-NarrowedIf :
      (a : ℕ) (ns : List ℤ) (h : Heap) → NarrowedIf h (Methods.report_all f64 f32 a ns h)
  unfolding Methods.report_all
  report_all-NarrowedIf a [] h = Narrowed-refl h
  report_all-NarrowedIf a (n ∷ ns) h =
      followed h (Methods.report_progress f64 f32 a n h) (Methods.report_all f64 f32 a ns)
        (report_progress-NarrowedIf a n h) (λ g. report_all-NarrowedIf a ns g)

  succeed-NarrowedIf :
      (a : ℕ) (now : Time) (h : Heap) → NarrowedIf h (Methods.succeed f64 f32 a now h)
  unfolding Methods.succeed
  succeed-NarrowedIf a now h =
      followed h (Methods.upload_finished f64 f32 a now h)
        (λ g.
          let su = g.singles a in
          some (
            if (g.multis su.parent).delete_uploaded
            then record g { deleted = g.deleted ++ (su.file_path ∷ []) }
            else g))
        (upload_finished-NarrowedIf f64 f32 a now h)
        (λ g. deleting-Narrowed (g.multis (g.singles a).parent).delete_uploaded _ g)

  set_file-Narrowed : (a : ℕ) (b : Bool) (h : Heap) → Narrowed h (set_file f64 f32 a b h)
  set_file-Narrowed a b h =
      set_single-Narrowed a (record (h.singles a) { file = some b }) h refl refl refl

  pub upload_task-NarrowedIf :
      (a : ℕ) (now : Time) (attempt : Attempt f64 f32) (h : Heap)
      → NarrowedIf h (Methods.upload_task f64 f32 a now attempt h)
  unfolding Methods.upload_task
  upload_task-NarrowedIf a now attempt h =
      let outcome : Heap → Option Heap = λ g. elim attempt.outcome [
        | err e ↦ some (set_file f64 f32 a false (Methods.upload_failed a now e g))
        | ok _ ↦ Option.map (set_file f64 f32 a false) (Methods.succeed f64 f32 a now g)
      ] in
      let started = set_file f64 f32 a true h in
      either h attempt.opened (λ e. some (Methods.upload_failed a now e h)) _
        (λ e. upload_failed-Narrowed a now e h)
        (λ _.
          followed h (Methods.report_all f64 f32 a attempt.reports started) outcome
            (NarrowedIf-trans (set_file-Narrowed a true h) _
              (report_all-NarrowedIf a attempt.reports started))
            (λ g.
              either g attempt.outcome _ _
                (λ e.
                  Narrowed-trans (upload_failed-Narrowed a now e g) (set_file-Narrowed a false _))
                (λ _.
                  mapped g (Methods.succeed f64 f32 a now g) (set_file f64 f32 a false)
                    (succeed-NarrowedIf a now g) (λ f. set_file-Narrowed a false f))))
