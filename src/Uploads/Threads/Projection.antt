-- ===== src/Uploads/Threads/Projection.antt =====
-- client/uploads.go: what the goroutines do to one upload is a run of its atomic steps.
use file_upload.Prelude.{
  ℕ, ◌++◌, ◌⊎◌, ◌≡◌, eqb, eqb_iff, Bool-cases, ap, sym, refl, arith, inl, inr, false, Option, none,
  some, List, [], ◌∙◌, append-nil,
}
use file_upload.Prelude.Text.{Text}
use file_upload.Prelude.Dict.{Dict}
use file_upload.Prelude.Int.{ℤ}
use file_upload.Prelude.Result.{Result}
use file_upload.Uploaders.{OptionError}
use file_upload.Uploads.Status.{UploadStatus, Time}
use file_upload.Uploads.Multi
use file_upload.Uploads.Multi.{SingleUpload, Outcome, not_supported}
use file_upload.Uploads.Multi.Actions.{act, Action, without_child}
use file_upload.Uploads.Multi.Floats.{Float}
use file_upload.Uploads.Heap.{Heap, update, set_multi, commit}
use file_upload.Uploads.Methods.{cancel_at, Attempt}
use file_upload.Uploads.Threads.{
  locked, Instruction, start, announce, open_path, report, change, upload_failed, upload_finished,
  upload_cancelled, fail, finish, cancel, leave, cancel_uploads, look_file, close_file, dispose,
  delete_file, exec, start_single, swap_started, open_file, report_progress, or_fault, remove_child,
  close_down, complete,
}
use file_upload.Uploads.Methods.Ending.{remove-frame}
use file_upload.Uploads.Status.{UploadStatus}
use file_upload.Uploads.Multi.Actions.{Action, act, start, cancel, fail, finish}

module _ (f64 f32 : Float) where
  -- What a step does to the upload at `m`: nothing, or an action that tells the listener all that the
  -- step tells it.
  pub record Acted (m : ℕ) (h g : Heap) : Type 0 where
    pub events : List UploadStatus
    pub told : g.events ≡ h.events ++ events
    pub did :
        (g.multis m ≡ h.multis m)
        ⊎ ((a : Action) × (o : Outcome) × (act f64 f32 a (h.multis m) ≡ some o)
            × (g.multis m ≡ o.upload)
            × (events ≡ o.events))

  Acted-commit :
      (m n : ℕ) (a : Action) (o : Outcome) (h : Heap)
      → act f64 f32 a (h.multis n) ≡ some o
      → Acted m h (commit n o h)
  unfolding update
  Acted-commit m n a o h e = record {
    events = o.events;
    told = refl;
    did = elim (Bool-cases (eqb m n)) [
      | inl q ↦
          let same : m ≡ n = (eqb_iff m n).0 q in inr (a, o, rw same e, ground (arith, q), refl)
      | inr q ↦ inl (ground (arith, q))
    ];
  }

  -- A step that changes neither the upload nor what the listener was told.
  Acted-none : (m : ℕ) {h g : Heap} → g.multis ≡ h.multis → g.events ≡ h.events → Acted m h g
  Acted-none m {h} same told = record {
    events = [];
    told = told ∙ sym (append-nil h.events);
    did = inl (ap (λ f. f m) same);
  }

  -- The locked part of `removeChild`.
  Acted-child :
      (m n : ℕ) (id : Text) (h : Heap) → Acted m h (set_multi n (without_child id (h.multis n)) h)
  unfolding act update
  Acted-child m n id h = record {
    events = [];
    told = sym (append-nil h.events);
    did = elim (Bool-cases (eqb m n)) [
      | inl q ↦
          let same : m ≡ n = (eqb_iff m n).0 q in
          inr (
            Action.remove_child id,
            Multi.unchanged (without_child id (h.multis n)) false,
            rw same refl,
            ground (arith, q),
            refl,
          )
      | inr q ↦ inl (ground (arith, q))
    ];
  }

  pub open_same :
      (a : ℕ) (now : Time) (attempt : Attempt f64 f32) (h : Heap)
      → ((open_file f64 f32 a now attempt h).0.multis ≡ h.multis)
        × ((open_file f64 f32 a now attempt h).0.events ≡ h.events)
  unfolding open_file
  open_same a now attempt h = ground arith

  pub report_same :
      (a : ℕ) (n : ℤ) (h : Heap)
      → ((report_progress f64 f32 a n h).0.multis ≡ h.multis)
        × ((report_progress f64 f32 a n h).0.events ≡ h.events)
  unfolding report_progress
  report_same a n h = ground arith

  pub close_same :
      (a : ℕ) (h : Heap) → ((cancel_at a h).multis ≡ h.multis) × ((cancel_at a h).events ≡ h.events)
  unfolding cancel_at
  close_same a h = (refl, refl)

  module _ {ℓ} {U : Type ℓ} (uploader : Dict Text → Text → Result OptionError U) where
    pub start_same :
        (a : ℕ) (now : Time) (options : Dict Text) (attempt : Attempt f64 f32) (h : Heap)
        → ((start_single f64 f32 uploader a now options attempt h).0.multis ≡ h.multis)
          × ((start_single f64 f32 uploader a now options attempt h).0.events ≡ h.events)
    unfolding start_single swap_started
    start_same a now options attempt h = ground arith

    -- What a step does, where it does not fault.
    unfoldable pub ActedIf : ℕ → Heap → Option (Heap × List (Instruction f64 f32)) → Type 0
    ActedIf m h none = Unit
    ActedIf m h (some (g, more)) = Acted m h g

    or_fault-ActedIf :
        (m n : ℕ) (a : Action) (made : Option Outcome) (k : Outcome → List (Instruction f64 f32))
        (h : Heap)
        → act f64 f32 a (h.multis n) ≡ made
        → ActedIf m h (or_fault f64 f32 made (λ o h. locked f64 f32 n o (k o) h) h)
    unfolding or_fault ActedIf
    or_fault-ActedIf m n a none k h e = tt
    or_fault-ActedIf m n a (some o) k h e = Acted-commit m n a o h e

    pub exec-ActedIf :
        (m : ℕ) (x : Instruction f64 f32) (h : Heap) → ActedIf m h (exec f64 f32 uploader x h)
    unfolding exec remove_child close_down complete ActedIf act
    exec-ActedIf m (start a now options attempt) h =
        let s = start_same a now options attempt h in Acted-none m s.0 s.1
    exec-ActedIf m (announce a now info attempt) h =
        Acted-commit m (h.singles a).parent (Action.start now info) _ h refl
    exec-ActedIf m (open_path a now attempt) h =
        let s = open_same a now attempt h in Acted-none m s.0 s.1
    exec-ActedIf m (report a n) h = let s = report_same a n h in Acted-none m s.0 s.1
    exec-ActedIf m (change n k) h = or_fault-ActedIf m n (Action.progress k) _ (λ o. []) h refl
    exec-ActedIf m (upload_failed a now e) h = Acted-child m _ _ h
    exec-ActedIf m (upload_finished a now) h = Acted-child m _ _ h
    exec-ActedIf m (upload_cancelled a now code message) h = Acted-child m _ _ h
    exec-ActedIf m (fail n now e) h = Acted-commit m n (Action.fail now e) _ h refl
    exec-ActedIf m (finish a now) h =
        or_fault-ActedIf m (h.singles a).parent (Action.finish now (h.singles a)) _ _ h refl
    exec-ActedIf m (cancel n now code message) h =
        Acted-commit m n (Action.cancel now code message) _ h refl
    exec-ActedIf m (leave id) h = let s = remove-frame id h in Acted-none m s.0 s.2
    exec-ActedIf m (cancel_uploads n) h = Acted-none m refl refl
    exec-ActedIf m (look_file a) h = Acted-none m refl refl
    exec-ActedIf m (close_file a) h = let s = close_same a h in Acted-none m s.0 s.1
    exec-ActedIf m (dispose a) h = Acted-none m refl refl
    exec-ActedIf m (delete_file a) h = Acted-none m refl refl
