-- ===== src/Uploads/Threads/Leaving.antt =====
-- client/uploads.go: a goroutine that ends an upload has still to remove it from the registry.
use file_upload.Prelude.{
  ℕ, ◌++◌, ◌⊎◌, ◌≡◌, eqb, eqb_iff, Bool-cases, ap, sym, refl, arith, inl, inr, Bool, true, false,
  Option, none, some, List, [], ◌∷◌, if◌then◌else◌, ◌∙◌,
}
use mathlib.Core.Path.{subst}
use file_upload.Prelude.Text.{Text}
use file_upload.Prelude.Dict.{Dict}
use file_upload.Prelude.Int.{ℤ}
use file_upload.Prelude.Result.{Result}
use file_upload.Uploaders.{OptionError}
use file_upload.Uploads.Status.{finished, Time}
use file_upload.Uploads.Multi
use file_upload.Uploads.Multi.{MultiUpload, Outcome, SingleUpload}
use file_upload.Uploads.Multi.Actions.{without_child}
use file_upload.Uploads.Multi.Floats.{Float}
use file_upload.Uploads.Heap.{Heap, update, commit, set_multi}
use file_upload.Uploads.Methods.Ending.{remove-frame}
use file_upload.Uploads.Threads.{
  Instruction, start, announce, open_path, report, change, upload_failed, upload_finished,
  upload_cancelled, fail, finish, cancel, leave, cancel_uploads, look_file, close_file, dispose,
  delete_file, exec, or_fault, remove_child, close_down, complete,
}
use file_upload.Uploads.Threads.Projection.{start_same, open_same, report_same, close_same}

-- The upload is SUCCESS, FAILED or CANCELED.
abbrev pub has_ended : MultiUpload → Bool
has_ended u = elim u.status [ none ↦ false | some s ↦ finished s ]

module _ (f64 f32 : Float) where
  -- A goroutine has still to call `Remove` for the ID.
  abbrev pub WillLeave : Text → List (Instruction f64 f32) → Type 0
  WillLeave id [] = ⊥
  WillLeave id (x ∷ xs) = (x ≡ leave id) ⊎ WillLeave id xs

  pub WillLeave-before :
      (id : Text) (xs ys : List (Instruction f64 f32)) → WillLeave id xs → WillLeave id (xs ++ ys)
  WillLeave-before id [] ys l = absurd l
  WillLeave-before id (x ∷ xs) ys (inl e) = inl e
  WillLeave-before id (x ∷ xs) ys (inr l) = inr (WillLeave-before id xs ys l)

  pub WillLeave-after :
      (id : Text) (xs ys : List (Instruction f64 f32)) → WillLeave id ys → WillLeave id (xs ++ ys)
  WillLeave-after id [] ys l = l
  WillLeave-after id (x ∷ xs) ys l = inr (WillLeave-after id xs ys l)

  -- If the upload at `m` ends by a step, the goroutine will remove it.
  pub record Ends (m : ℕ) (h g : Heap) (more : List (Instruction f64 f32)) : Type 0 where
    pub leaves :
        has_ended (h.multis m) ≡ false
        → has_ended (g.multis m) ≡ true
        → WillLeave (g.multis m).correlation_id more

  Ends-same :
      (m : ℕ) (h g : Heap) (more : List (Instruction f64 f32))
      → g.multis ≡ h.multis
      → Ends m h g more
  Ends-same m h g more same = record {
    leaves = λ before after. absurd (ground (arith, before, after, ap (λ f. has_ended (f m)) same));
  }

  -- The step runs under the mutex of the upload at `n`.
  Ends-commit :
      (m n : ℕ) (o : Outcome) (h : Heap) (more : List (Instruction f64 f32))
      → (has_ended (h.multis n) ≡ false
          → has_ended o.upload ≡ true
          → WillLeave o.upload.correlation_id more)
      → Ends m h (commit n o h) more
  unfolding update
  Ends-commit m n o h more k = record {
    leaves = λ before after. elim (Bool-cases (eqb m n)) [
      | inl q ↦
          let same : m ≡ n = (eqb_iff m n).0 q in
          let here : (commit n o h).multis m ≡ o.upload = ground (arith, q) in
          subst (λ u. WillLeave u.correlation_id more) (sym here)
            (k (ap (λ i. has_ended (h.multis i)) (sym same) ∙ before)
              (ap has_ended (sym here) ∙ after))
      | inr q ↦ absurd (ground (arith, q, before, after))
    ];
  }

  if_leaves :
      (id : Text) (b : Bool) (xs ys : List (Instruction f64 f32))
      → (b ≡ true → WillLeave id xs)
      → (b ≡ false → WillLeave id ys)
      → WillLeave id (if b then xs else ys)
  if_leaves id true xs ys p q = p refl
  if_leaves id false xs ys p q = q refl

  -- A section of `cancel` or `uploadFailed` that ends the upload is not done.
  close_down-Ends :
      (m n : ℕ) (o : Outcome) (h : Heap)
      → (has_ended (h.multis n) ≡ false → has_ended o.upload ≡ true → o.done ≡ false)
      → Ends m h (commit n o h) (close_down f64 f32 n o h).1
  unfolding close_down
  close_down-Ends m n o h ends = Ends-commit m n o h _ (λ before after.
      if_leaves o.upload.correlation_id o.done [] _
        (λ e. absurd (ground (arith, e, ends before after))) (λ e. inr (inl refl)))

  -- A section of `uploadFinished` that ends the upload is done.
  complete-Ends :
      (m n : ℕ) (o : Outcome) (h : Heap)
      → (has_ended (h.multis n) ≡ false → has_ended o.upload ≡ true → o.done ≡ true)
      → Ends m h (commit n o h) (complete f64 f32 n o h).1
  unfolding complete
  complete-Ends m n o h ends = Ends-commit m n o h _ (λ before after.
      if_leaves o.upload.correlation_id o.done _ [] (λ e. inl refl)
        (λ e. absurd (ground (arith, e, ends before after))))

  child_same :
      (m n : ℕ) (id : Text) (h : Heap)
      → has_ended ((set_multi n (without_child id (h.multis n)) h).multis m)
        ≡ has_ended (h.multis m)
  unfolding without_child update
  child_same m n id h = ground arith

  Ends-child :
      (m n : ℕ) (id : Text) (h : Heap) (more : List (Instruction f64 f32))
      → Ends m h (set_multi n (without_child id (h.multis n)) h) more
  Ends-child m n id h more = record {
    leaves = λ before after. absurd (ground (arith, before, after, child_same m n id h));
  }

  module _ {ℓ} {U : Type ℓ} (uploader : Dict Text → Text → Result OptionError U) where
    -- What a step puts in front, where it does not fault.
    unfoldable pub EndsIf : ℕ → Heap → Option (Heap × List (Instruction f64 f32)) → Type 0
    EndsIf m h none = Unit
    EndsIf m h (some (g, more)) = Ends m h g more

    or_fault-EndsIf :
        (m n : ℕ) (made : Option Outcome) (k : Outcome → Heap → Heap × List (Instruction f64 f32))
        (h : Heap)
        → ((o : Outcome) → made ≡ some o → Ends m h (k o h).0 (k o h).1)
        → EndsIf m h (or_fault f64 f32 made k h)
    unfolding or_fault EndsIf
    or_fault-EndsIf m n none k h f = tt
    or_fault-EndsIf m n (some o) k h f = f o refl

    start_keeps :
        (now : Time) (info : Dict Text) (u : MultiUpload)
        → has_ended u ≡ false
        → has_ended (Multi.upload_started now info u).upload ≡ false
    unfolding Multi.upload_started finished
    start_keeps now info u e = ground (arith, e)

    change_keeps :
        (n : ℤ) (u : MultiUpload) (o : Outcome)
        → Multi.change_progress f64 f32 n u ≡ some o
        → has_ended o.upload ≡ has_ended u
    unfolding Multi.change_progress finished
    change_keeps n u o e = ground (arith, e)

    fail_ends :
        (now : Time) (e : Text) (u : MultiUpload)
        → has_ended u ≡ false
        → has_ended (Multi.fail_status now e u).upload ≡ true
        → (Multi.fail_status now e u).done ≡ false
    unfolding Multi.fail_status finished
    fail_ends now e u before after = ground (arith, before, after)

    cancel_ends :
        (now : Time) (code message : Text) (u : MultiUpload)
        → has_ended u ≡ false
        → (Multi.cancel_status now code message u).done ≡ false
    unfolding Multi.cancel_status finished
    cancel_ends now code message u before = ground (arith, before)

    finish_ends :
        (now : Time) (su : SingleUpload) (u : MultiUpload) (o : Outcome)
        → Multi.finish_status f64 f32 now su u ≡ some o
        → has_ended u ≡ false
        → has_ended o.upload ≡ true
        → o.done ≡ true
    unfolding Multi.finish_status finished
    finish_ends now su u o e before after = ground (arith, e, before, after)

    pub exec-EndsIf :
        (m : ℕ) (x : Instruction f64 f32) (h : Heap) → EndsIf m h (exec f64 f32 uploader x h)
    unfolding exec remove_child EndsIf
    exec-EndsIf m (start a now options attempt) h =
        Ends-same m h _ _ (start_same f64 f32 uploader a now options attempt h).0
    exec-EndsIf m (announce a now info attempt) h =
        let u = h.multis (h.singles a).parent in
        Ends-commit m (h.singles a).parent (Multi.upload_started now info u) h
          (open_path a now attempt ∷ [])
          (λ before after. absurd (ground (arith, start_keeps now info u before, after)))
    exec-EndsIf m (open_path a now attempt) h =
        Ends-same m h _ _ (open_same f64 f32 a now attempt h).0
    exec-EndsIf m (report a n) h = Ends-same m h _ _ (report_same f64 f32 a n h).0
    exec-EndsIf m (change n k) h =
        or_fault-EndsIf m n (Multi.change_progress f64 f32 k (h.multis n)) _ h (λ o e.
          Ends-commit m n o h [] (λ before after.
            absurd (ground (arith, change_keeps k (h.multis n) o e, before, after))))
    exec-EndsIf m (upload_failed a now e) h = Ends-child m _ _ h _
    exec-EndsIf m (upload_finished a now) h = Ends-child m _ _ h _
    exec-EndsIf m (upload_cancelled a now code message) h = Ends-child m _ _ h _
    exec-EndsIf m (fail n now e) h =
        close_down-Ends m n (Multi.fail_status now e (h.multis n)) h (fail_ends now e (h.multis n))
    exec-EndsIf m (finish a now) h =
        let n = (h.singles a).parent in
        or_fault-EndsIf m n (Multi.finish_status f64 f32 now (h.singles a) (h.multis n)) _ h
          (λ o e. complete-Ends m n o h (finish_ends now (h.singles a) (h.multis n) o e))
    exec-EndsIf m (cancel n now code message) h =
        close_down-Ends m n (Multi.cancel_status now code message (h.multis n)) h
          (λ before after. cancel_ends now code message (h.multis n) before)
    exec-EndsIf m (leave id) h = Ends-same m h _ _ (remove-frame id h).0
    exec-EndsIf m (cancel_uploads n) h = Ends-same m h h _ refl
    exec-EndsIf m (look_file a) h = Ends-same m h h _ refl
    exec-EndsIf m (close_file a) h = Ends-same m h _ [] (close_same f64 f32 a h).0
    exec-EndsIf m (dispose a) h = Ends-same m h h _ refl
    exec-EndsIf m (delete_file a) h = Ends-same m h _ [] refl
