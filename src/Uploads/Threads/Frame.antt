-- ===== src/Uploads/Threads/Frame.antt =====
-- client/uploads.go: what no step of a goroutine changes.
use file_upload.Prelude.{
  ℕ, ◌≡◌, ◌<◌, refl, ◌∙◌, Bool, true, false, none, some, List, arith, inl, inr, Option,
  if◌then◌else◌, not, ◌&&◌,
}
use file_upload.Prelude.Text.{Text}
use file_upload.Prelude.Dict.{Dict}
use file_upload.Prelude.Int.{ℤ, pos, ℤ_beq}
use file_upload.Prelude.Result.{Result, Result-cases}
use file_upload.Uploaders.{OptionError}
use file_upload.Uploads.Status.{Time}
use file_upload.Uploads.Multi
use file_upload.Uploads.Multi.{SingleUpload, Outcome, not_supported}
use file_upload.Uploads.Multi.Actions.{without_child}
use file_upload.Uploads.Multi.Floats.{Float}
use file_upload.Uploads.Heap.{Upload, single, multi, Heap, update, set_single, set_multi, commit}
use file_upload.Uploads.Registry.{get}
use file_upload.Uploads.Methods.{Attempt}
use file_upload.Uploads.Consistency.{Narrowed, has_status}
use file_upload.Uploads.Consistency.Steps.{
  commit-Narrowed, IsKept, cancel_at-Narrowed, remove-Narrowed, change_progress_keeps,
  finish_status_keeps, upload_started_keeps, set_multi-Narrowed,
}
use file_upload.Uploads.Threads.{
  Instruction, start, announce, open_path, report, change, upload_failed, upload_finished,
  upload_cancelled, fail, finish, cancel, leave, cancel_uploads, look_file, close_file, dispose,
  delete_file, exec, start_single, swap_started, open_file, report_progress, or_fault, remove_child,
  close_down, complete,
}

-- From `h` to `g` the registry gets no new entry, and no upload gets another ID or another parent or
-- loses its status.
pub record Frame (h g : Heap) : Type 0 where
  pub entries : (k : Text) (u : Upload) → get k g ≡ some u → get k h ≡ some u
  pub same_next : g.next ≡ h.next
  pub single_names : (a : ℕ) → (g.singles a).correlation_id ≡ (h.singles a).correlation_id
  pub multi_names : (m : ℕ) → (g.multis m).correlation_id ≡ (h.multis m).correlation_id
  pub parents : (a : ℕ) → (g.singles a).parent ≡ (h.singles a).parent
  pub statuses : (m : ℕ) → has_status (h.multis m) ≡ true → has_status (g.multis m) ≡ true

pub Frame-refl : (h : Heap) → Frame h h
Frame-refl h = record {
  entries = λ k u e. e;
  same_next = refl;
  single_names = λ a. refl;
  multi_names = λ m. refl;
  parents = λ a. refl;
  statuses = λ m e. e;
}

pub Frame-trans : {h g f : Heap} → Frame h g → Frame g f → Frame h f
Frame-trans p q = record {
  entries = λ k u e. p.entries k u (q.entries k u e);
  same_next = q.same_next ∙ p.same_next;
  single_names = λ a. q.single_names a ∙ p.single_names a;
  multi_names = λ m. q.multi_names m ∙ p.multi_names m;
  parents = λ a. q.parents a ∙ p.parents a;
  statuses = λ m e. q.statuses m (p.statuses m e);
}

Narrowed-Frame : {h g : Heap} → Narrowed h g → Frame h g
Narrowed-Frame n = record {
  entries = n.entries;
  same_next = n.same_next;
  single_names = n.single_names;
  multi_names = n.multi_names;
  parents = n.parents;
  statuses = n.statuses;
}

-- The names and addresses of `IsRegistry`, without what it says of started files.
pub record IsNamed (h : Heap) : Type 0 where
  pub single_old : (k : Text) (a : ℕ) → get k h ≡ some (single a) → a < h.next
  pub multi_old : (k : Text) (m : ℕ) → get k h ≡ some (multi m) → m < h.next
  pub single_named :
      (k : Text) (a : ℕ) → get k h ≡ some (single a) → (h.singles a).correlation_id ≡ k
  pub multi_named : (k : Text) (m : ℕ) → get k h ≡ some (multi m) → (h.multis m).correlation_id ≡ k
  pub parent_old : (k : Text) (a : ℕ) → get k h ≡ some (single a) → (h.singles a).parent < h.next

pub IsNamed-Frame : {h g : Heap} → Frame h g → IsNamed h → IsNamed g
IsNamed-Frame n r = record {
  single_old = λ k a e. rw (n.same_next) (r.single_old k a (n.entries k (single a) e));
  multi_old = λ k m e. rw (n.same_next) (r.multi_old k m (n.entries k (multi m) e));
  single_named = λ k a e. n.single_names a ∙ r.single_named k a (n.entries k (single a) e);
  multi_named = λ k m e. n.multi_names m ∙ r.multi_named k m (n.entries k (multi m) e);
  parent_old = λ k a e. rw (n.same_next, n.parents a) (r.parent_old k a (n.entries k (single a) e));
}

-- A file is changed but for its ID and its upload.
set_single-Frame :
    (a : ℕ) (su : SingleUpload) (h : Heap)
    → su.correlation_id ≡ (h.singles a).correlation_id
    → su.parent ≡ (h.singles a).parent
    → Frame h (set_single a su h)
unfolding get update
set_single-Frame a su h name parent = record {
  entries = λ k u e. e;
  same_next = refl;
  single_names = λ b. ground (arith, name);
  multi_names = λ m. refl;
  parents = λ b. ground (arith, parent);
  statuses = λ m e. e;
}

module _ {ℓ} {U : Type ℓ} (f64 f32 : Float)
    (uploader : Dict Text → Text → Result OptionError U) where
  -- What a step leaves alone, where it does not fault.
  abbrev pub FrameIf : Heap → Option (Heap × List (Instruction f64 f32)) → Type 0
  FrameIf h none = Unit
  FrameIf h (some (g, more)) = Frame h g

  commit-Frame : (m : ℕ) (o : Outcome) (h : Heap) → IsKept o (h.multis m) → Frame h (commit m o h)
  commit-Frame m o h kept = Narrowed-Frame (commit-Narrowed m o h kept)

  if-Frame :
      {h : Heap} (b : Bool) (p q : Heap × List (Instruction f64 f32))
      → Frame h p.0
      → Frame h q.0
      → Frame h (if b then p else q).0
  if-Frame true p q first second = first
  if-Frame false p q first second = second

  start_single-Frame :
      (a : ℕ) (now : Time) (options : Dict Text) (attempt : Attempt f64 f32) (h : Heap)
      → Frame h (start_single f64 f32 uploader a now options attempt h).0
  unfolding start_single swap_started
  start_single-Frame a now options attempt h =
      elim (Result-cases (uploader options (h.multis (h.singles a).parent).server_cert)) [
        | inl (u, e) ↦
            rw (e, start_single)
              (if-Frame (h.singles a).started _ _ (Frame-refl h)
                (set_single-Frame a (record (h.singles a) { started = true }) h refl refl))
        | inr (x, e) ↦ rw (e, start_single) (Frame-refl h)
      ]

  open_file-Frame :
      (a : ℕ) (now : Time) (attempt : Attempt f64 f32) (h : Heap)
      → Frame h (open_file f64 f32 a now attempt h).0
  unfolding open_file
  open_file-Frame a now attempt h = elim (Result-cases attempt.opened) [
    | inl (u, e) ↦ rw e (set_single-Frame a (record (h.singles a) { file = some true }) h refl refl)
    | inr (x, e) ↦ rw e (Frame-refl h)
  ]

  report_progress-Frame : (a : ℕ) (n : ℤ) (h : Heap) → Frame h (report_progress f64 f32 a n h).0
  unfolding report_progress
  report_progress-Frame a n h =
      let su = h.singles a in
      let here = Frame-refl h in
      if-Frame (ℤ_beq (h.multis su.parent).total_size_bytes not_supported) _ _ here (
        if-Frame (ℤ_beq su.total_size_bytes (pos 0) && not (ℤ_beq n (pos 0))) _ _ here (
          if-Frame (ℤ_beq su.bytes_transferred n) _ _ here
            (set_single-Frame a (record su { bytes_transferred = n }) h refl refl)))

  or_fault-FrameIf :
      (o : Option Outcome) (k : Outcome → Heap → Heap × List (Instruction f64 f32)) (h : Heap)
      → ((p : Outcome) → o ≡ some p → Frame h (k p h).0)
      → FrameIf h (or_fault f64 f32 o k h)
  unfolding or_fault
  or_fault-FrameIf none k h f = tt
  or_fault-FrameIf (some o) k h f = f o refl

  -- The locked part of `removeChild`.
  child_leaves :
      (a : ℕ) (h : Heap)
      → Frame h (
          set_multi
            (h.singles a).parent
            (without_child (h.singles a).correlation_id (h.multis (h.singles a).parent))
            h)
  unfolding without_child
  child_leaves a h = Narrowed-Frame (set_multi-Narrowed (h.singles a).parent _ h refl (λ e. e))

  delete_file-Frame : (paths : List Text) (h : Heap) → Frame h (record h { deleted = paths })
  unfolding get
  delete_file-Frame paths h = record {
    entries = λ k u e. e;
    same_next = refl;
    single_names = λ a. refl;
    multi_names = λ m. refl;
    parents = λ a. refl;
    statuses = λ m e. e;
  }

  pub exec-FrameIf : (x : Instruction f64 f32) (h : Heap) → FrameIf h (exec f64 f32 uploader x h)
  unfolding exec remove_child close_down complete Multi.fail_status Multi.cancel_status
      without_child
  exec-FrameIf (start a now options attempt) h = start_single-Frame a now options attempt h
  exec-FrameIf (announce a now info attempt) h =
      commit-Frame (h.singles a).parent
        (Multi.upload_started now info (h.multis (h.singles a).parent)) h
        (
          (upload_started_keeps uploader now info (h.multis (h.singles a).parent)).0,
          λ q. (upload_started_keeps uploader now info (h.multis (h.singles a).parent)).1,
        )
  exec-FrameIf (open_path a now attempt) h = open_file-Frame a now attempt h
  exec-FrameIf (report a n) h = report_progress-Frame a n h
  exec-FrameIf (change m n) h =
      or_fault-FrameIf _ _ h
        (λ o e. commit-Frame m o h (change_progress_keeps f64 f32 n (h.multis m) o e))
  exec-FrameIf (upload_failed a now e) h = child_leaves a h
  exec-FrameIf (upload_finished a now) h = child_leaves a h
  exec-FrameIf (upload_cancelled a now code message) h = child_leaves a h
  exec-FrameIf (fail m now e) h =
      commit-Frame m (Multi.fail_status now e (h.multis m)) h (ground arith, λ q. ground (arith, q))
  exec-FrameIf (finish a now) h = or_fault-FrameIf _ _ h (λ o e.
      commit-Frame (h.singles a).parent o h
        (finish_status_keeps f64 f32 now (h.singles a) (h.multis (h.singles a).parent) o e))
  exec-FrameIf (cancel m now code message) h =
      commit-Frame m (Multi.cancel_status now code message (h.multis m)) h
        (ground arith, λ q. ground (arith, q))
  exec-FrameIf (leave id) h = Narrowed-Frame (remove-Narrowed id h)
  exec-FrameIf (cancel_uploads m) h = Frame-refl h
  exec-FrameIf (look_file a) h = Frame-refl h
  exec-FrameIf (close_file a) h = Narrowed-Frame (cancel_at-Narrowed a h)
  exec-FrameIf (dispose a) h = Frame-refl h
  exec-FrameIf (delete_file a) h = delete_file-Frame _ h
