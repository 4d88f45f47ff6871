-- ===== src/Uploads/Consistency/Steps.antt =====
-- client/uploads.go: each method but `AddMulti` leaves alone what `Narrowed` says.
use file_upload.Prelude.{
  eqb, eqb_iff, Bool-cases, sym, inl, inr, ℕ, ◌≡◌, refl, ap, ◌∙◌, Bool, true, false, if◌then◌else◌,
  Option, none, some, [], ◌∷◌, arith,
}
use file_upload.Prelude.Text.{Text}
use file_upload.Prelude.Dict.{Dict}
use file_upload.Prelude.Int.{ℤ}
use file_upload.Prelude.Result.{Result-cases, Result, ok}
use mathlib.Core.Path.{subst}
use file_upload.Uploaders.{extract_dictionary, OptionError}
use file_upload.Uploads.Status.{Time}
use file_upload.Uploads.Multi
use file_upload.Uploads.Multi.{MultiUpload, SingleUpload, Outcome}
use file_upload.Uploads.Multi.Actions.{without_child}
use file_upload.Uploads.Multi.Floats.{Float}
use file_upload.Uploads.Heap.{single, Heap, update, set_single, set_multi, commit}
use file_upload.Uploads.Registry.{get, remove}
use file_upload.Uploads.Registry.Removal.{get-remove}
use file_upload.Uploads.Methods
use file_upload.Uploads.Methods.{
  upload_started, info_prefix, remove_child, cancel_at, cancel_children, cancel_uploads, close_down,
  complete, internal_cancel,
}
use file_upload.Uploads.Methods.Ending.{remove-frame}
use file_upload.Uploads.Consistency.{has_status, Narrowed, Narrowed-refl, Narrowed-trans}

pub set_single-Narrowed :
    (a : ℕ) (su : SingleUpload) (h : Heap)
    → su.correlation_id ≡ (h.singles a).correlation_id
    → su.parent ≡ (h.singles a).parent
    → su.started ≡ (h.singles a).started
    → Narrowed h (set_single a su h)
unfolding get update
set_single-Narrowed a su h name parent started = record {
  entries = λ k u e. e;
  same_next = refl;
  single_names = λ b. ground (arith, name);
  multi_names = λ m. refl;
  parents = λ b. ground (arith, parent);
  statuses = λ m e. e;
  begun = λ b e. inl (ground (arith, e, started));
}

pub set_multi-Narrowed :
    (m : ℕ) (u : MultiUpload) (h : Heap)
    → u.correlation_id ≡ (h.multis m).correlation_id
    → (has_status (h.multis m) ≡ true → has_status u ≡ true)
    → Narrowed h (set_multi m u h)
unfolding get update
set_multi-Narrowed m u h name status = record {
  entries = λ k v e. e;
  same_next = refl;
  single_names = λ b. refl;
  multi_names = λ n. ground (arith, name);
  parents = λ b. refl;
  statuses = λ n e. ground (arith, e, status);
  begun = λ b e. inl e;
}

-- What a step under the mutex of `u` keeps.
abbrev pub IsKept : Outcome → MultiUpload → Type 0
IsKept o u =
    (o.upload.correlation_id ≡ u.correlation_id)
    × (has_status u ≡ true → has_status o.upload ≡ true)

pub commit-Narrowed :
    (m : ℕ) (o : Outcome) (h : Heap) → IsKept o (h.multis m) → Narrowed h (commit m o h)
unfolding get
commit-Narrowed m o h (name, status) =
    let n = set_multi-Narrowed m o.upload h name status in
    record {
      entries = n.entries;
      same_next = n.same_next;
      single_names = n.single_names;
      multi_names = n.multi_names;
      parents = n.parents;
      statuses = n.statuses;
      begun = n.begun;
    }

next-remove : (id : Text) (h : Heap) → (remove id h).next ≡ h.next
unfolding remove
next-remove id h = ground arith

pub remove-Narrowed : (id : Text) (h : Heap) → Narrowed h (remove id h)
remove-Narrowed id h = record {
  entries = λ k u e. ground (arith, e, get-remove k id h);
  same_next = next-remove id h;
  single_names = λ b. ap (λ f. (f b).correlation_id) (remove-frame id h).1;
  multi_names = λ m. ap (λ f. (f m).correlation_id) (remove-frame id h).0;
  parents = λ b. ap (λ f. (f b).parent) (remove-frame id h).1;
  statuses = λ m e. ap (λ f. has_status (f m)) (remove-frame id h).0 ∙ e;
  begun = λ b e. inl (sym (ap (λ f. (f b).started) (remove-frame id h).1) ∙ e);
}

pub cancel_at-Narrowed : (a : ℕ) (h : Heap) → Narrowed h (cancel_at a h)
unfolding cancel_at internal_cancel
cancel_at-Narrowed a h =
    set_single-Narrowed a (internal_cancel (h.singles a)).0 h (ground arith) (ground arith)
      (ground arith)

cancel_children-Narrowed : (d : Dict ℕ) (h : Heap) → Narrowed h (cancel_children d h)
unfolding cancel_children
cancel_children-Narrowed [] h = Narrowed-refl h
cancel_children-Narrowed ((id, a) ∷ rest) h =
    Narrowed-trans (cancel_at-Narrowed a h) (cancel_children-Narrowed rest (cancel_at a h))

remove_child-Narrowed : (m : ℕ) (id : Text) (h : Heap) → Narrowed h (remove_child m id h)
unfolding remove_child
remove_child-Narrowed m id h =
    Narrowed-trans (set_multi-Narrowed m (without_child id (h.multis m)) h refl (λ e. e))
      (remove-Narrowed id _)

pub if-Narrowed :
    {h g f : Heap} (b : Bool) → Narrowed h g → Narrowed h f → Narrowed h (if b then g else f)
if-Narrowed true p q = p
if-Narrowed false p q = q

close_down-Narrowed :
    (m : ℕ) (o : Outcome) (h : Heap) → IsKept o (h.multis m) → Narrowed h (close_down m o h)
unfolding close_down cancel_uploads
close_down-Narrowed m o h name =
    let first = commit-Narrowed m o h name in
    if-Narrowed o.done first (
      Narrowed-trans first (
        Narrowed-trans (cancel_children-Narrowed ((commit m o h).multis m).children (commit m o h))
          (remove-Narrowed _ _)))

complete-Narrowed :
    (m : ℕ) (o : Outcome) (h : Heap) → IsKept o (h.multis m) → Narrowed h (complete m o h)
unfolding complete
complete-Narrowed m o h name =
    let first = commit-Narrowed m o h name in
    if-Narrowed o.done (Narrowed-trans first (remove-Narrowed _ _)) first

pub cancel_multi-Narrowed :
    (m : ℕ) (now : Time) (code message : Text) (h : Heap)
    → Narrowed h (Methods.cancel_multi m now code message h)
unfolding Methods.cancel_multi Multi.cancel_status
cancel_multi-Narrowed m now code message h =
    close_down-Narrowed m (Multi.cancel_status now code message (h.multis m)) h
      (ground arith, λ q. ground (arith, q))

pub cancel_single-Narrowed :
    (a : ℕ) (now : Time) (code message : Text) (h : Heap)
    → Narrowed h (Methods.cancel_single a now code message h)
unfolding Methods.cancel_single Methods.upload_cancelled
cancel_single-Narrowed a now code message h = Narrowed-trans (cancel_at-Narrowed a h) (
    Narrowed-trans (remove_child-Narrowed _ _ (cancel_at a h))
      (cancel_multi-Narrowed _ now code message _))

pub upload_failed-Narrowed :
    (a : ℕ) (now : Time) (message : Text) (h : Heap)
    → Narrowed h (Methods.upload_failed a now message h)
unfolding Methods.upload_failed Multi.fail_status
upload_failed-Narrowed a now message h =
    Narrowed-trans (remove_child-Narrowed (h.singles a).parent (h.singles a).correlation_id h)
      (close_down-Narrowed (h.singles a).parent _ _ (ground arith, λ q. ground (arith, q)))

-- Where a method ends without a fault, it leaves alone what `Narrowed` says.
abbrev pub NarrowedIf : Heap → Option Heap → Type 0
NarrowedIf h none = Unit
NarrowedIf h (some g) = Narrowed h g

module _ {ℓ} {U : Type ℓ} (uploader : Dict Text → Text → Result OptionError U) where
  pub upload_started_keeps :
      (now : Time) (info : Dict Text) (v : MultiUpload)
      → ((Multi.upload_started now info v).upload.correlation_id ≡ v.correlation_id)
        × (has_status (Multi.upload_started now info v).upload ≡ true)
  unfolding Multi.upload_started
  upload_started_keeps now info v = ground arith

  start_with-Narrowed :
      (a : ℕ) (now : Time) (options : Dict Text) (h : Heap) (k : Text)
      → get k h ≡ some (single a)
      → Narrowed h (
          upload_started
            (h.singles a).parent
            now
            (extract_dictionary options info_prefix)
            (set_single a (record (h.singles a) { started = true }) h))
  unfolding Methods.upload_started update get
  start_with-Narrowed a now options h k known =
      let m = (h.singles a).parent in
      let kept = upload_started_keeps now (extract_dictionary options info_prefix) (h.multis m) in
      record {
        entries = λ i v e. e;
        same_next = refl;
        single_names = λ b. ground arith;
        multi_names = λ n. ground (arith, kept.0);
        parents = λ b. ground arith;
        statuses = λ n e. ground (arith, e, kept.1);
        begun = λ b e. elim (Bool-cases (eqb b a)) [
          | inl q ↦
              let same : b ≡ a = (eqb_iff b a).0 q in
              inr (k, known ∙ ap (λ c. some (single c)) (sym same), ground (arith, q, same, kept.1))
          | inr q ↦ inl (ground (arith, e, q))
        ];
      }

  pub start_single-Narrowed :
      (a : ℕ) (now : Time) (options : Dict Text) (h : Heap) (k : Text) {u : U} {g : Heap}
      → get k h ≡ some (single a)
      → Methods.start_single uploader a now options h ≡ ok (u, g)
      → Narrowed h g
  unfolding Methods.start_single Methods.start_with
  start_single-Narrowed a now options h k {g} known e =
      elim (Result-cases (uploader options (h.multis (h.singles a).parent).server_cert)) [
        | inl (u, q) ↦
            let same : g
                ≡ upload_started (h.singles a).parent now (extract_dictionary options info_prefix)
                    (set_single a (record (h.singles a) { started = true }) h) =
              ground (arith, e, q) in
            subst (Narrowed h) (sym same) (start_with-Narrowed a now options h k known)
        | inr (x, q) ↦ ground (arith, e, q)
      ]

pub NarrowedIf-trans :
    {h g : Heap} → Narrowed h g → (o : Option Heap) → NarrowedIf g o → NarrowedIf h o
NarrowedIf-trans p none q = q
NarrowedIf-trans p (some f) q = Narrowed-trans p q

-- A result that is changed once more.
pub changed {ℓ} :
    {B : Type ℓ} (h : Heap) (o : Option B) (f : B → Heap)
    → ((b : B) → o ≡ some b → Narrowed h (f b))
    → NarrowedIf h (elim o [ none ↦ none | some b ↦ some (f b) ])
changed h none f k = tt
changed h (some b) f k = k b refl

-- A method after a method that may fault.
pub followed :
    (h : Heap) (o : Option Heap) (f : Heap → Option Heap)
    → NarrowedIf h o
    → ((g : Heap) → NarrowedIf g (f g))
    → NarrowedIf h (elim o [ none ↦ none | some g ↦ f g ])
followed h none f p k = tt
followed h (some g) f p k = NarrowedIf-trans p (f g) (k g)

module _ (f64 f32 : Float) where
  pub finish_status_keeps :
      (now : Time) (su : SingleUpload) (u : MultiUpload) (o : Outcome)
      → Multi.finish_status f64 f32 now su u ≡ some o
      → IsKept o u
  unfolding Multi.finish_status
  finish_status_keeps now su u o e = (ground (arith, e), λ q. ground (arith, e, q))

  pub change_progress_keeps :
      (n : ℤ) (u : MultiUpload) (o : Outcome)
      → Multi.change_progress f64 f32 n u ≡ some o
      → IsKept o u
  unfolding Multi.change_progress
  change_progress_keeps n u o e = (ground (arith, e), λ q. ground (arith, e, q))

  pub upload_finished-NarrowedIf :
      (a : ℕ) (now : Time) (h : Heap) → NarrowedIf h (Methods.upload_finished f64 f32 a now h)
  unfolding Methods.upload_finished
  upload_finished-NarrowedIf a now h =
      let m = (h.singles a).parent in
      let h' = remove_child m (h.singles a).correlation_id h in
      changed h (Multi.finish_status f64 f32 now (h.singles a) (h'.multis m)) (λ o. complete m o h')
        (λ o e.
          Narrowed-trans (remove_child-Narrowed m (h.singles a).correlation_id h)
            (complete-Narrowed m o h' (finish_status_keeps now (h.singles a) (h'.multis m) o e)))

  pub change_progress-NarrowedIf :
      (m : ℕ) (n : ℤ) (h : Heap) → NarrowedIf h (Methods.change_progress f64 f32 m n h)
  unfolding Methods.change_progress
  change_progress-NarrowedIf m n h =
      changed h (Multi.change_progress f64 f32 n (h.multis m)) (λ o. commit m o h)
        (λ o e. commit-Narrowed m o h (change_progress_keeps n (h.multis m) o e))
