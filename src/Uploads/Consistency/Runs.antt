-- ===== src/Uploads/Consistency/Runs.antt =====
-- client/uploads.go: any sequence of the whole methods, each of which runs without another between
-- its steps.
use file_upload.Prelude.{
  arith, inr, Option-cases, true, inl, if◌then◌else◌, Bool-cases, ℕ, ◌≡◌, refl, Bool, Option, none,
  some, List, [], ◌∷◌,
}
use file_upload.Uploads.Consistency.Adding.{add_multi-IsRegistry}
use file_upload.Prelude.Text.{Text}
use file_upload.Prelude.Dict.{Dict}
use file_upload.Prelude.Int.{ℤ}
use file_upload.Prelude.Result.{Result, ok, err}
use file_upload.Uploads.Status.{Time}
use file_upload.Uploads.Multi.Floats.{Float}
use file_upload.Uploads.Heap.{Heap, Upload, single, multi}
use file_upload.Uploads.Registry
use file_upload.Uploads.Registry.{add_multi, get}
use file_upload.Uploads.Methods.{
  Attempt, start_single, upload_task, cancel_multi, cancel_single, StartError,
}
use file_upload.Uploads.Methods.NoFault.{Started, upload_task_total}
use file_upload.Uploaders.{OptionError}
use file_upload.Uploads.Consistency.{
  has_status, Narrowed-refl, IsRegistry, IsRegistry-Narrowed, Narrowed,
}
use file_upload.Uploads.Consistency.Steps.{
  NarrowedIf, start_single-Narrowed, cancel_multi-Narrowed, cancel_single-Narrowed, remove-Narrowed,
}
use file_upload.Uploads.Consistency.Tasks.{upload_task-NarrowedIf}

module _ (f64 f32 : Float) (stat : Text → Option ℤ) where
  -- `AddMulti`, `Remove`, `start` of the file with an ID, the goroutine of a file, and `cancel` of
  -- both types.
  pub data Method : Type 0 where
    add : Text → List Text → Bool → Bool → Text → Method
    remove : Text → Method
    start : Text → Time → Dict Text → Method
    upload : ℕ → Time → Attempt f64 f32 → Method
    cancel_file : ℕ → Time → Text → Text → Method
    cancel_all : ℕ → Time → Text → Text → Method

  module _ {ℓ} {U : Type ℓ} (uploader : Dict Text → Text → Result OptionError U) where
    started : Heap → Result StartError (U × Heap) → Heap
    started h (err e) = h
    started h (ok (u, g)) = g

    -- `start` of what `Get` finds; an upload of several files only gives an error.
    start_found : Option Upload → Time → Dict Text → Heap → Heap
    unfolding started
    start_found none now options h = h
    start_found (some (multi m)) now options h = h
    start_found (some (single a)) now options h = started h (start_single uploader a now options h)

    -- The uploads after a method; none is a fault. Only a file that was started has a goroutine.
    unfoldable pub call : Method → Heap → Option Heap
    unfolding start_found
    call (add id paths delete_uploaded use_checksum server_cert) h =
        some (add_multi stat id paths delete_uploaded use_checksum server_cert h).0
    call (remove id) h = some (Registry.remove id h)
    call (start id now options) h = some (start_found (get id h) now options h)
    call (upload a now attempt) h =
        if (h.singles a).started then upload_task f64 f32 a now attempt h else some h
    call (cancel_file a now code message) h = some (cancel_single a now code message h)
    call (cancel_all m now code message) h = some (cancel_multi m now code message h)

    unfoldable pub call_all : List Method → Heap → Option Heap
    unfolding call
    call_all [] h = some h
    call_all (c ∷ cs) h = elim (call c h) [ none ↦ none | some g ↦ call_all cs g ]

    started-Narrowed :
        (h : Heap) (r : Result StartError (U × Heap))
        → ((u : U) (g : Heap) → r ≡ ok (u, g) → Narrowed h g)
        → Narrowed h (started h r)
    unfolding started
    started-Narrowed h (err e) k = Narrowed-refl h
    started-Narrowed h (ok (u, g)) k = k u g refl

    start_found-Narrowed :
        (id : Text) (found : Option Upload) (now : Time) (options : Dict Text) (h : Heap)
        → get id h ≡ found
        → Narrowed h (start_found found now options h)
    unfolding start_found
    start_found-Narrowed id none now options h e = Narrowed-refl h
    start_found-Narrowed id (some (multi m)) now options h e = Narrowed-refl h
    start_found-Narrowed id (some (single a)) now options h e =
        started-Narrowed h (start_single uploader a now options h)
          (λ u g q. start_single-Narrowed uploader a now options h id e q)

    -- A method comes to an end without a fault, in a registry that is consistent.
    Goes : Option Heap → Type 0
    Goes o = (g : Heap) × (o ≡ some g) × IsRegistry g

    task-Goes :
        (o : Option Heap) (h : Heap) {g : Heap}
        → IsRegistry h
        → NarrowedIf h o
        → o ≡ some g
        → Goes o
    unfolding Goes
    task-Goes none h r n e = cc e
    task-Goes (some f) h r n e = (f, refl, IsRegistry-Narrowed n r)

    status_found :
        (a : ℕ) (h : Heap) → has_status (h.multis (h.singles a).parent) ≡ true → Started a h
    status_found a h e = elim (Option-cases (h.multis (h.singles a).parent).status) [
      | inl q ↦ absurd (ground (arith, e, q))
      | inr found ↦ found
    ]

    upload-Goes :
        (a : ℕ) (now : Time) (attempt : Attempt f64 f32) (h : Heap)
        → IsRegistry h
        → Goes (call (upload a now attempt) h)
    unfolding Goes call
    upload-Goes a now attempt h r = elim (Bool-cases (h.singles a).started) [
      | inl e ↦
          let (s, status) = status_found a h (r.started_status a e) in
          let (g, q) = upload_task_total f64 f32 a now attempt h s status in
          rw e (
            task-Goes (upload_task f64 f32 a now attempt h) h r
              (upload_task-NarrowedIf f64 f32 a now attempt h) q)
      | inr e ↦ rw e (h, refl, r)
    ]

    call-Goes : (c : Method) (h : Heap) → IsRegistry h → Goes (call c h)
    unfolding Goes call
    call-Goes (add id paths delete_uploaded use_checksum server_cert) h r =
        (_, refl, add_multi-IsRegistry stat id paths delete_uploaded use_checksum server_cert h r)
    call-Goes (remove id) h r = (_, refl, IsRegistry-Narrowed (remove-Narrowed id h) r)
    call-Goes (start id now options) h r =
        (_, refl, IsRegistry-Narrowed (start_found-Narrowed id (get id h) now options h refl) r)
    call-Goes (upload a now attempt) h r = upload-Goes a now attempt h r
    call-Goes (cancel_file a now code message) h r =
        (_, refl, IsRegistry-Narrowed (cancel_single-Narrowed a now code message h) r)
    call-Goes (cancel_all m now code message) h r =
        (_, refl, IsRegistry-Narrowed (cancel_multi-Narrowed m now code message h) r)

    -- Whatever uploads are added, started, uploaded, cancelled and removed, in any order and each
    -- without another between its steps, in a registry that is consistent: no method faults, and the
    -- registry is consistent again. Under each ID it holds an upload that was made and has this ID,
    -- and the upload of a file that was started has a status.
    pub call_all-IsRegistry :
        (cs : List Method) (h : Heap)
        → IsRegistry h
        → (g : Heap) × (call_all cs h ≡ some g) × IsRegistry g
    unfolding call_all Goes
    call_all-IsRegistry [] h r = (h, refl, r)
    call_all-IsRegistry (c ∷ cs) h r =
        let (f, e, s) = call-Goes c h r in
        let (g, q, t) = call_all-IsRegistry cs f s in (g, rw (e, call_all) q, t)
