-- ===== src/Uploadable/Operations/Laws.antt =====
-- client/uploadable.go: the operations of the feature, `UploadFiles` and the identifiers.
use file_upload.Prelude.{
  sym, ◌≡◌, refl, ap, ◌∙◌, ◌↔◌, ◌⊎◌, inl, inr, ◌≢◌, Bool, Option-cases, true, false, Option, none,
  some, List, [], ◌∷◌, ◌++◌, arith, append_assoc, append-nil,
}
use mathlib.Core.List.{append_cancel_left}
use file_upload.Prelude.Text.{Text, bytes}
use file_upload.Prelude.Decimal.{decimal_injective}
use file_upload.Prelude.Dict.{Dict}
use file_upload.Prelude.Int.{ℤ}
use file_upload.Prelude.Result.{Result, ok, err}
use file_upload.Uploads.Status.{Time}
use file_upload.Uploads.Registry
use file_upload.Uploads.Registry.{child_id}
use file_upload.Uploads.Registry.Adding.{child_ids, add_multi-AllRegistered}
use file_upload.Uploaders.{OptionError}
use file_upload.Uploadable.{
  Executor, AutoUploadableState, update_auto_upload, AutoUploadable, ErrorResponse, Task,
  send_upload_request, create_feature,
}
use file_upload.Uploadable.Config.{
  nil_pointer, executor_stopped, start_executor, stop_executor, send, next_uid, connect_handler,
}
use file_upload.Uploadable.Operations.{
  activate_with, Decoder, activate, deactivate, start, upload_files, request_uploads,
  request_options,
}

module _ {ℓ} {U : Type ℓ} where
  -- Different counters give different identifiers.
  pub next_uid_injective :
      (u v : AutoUploadable U) → (next_uid u).0 ≡ (next_uid v).0 → u.uid_counter ≡ v.uid_counter
  unfolding next_uid
  next_uid_injective u v h =
      let e = decimal_injective _ _ (append_cancel_left (bytes "upload-id-") _ _ h) in omega arith

  -- The requests for some children and their files.
  abbrev pub requests : List Text → List Text → Dict Text → List (Task U)
  requests (id ∷ ids) (file ∷ files) options =
      send_upload_request id (request_options options file) file ∷ requests ids files options
  requests _ _ options = []

  tasks-request_uploads :
      (ids files : List Text) (options : Dict Text) (u : AutoUploadable U)
      → (request_uploads ids files options u).tasks ≡ u.tasks ++ requests ids files options
  unfolding request_uploads
  tasks-request_uploads [] files options u = sym (append-nil u.tasks)
  tasks-request_uploads (id ∷ ids) [] options u = sym (append-nil u.tasks)
  tasks-request_uploads (id ∷ ids) (file ∷ files) options u =
      tasks-request_uploads ids files options _ ∙ append_assoc u.tasks _ _

  -- `UploadFiles` spawns one request for each file, with the ID of its child, in the order of the
  -- files.
  pub tasks-upload_files :
      (stat : Text → Option ℤ) (id : Text) (files : List Text) (options : Dict Text)
      (u : AutoUploadable U)
      → (upload_files stat id files options u).tasks
        ≡ u.tasks ++ requests (child_ids id 0 files) files options
  unfolding upload_files
  tasks-upload_files stat id files options u =
      let adding =
        Registry.add_multi stat id files u.cfg.delete_uploaded u.cfg.checksum u.cfg.server_cert
          u.heap in
      tasks-request_uploads adding.1 files options (record u { heap = adding.0 })
      ∙ ap (λ ids. u.tasks ++ requests ids files options)
          (add_multi-AllRegistered stat id files u.cfg.delete_uploaded u.cfg.checksum
            u.cfg.server_cert u.heap).0

-- Whether the executor of a feature, if it has one, is one whose `Stop` returns.
abbrev pub Stops {ℓ} : {U : Type ℓ} → (Executor → Bool) → AutoUploadable U → Type 0
Stops stops u = (e : Executor) → u.executor ≡ some e → stops e ≡ true

pub stopped-Stops {ℓ} :
    {U : Type ℓ} (stops : Executor → Bool) (u : AutoUploadable U)
    → Stops stops u
    → executor_stopped stops u ≡ ok tt
unfolding executor_stopped
stopped-Stops stops u h = elim (Option-cases u.executor) [
  | inl e ↦ rw (executor_stopped, e) refl
  | inr (x, e) ↦ rw (executor_stopped, e, h x e) refl
]

module _ {ℓ} {U : Type ℓ} (json : Decoder) (stops : Executor → Bool) where
  activate_with-not_nil :
      (from to : Time) (u : AutoUploadable U)
      → activate_with json stops (some from) (some to) u ≢ err nil_pointer
  unfolding activate_with start_executor executor_stopped
  activate_with-not_nil from to u h = ground (arith, h)

  -- The cases of the payload of `activate`.
  fault_cases :
      (payload : Text) (u : AutoUploadable U) (params : Option (Option Time × Option Time))
      → json.activate_params payload ≡ params
      → (activate json stops payload u ≡ err nil_pointer)
        ↔ ((from to : Option Time) × (params ≡ some (from, to)) × ((from ≡ none) ⊎ (to ≡ none)))
  unfolding activate activate_with
  fault_cases payload u none h = rw (activate, h) (ground arith)
  fault_cases payload u (some (none, to)) h =
      rw (activate, h) ((λ _. (none, to, refl, inl refl)), λ _. refl)
  fault_cases payload u (some (some from, none)) h =
      rw (activate, h) ((λ _. (some from, none, refl, inr refl)), λ _. refl)
  fault_cases payload u (some (some from, some to)) h =
      rw (activate, h) ((λ f. absurd (activate_with-not_nil from to u f)), λ g. ground (arith, g))

  -- `activate` faults exactly if its payload is read and lacks one of the two times.
  pub activate-fault_iff :
      (payload : Text) (u : AutoUploadable U)
      → (activate json stops payload u ≡ err nil_pointer) ↔ (
          (from to : Option Time) × (json.activate_params payload ≡ some (from, to))
          × ((from ≡ none) ⊎ (to ≡ none)))
  activate-fault_iff payload u = fault_cases payload u (json.activate_params payload) refl

  -- Where the executor comes to a stop, if there is one, `deactivate` returns without one; and after
  -- it, connecting again starts the periodic uploads, if the configuration has them active, while the
  -- feature reports that they are not.
  pub connect_handler-deactivate :
      (payload : Text) (u : AutoUploadable U)
      → u.cfg.active ≡ true
      → Stops stops u
      → (v w : AutoUploadable U) × (deactivate json stops payload u ≡ ok (v, none))
        × (v.executor ≡ none)
        × (connect_handler stops v ≡ ok w)
        × (w.executor ≡ some (record { from = none; to = none; period = u.cfg.period }))
        × (w.sent
            ≡ v.sent
              ++ create_feature (record { active = false; start_time = none; end_time = none })
                ∷ [])
  unfolding deactivate connect_handler stop_executor start_executor executor_stopped
  connect_handler-deactivate payload u h s =
      let off : AutoUploadableState = record {
        active = false;
        start_time = none;
        end_time = none;
      } in
      let idle = record u { state = off } in
      let v = send (update_auto_upload off) (record idle { executor = none }) in
      (
        v,
        record (send (create_feature off) v) {
          executor = some (record { from = none; to = none; period = u.cfg.period });
        },
        rw (deactivate, stop_executor, stopped-Stops stops idle s) refl,
        refl,
        rw (connect_handler, h) refl,
        refl,
        refl,
      )

module _ {ℓ} {U : Type ℓ} (json : Decoder) where
  -- A `start` that answers with an error changes nothing.
  pub start_error_unchanged :
      (uploader : Dict Text → Text → Result OptionError U) (now : Time) (payload : Text)
      (u : AutoUploadable U) {e : ErrorResponse}
      → (start json uploader now payload u).1 ≡ some e
      → (start json uploader now payload u).0 ≡ u
  unfolding start
  start_error_unchanged uploader now payload u h = ground arith
