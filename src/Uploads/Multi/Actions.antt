-- ===== src/Uploads/Multi/Actions.antt =====
-- The atomic steps on one `MultiUpload`: each is a part of a method that runs under the upload's
-- mutex. A list of them is an interleaving of the goroutines that use the upload.
use file_upload.Prelude.{
  inr, arith, inl, Option-cases, ◌≡◌, ℕ, false, Option, none, some, List, [], ◌∷◌, ◌++◌,
}
use file_upload.Prelude.Text.{Text}
use file_upload.Prelude.Dict.{Dict, delete, insert}
use file_upload.Prelude.Int.{ℤ}
use file_upload.Uploads.Status.{Time, UploadStatus}
use file_upload.Uploads.Multi.{
  SingleUpload, MultiUpload, Outcome, unchanged, upload_started, cancel_status, fail_status,
  change_progress, finish_status,
}
use file_upload.Uploads.Multi.Floats.{Float}

pub data Action : Type 0 where
  add_child : Text → ℕ → Action
  remove_child : Text → Action
  start : Time → Dict Text → Action
  cancel : Time → Text → Text → Action
  fail : Time → Text → Action
  progress : ℤ → Action
  finish : Time → SingleUpload → Action

-- The upload with `id` put among its children, and with it taken out.
unfoldable pub with_child : Text → ℕ → MultiUpload → MultiUpload
with_child id a u = record u { children = insert id a u.children }

unfoldable pub without_child : Text → MultiUpload → MultiUpload
without_child id u = record u { children = delete id u.children }

prepend :
    List UploadStatus
    → Option (MultiUpload × List UploadStatus)
    → Option (MultiUpload × List UploadStatus)
prepend events none = none
prepend events (some (u, es)) = some (u, events ++ es)

module _ (f64 f32 : Float) where
  unfoldable pub act : Action → MultiUpload → Option Outcome
  unfolding with_child without_child
  act (add_child id a) u = some (unchanged (with_child id a u) false)
  act (remove_child id) u = some (unchanged (without_child id u) false)
  act (start now info) u = some (upload_started now info u)
  act (cancel now code message) u = some (cancel_status now code message u)
  act (fail now err) u = some (fail_status now err u)
  act (progress n) u = change_progress f64 f32 n u
  act (finish now su) u = finish_status f64 f32 now su u

  -- The upload after the actions, and all that the listener was told.
  unfoldable pub run : List Action → MultiUpload → Option (MultiUpload × List UploadStatus)
  unfolding prepend
  run [] u = some (u, [])
  run (a ∷ rest) u = elim (act a u) [ none ↦ none | some o ↦ prepend o.events (run rest o.upload) ]

  -- A run that does not fault is a first action and the run of the others.
  pub run-cons :
      (a : Action) (rest : List Action) (u v : MultiUpload) (es : List UploadStatus)
      → run (a ∷ rest) u ≡ some (v, es)
      → (o : Outcome) × (es' : List UploadStatus) × (act a u ≡ some o)
        × (run rest o.upload ≡ some (v, es'))
        × (es ≡ o.events ++ es')
  unfolding run
  run-cons a rest u v es h = elim (Option-cases (act a u)) [
    | inl q ↦ absurd (ground (arith, q))
    | inr (o, q) ↦ elim (Option-cases (run rest o.upload)) [
      | inl r ↦ absurd (ground (arith, q, r))
      | inr ((w, es'), r) ↦ (o, es', q, ground (arith, q, r), ground (arith, q, r))
    ]
  ]
