-- ===== src/Uploads/Multi/Transitions.antt =====
-- client/uploads.go: the states of an upload as a state machine.
use file_upload.Prelude.{◌≡◌, ◌⊎◌, Bool, true, false, Option, none, some, arith, nat_eq}
use file_upload.Uploads.Status.{State, uploading, success, failed, canceled, UploadStatus, finished}
use file_upload.Uploads.Multi.{
  MultiUpload, Outcome, upload_started, cancel_status, fail_status, change_progress, finish_status,
}
use file_upload.Uploads.Multi.Actions.{
  Action, add_child, remove_child, start, cancel, fail, progress, finish, act,
}
use file_upload.Uploads.Multi.Floats.{Float}

-- The state of an upload; `none` before it is started.
abbrev pub state_of : Option UploadStatus → Option State
state_of none = none
state_of (some s) = some s.state

-- The moves of the state machine.
abbrev pub moves : Action → Option State → Option State → Bool
moves (start now info) none (some uploading) = true
moves (cancel now code message) none (some canceled) = true
moves (cancel now code message) (some uploading) (some canceled) = true
moves (fail now err) (some uploading) (some failed) = true
moves (finish now su) (some uploading) (some success) = true
moves _ _ _ = false

-- The states that an upload can be in.
abbrev pub reachable : Option State → Bool
reachable none = true
reachable (some uploading) = true
reachable (some success) = true
reachable (some failed) = true
reachable (some canceled) = true
reachable _ = false

module _ (f64 f32 : Float) where
  -- From a state that an upload can be in, an action leads to another such state, along a move of
  -- the state machine or by staying.
  pub act-moves :
      (a : Action) (u : MultiUpload) {o : Outcome}
      → reachable (state_of u.status) ≡ true
      → act f64 f32 a u ≡ some o
      → (reachable (state_of o.upload.status) ≡ true)
        × ((state_of o.upload.status ≡ state_of u.status)
            ⊎ (moves a (state_of u.status) (state_of o.upload.status) ≡ true))
  unfolding act upload_started cancel_status fail_status change_progress finish_status finished
  act-moves (add_child id x) u h e = ground arith
  act-moves (remove_child id) u h e = ground arith
  act-moves (start now info) u h e = ground arith
  act-moves (cancel now code message) u h e = ground arith
  act-moves (fail now err) u h e = ground arith
  act-moves (progress n) u h e = ground arith
  act-moves (finish now su) u h e = ground arith
