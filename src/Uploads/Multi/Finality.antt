-- ===== src/Uploads/Multi/Finality.antt =====
-- client/uploads.go: what the methods of `MultiUpload` do to an upload that has ended.
use file_upload.Prelude.{none, ◌++◌, ◌∷◌, arith, Option, ◌≡◌, true, some, List, [], ◌∷◌, ◌++◌}
use mathlib.Core.Path.{subst}
use file_upload.Uploads.Status.{UploadStatus, finished}
use file_upload.Uploads.Multi.{
  MultiUpload, Outcome, upload_started, cancel_status, fail_status, change_progress, finish_status,
}
use file_upload.Uploads.Multi.Actions.{
  run-cons, run, Action, add_child, remove_child, start, cancel, fail, progress, finish, act,
}
use file_upload.Uploads.Multi.Floats.{Float}

-- `t` tells the same end as `s`: only the progress may differ.
pub record SameEnd (s t : UploadStatus) : Type 0 where
  pub state : t.state ≡ s.state
  pub status_code : t.status_code ≡ s.status_code
  pub message : t.message ≡ s.message
  pub end_time : t.end_time ≡ s.end_time
  pub start_time : t.start_time ≡ s.start_time

abbrev pub Each {ℓ κ} : {A : Type ℓ} → (A → Type κ) → List A → Type κ
Each P [] = Unit
Each P (e ∷ es) = P e × Each P es

pub Each-concat {ℓ κ} :
    {A : Type ℓ} (P : A → Type κ) (before later : List A)
    → Each P before
    → Each P later
    → Each P (before ++ later)
Each-concat P [] later p q = q
Each-concat P (e ∷ es) later (p, ps) q = (p, Each-concat P es later ps q)

abbrev pub status_or : Option UploadStatus → UploadStatus → UploadStatus
status_or none s = s
status_or (some t) s = t

-- What an action leaves of an upload that has ended as `s` says.
pub record Kept (s : UploadStatus) (o : Outcome) : Type 0 where
  pub held : o.upload.status ≡ some (status_or o.upload.status s)
  pub same : SameEnd s (status_or o.upload.status s)
  pub told : Each (SameEnd s) o.events

SameEnd-trans : {s t u : UploadStatus} → SameEnd s t → SameEnd t u → SameEnd s u
SameEnd-trans p q = ground arith

finished-SameEnd : {s t : UploadStatus} → SameEnd s t → finished s ≡ true → finished t ≡ true
unfolding finished
finished-SameEnd p f = rw p.state f

Each-SameEnd :
    {s t : UploadStatus} (es : List UploadStatus)
    → SameEnd s t
    → Each (SameEnd t) es
    → Each (SameEnd s) es
Each-SameEnd [] p h = tt
Each-SameEnd (e ∷ es) p h = (SameEnd-trans p h.0, Each-SameEnd es p h.1)

module _ (f64 f32 : Float) where
  act-Kept :
      (a : Action) (u : MultiUpload) (s : UploadStatus) {o : Outcome}
      → u.status ≡ some s
      → finished s ≡ true
      → act f64 f32 a u ≡ some o
      → Kept s o
  unfolding act upload_started cancel_status fail_status change_progress finish_status finished
  act-Kept (add_child id x) u s h f e = ground arith
  act-Kept (remove_child id) u s h f e = ground arith
  act-Kept (start now info) u s h f e = ground arith
  act-Kept (cancel now code message) u s h f e = ground arith
  act-Kept (fail now err) u s h f e = ground arith
  act-Kept (progress n) u s h f e = ground arith
  act-Kept (finish now su) u s h f e = ground arith

  -- Whatever the methods do in whatever order, an upload that has ended keeps its state, status
  -- code, message and times, and each later notification shows them.
  pub run-Kept :
      (actions : List Action) (u : MultiUpload) (s : UploadStatus) (v : MultiUpload)
      (es : List UploadStatus)
      → u.status ≡ some s
      → finished s ≡ true
      → run f64 f32 actions u ≡ some (v, es)
      → Kept s (record { upload = v; events = es; done = true })
  unfolding run
  run-Kept [] u s v es h f e = ground arith
  run-Kept (a ∷ rest) u s v es h f e =
      let (o, es', first, others, all) = run-cons f64 f32 a rest u v es e in
      let k = act-Kept a u s h f first in
      let t = status_or o.upload.status s in
      let ih = run-Kept rest o.upload t v es' k.held (finished-SameEnd k.same f) others in
      record {
        held = ground (arith, ih.held);
        same = SameEnd-trans k.same (subst (SameEnd t) (status_or_some v.status ih.held) ih.same);
        told =
            rw all (Each-concat (SameEnd s) o.events es' k.told (Each-SameEnd es' k.same ih.told));
      }
    where
      status_or_some : {r : UploadStatus} (o : Option UploadStatus) → o ≡ some r → r ≡ status_or o s
      status_or_some o e = ground arith
