-- ===== src/Uploads/Threads/Refine.antt =====
-- client/uploads.go: what interleaved goroutines do to one upload is a run of its atomic steps.
use file_upload.Prelude.{
  ℕ, ◌++◌, ◌≡◌, ap, sym, refl, arith, inl, inr, Option, none, some, List, [], ◌∷◌, true, ◌∙◌,
  append-nil, append_assoc, Option-cases,
}
use mathlib.Core.Path.{subst}
use file_upload.Prelude.Sublists.{Sublist, none_left, Sublist-skip, Sublist-after}
use file_upload.Prelude.Text.{Text}
use file_upload.Prelude.Dict.{Dict}
use file_upload.Prelude.Result.{Result}
use file_upload.Uploaders.{OptionError}
use file_upload.Uploads.Multi.Finality.{run-Kept, SameEnd, status_or}
use file_upload.Uploads.Status.{finished, UploadStatus}
use file_upload.Uploads.Multi.{MultiUpload, Outcome}
use file_upload.Uploads.Multi.Actions
use file_upload.Uploads.Multi.Actions.{Action, act}
use file_upload.Uploads.Multi.Floats.{Float}
use file_upload.Uploads.Heap.{Heap}
use file_upload.Uploads.Threads.{Instruction, Machine, resume, run, go_on}
use file_upload.Uploads.Threads.Projection.{Acted, ActedIf, exec-ActedIf}

told_twice :
    (told before later : List UploadStatus) {first last : List UploadStatus}
    → first ≡ told ++ before
    → last ≡ first ++ later
    → last ≡ told ++ (before ++ later)
told_twice told before later p q = q ∙ ap (λ es. es ++ later) p ∙ append_assoc told before later

module _ (f64 f32 : Float) where
  -- A run of the atomic steps leads from the upload at `m` in `h` to that in `g`, and what the
  -- listener is told by it is a part, in order, of what it is told meanwhile.
  pub record IsRunOf (m : ℕ) (h g : Heap) : Type 0 where
    pub actions : List Action
    pub events : List UploadStatus
    pub all_events : List UploadStatus
    pub runs : Actions.run f64 f32 actions (h.multis m) ≡ some (g.multis m, events)
    pub told : g.events ≡ h.events ++ all_events
    pub among : Sublist events all_events

  IsRunOf-refl : (m : ℕ) (h : Heap) → IsRunOf m h h
  unfolding Actions.run
  IsRunOf-refl m h = record {
    actions = [];
    events = [];
    all_events = [];
    runs = refl;
    told = sym (append-nil h.events);
    among = none_left;
  }

  run_on :
      (a : Action) (o : Outcome) (actions : List Action) (u v : MultiUpload)
      (es : List UploadStatus)
      → act f64 f32 a u ≡ some o
      → Actions.run f64 f32 actions o.upload ≡ some (v, es)
      → Actions.run f64 f32 (a ∷ actions) u ≡ some (v, o.events ++ es)
  unfolding Actions.run
  run_on a o actions u v es e r = ground (arith, e, r)

  IsRunOf-cons : (m : ℕ) {h k g : Heap} → Acted f64 f32 m h k → IsRunOf m k g → IsRunOf m h g
  IsRunOf-cons m {h} {k} {g} s r = elim s.did [
    | inl same ↦ record {
      actions = r.actions;
      events = r.events;
      all_events = s.events ++ r.all_events;
      runs = ap (Actions.run f64 f32 r.actions) (sym same) ∙ r.runs;
      told = told_twice h.events s.events r.all_events s.told r.told;
      among = Sublist-skip s.events r.among;
    }
    | inr (a, o, e, upload, events) ↦ record {
      actions = a ∷ r.actions;
      events = o.events ++ r.events;
      all_events = s.events ++ r.all_events;
      runs =
          run_on a o r.actions _ _ _ e (ap (Actions.run f64 f32 r.actions) (sym upload) ∙ r.runs);
      told = told_twice h.events s.events r.all_events s.told r.told;
      among = rw events (Sublist-after o.events r.among);
    }
  ]

  module _ {ℓ} {U : Type ℓ} (uploader : Dict Text → Text → Result OptionError U) where
    go_on-Acted :
        (m i : ℕ) (xs : List (Instruction f64 f32)) (s n : Machine f64 f32 uploader)
        (o : Option (Heap × List (Instruction f64 f32)))
        → ActedIf f64 f32 uploader m s.heap o
        → go_on f64 f32 uploader i xs s o ≡ some n
        → Acted f64 f32 m s.heap n.heap
    unfolding ActedIf go_on
    go_on-Acted m i xs s n none a e = absurd (ground (arith, e))
    go_on-Acted m i xs s n (some (g, more)) a e =
        subst (λ h. Acted f64 f32 m s.heap h) (ground (arith, e)) a

    resume-IsRunOf :
        (m i : ℕ) (xs : List (Instruction f64 f32)) (s k : Machine f64 f32 uploader) {g : Heap}
        → resume f64 f32 uploader i xs s ≡ some k
        → IsRunOf m k.heap g
        → IsRunOf m s.heap g
    unfolding resume
    resume-IsRunOf m i [] s k {g} e r = subst (λ h. IsRunOf m h g) (ground (arith, e)) r
    resume-IsRunOf m i (x ∷ xs) s k e r =
        IsRunOf-cons m (go_on-Acted m i xs s k _ (exec-ActedIf f64 f32 uploader m x s.heap) e) r

    -- Whatever steps the goroutines take in whatever order without a fault, what they do to an upload
    -- is a run of its atomic steps, and what the listener is told by that run is among all that it is
    -- told meanwhile, in the same order.
    pub run-IsRunOf :
        (m : ℕ) (turns : List ℕ) (s n : Machine f64 f32 uploader)
        → run f64 f32 uploader turns s ≡ some n
        → IsRunOf m s.heap n.heap
    unfolding run
    run-IsRunOf m [] s n e =
        subst (λ h. IsRunOf m s.heap h) (ground (arith, e)) (IsRunOf-refl m s.heap)
    run-IsRunOf m (i ∷ turns) s n e = elim (Option-cases (resume f64 f32 uploader i (s.rest i) s)) [
      | inl q ↦ absurd (ground (arith, e, q))
      | inr (k, q) ↦
          resume-IsRunOf m i (s.rest i) s k q (run-IsRunOf m turns k n (ground (arith, e, q)))
    ]

    -- Whatever steps the goroutines take in whatever order without a fault, an upload that has ended
    -- keeps its state, status code, message and times.
    pub run-SameEnd :
        (m : ℕ) (turns : List ℕ) (s n : Machine f64 f32 uploader) (t : UploadStatus)
        → run f64 f32 uploader turns s ≡ some n
        → (s.heap.multis m).status ≡ some t
        → finished t ≡ true
        → (u : UploadStatus) × ((n.heap.multis m).status ≡ some u) × SameEnd t u
    run-SameEnd m turns s n t e status ended =
        let r = run-IsRunOf m turns s n e in
        let k =
          run-Kept f64 f32 r.actions (s.heap.multis m) t (n.heap.multis m) r.events status ended
            r.runs in
        (status_or (n.heap.multis m).status t, k.held, k.same)
