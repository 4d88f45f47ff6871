-- ===== src/Uploads/Threads/Safety.antt =====
-- client/uploads.go: no goroutine meets a nil status, whatever the order of the steps.
use file_upload.Prelude.{ℕ, ◌≡◌, refl, true, some, List, [], ◌∷◌, inl, inr, ◌++◌, Bool-cases, eqb}
use file_upload.Prelude.Text.{Text}
use file_upload.Prelude.Dict.{Dict}
use file_upload.Prelude.Result.{Result}
use file_upload.Uploaders.{OptionError}
use file_upload.Uploads.Multi.Finality.{Each-concat}
use file_upload.Uploads.Multi.Floats.{Float}
use file_upload.Uploads.Heap.{Heap, update}
use file_upload.Uploads.Threads.Frame.{Frame, Frame-refl, Frame-trans, IsNamed, IsNamed-Frame}
use file_upload.Uploads.Threads.Ready.{IsReady, has_needed, needs, exec-Goes, IsReady-Frame}
use file_upload.Uploads.Threads.{go_on, Instruction, Machine, run, resume}

module _ {ℓ} {U : Type ℓ} (f64 f32 : Float)
    (uploader : Dict Text → Text → Result OptionError U) where
  -- Each goroutine finds the statuses that it needs.
  abbrev pub AllReady : Machine f64 f32 uploader → Type 0
  AllReady m = (i : ℕ) → IsReady f64 f32 m.heap (m.rest i)

  AllReady-after :
      (i : ℕ) (x : Instruction f64 f32) (xs more : List (Instruction f64 f32))
      (m : Machine f64 f32 uploader) (g : Heap)
      → AllReady m
      → IsReady f64 f32 m.heap xs
      → Frame m.heap g
      → IsReady f64 f32 g more
      → AllReady (record { heap = g; rest = update m.rest i (more ++ xs) })
  unfolding update
  AllReady-after i x xs more m g all rs f ready j = elim (Bool-cases (eqb j i)) [
    | inl e ↦
        rw (e, update)
          (Each-concat (λ x. has_needed (needs f64 f32 x) g ≡ true) more xs ready
            (IsReady-Frame f64 f32 xs f rs))
    | inr e ↦ rw (e, update) (IsReady-Frame f64 f32 (m.rest j) f (all j))
  ]

  resume-AllReady :
      (i : ℕ) (xs : List (Instruction f64 f32)) (m : Machine f64 f32 uploader)
      → AllReady m
      → IsReady f64 f32 m.heap xs
      → (n : Machine f64 f32 uploader) × (resume f64 f32 uploader i xs m ≡ some n)
        × Frame m.heap n.heap
        × AllReady n
  unfolding resume go_on
  resume-AllReady i [] m all r = (m, refl, Frame-refl m.heap, all)
  resume-AllReady i (x ∷ xs) m all (r, rs) =
      let (g, more, e, ready, f) = exec-Goes f64 f32 uploader x m.heap r in
      (
        record { heap = g; rest = update m.rest i (more ++ xs) },
        rw (e, resume, go_on) refl,
        f,
        AllReady-after i x xs more m g all rs f ready,
      )

  -- Whatever steps the goroutines take in whatever order, if each finds the statuses that it needs
  -- and the registry is consistent: no step faults, and afterwards each goroutine finds the statuses
  -- that it needs and the registry is consistent: under each ID it holds an upload that was made and
  -- has this ID, and no entry that it did not hold before.
  pub run-AllReady :
      (turns : List ℕ) (m : Machine f64 f32 uploader)
      → AllReady m
      → IsNamed m.heap
      → (n : Machine f64 f32 uploader) × (run f64 f32 uploader turns m ≡ some n)
        × AllReady n
        × IsNamed n.heap
        × Frame m.heap n.heap
  unfolding run
  run-AllReady [] m all named = (m, refl, all, named, Frame-refl m.heap)
  run-AllReady (i ∷ turns) m all named =
      let (k, e, f, ready) = resume-AllReady i (m.rest i) m all (all i) in
      let (n, q, r, s, t) = run-AllReady turns k ready (IsNamed-Frame f named) in
      (n, rw (e, run) q, r, s, Frame-trans f t)
