-- ===== src/Uploads/Threads/Termination.antt =====
-- client/uploads.go: the goroutines come to their ends.
use file_upload.Prelude.{
  ℕ, ◌+◌, ◌-◌, ◌≤◌, ◌<◌, ◌++◌, ◌≡◌, eqb, eqb_iff, Bool-cases, ap, refl, arith, inl, inr, Option,
  none, some, List, [], ◌∷◌, if◌then◌else◌, ◌∙◌, Option-cases,
}
use mathlib.Core.Path.{subst}
use file_upload.Prelude.Text.{Text}
use file_upload.Prelude.Dict.{Dict}
use file_upload.Prelude.Result.{Result}
use file_upload.Uploaders.{OptionError}
use file_upload.Uploads.Multi.Floats.{Float}
use file_upload.Uploads.Heap.{Heap, update}
use file_upload.Uploads.Threads.{
  Instruction, start, announce, open_path, report, change, upload_failed, upload_finished,
  upload_cancelled, fail, finish, cancel, leave, cancel_uploads, look_file, close_file, dispose,
  delete_file, Machine, run, resume, go_on,
}
use file_upload.Uploads.Threads.Weights.{AtMost, weight, weights, weights-concat}
use file_upload.Uploads.Threads.Ending.{IsLighterIf, exec_light}
use file_upload.Uploads.Threads.Safety.{AllReady, run-AllReady}
use file_upload.Uploads.Threads.Frame.{IsNamed}

-- How often the goroutine `i` gets a turn.
abbrev pub turns_of : ℕ → List ℕ → ℕ
turns_of i [] = 0
turns_of i (j ∷ turns) = if eqb i j then 1 + turns_of i turns else turns_of i turns

module _ {ℓ} {U : Type ℓ} (f64 f32 : Float) (uploader : Dict Text → Text → Result OptionError U)
    (k : ℕ) where
  -- What the goroutine `i` has still to do is lighter by what it has done, and no upload has too many
  -- files.
  record IsLighter (i steps : ℕ) (s n : Machine f64 f32 uploader) : Type 0 where
    lighter : weights f64 f32 k (n.rest i) ≤ weights f64 f32 k (s.rest i) - steps
    few : AtMost k n.heap

  after_light :
      (i j : ℕ) (x : Instruction f64 f32) (xs more : List (Instruction f64 f32))
      (rest : ℕ → List (Instruction f64 f32))
      → rest j ≡ x ∷ xs
      → weights f64 f32 k more < weight f64 f32 k x
      → weights f64 f32 k (update rest j (more ++ xs) i)
        ≤ weights f64 f32 k (rest i) - (if eqb i j then 1 else 0)
  unfolding update weights
  after_light i j x xs more rest here light = elim (Bool-cases (eqb i j)) [
    | inl q ↦
        let held : weights f64 f32 k (rest i) ≡ weight f64 f32 k x + weights f64 f32 k xs =
          ap (weights f64 f32 k) (ap rest ((eqb_iff i j).0 q) ∙ here) in
        rw (q, update) (omega (arith, held, light, weights-concat f64 f32 k more xs))
    | inr q ↦ rw (q, update) (omega arith)
  ]

  idle_light :
      (i j : ℕ) (rest : ℕ → List (Instruction f64 f32))
      → rest j ≡ []
      → weights f64 f32 k (rest i) ≤ weights f64 f32 k (rest i) - (if eqb i j then 1 else 0)
  unfolding weights
  idle_light i j rest here = elim (Bool-cases (eqb i j)) [
    | inl q ↦
        let none_left : weights f64 f32 k (rest i) ≡ 0 =
          ap (weights f64 f32 k) (ap rest ((eqb_iff i j).0 q) ∙ here) in
        rw q (omega (arith, none_left))
    | inr q ↦ rw q (omega arith)
  ]

  go_on-IsLighter :
      (i j : ℕ) (x : Instruction f64 f32) (xs : List (Instruction f64 f32))
      (s n : Machine f64 f32 uploader) (o : Option (Heap × List (Instruction f64 f32)))
      → s.rest j ≡ x ∷ xs
      → IsLighterIf f64 f32 uploader k s.heap (weight f64 f32 k x) o
      → go_on f64 f32 uploader j xs s o ≡ some n
      → IsLighter i (if eqb i j then 1 else 0) s n
  unfolding go_on IsLighterIf
  go_on-IsLighter i j x xs s n none here l e = absurd (ground (arith, e))
  go_on-IsLighter i j x xs s n (some (g, more)) here (light, few) e =
      let m : Machine f64 f32 uploader = record { heap = g; rest = update s.rest j (more ++ xs) } in
      let l : IsLighter i (if eqb i j then 1 else 0) s m = record {
        lighter = after_light i j x xs more s.rest here light;
        few = few;
      } in
      subst (IsLighter i (if eqb i j then 1 else 0) s) (ground (arith, e)) l

  resume-IsLighter :
      (i j : ℕ) (xs : List (Instruction f64 f32)) (s n : Machine f64 f32 uploader)
      → s.rest j ≡ xs
      → AtMost k s.heap
      → resume f64 f32 uploader j xs s ≡ some n
      → IsLighter i (if eqb i j then 1 else 0) s n
  unfolding resume
  resume-IsLighter i j [] s n here few e =
      let l : IsLighter i (if eqb i j then 1 else 0) s s = record {
        lighter = idle_light i j s.rest here;
        few = few;
      } in
      subst (IsLighter i (if eqb i j then 1 else 0) s) (ground (arith, e)) l
  resume-IsLighter i j (x ∷ xs) s n here few e =
      go_on-IsLighter i j x xs s n _ here (exec_light f64 f32 uploader k x s.heap few) e

  run-IsLighter :
      (i : ℕ) (turns : List ℕ) (s n : Machine f64 f32 uploader)
      → AtMost k s.heap
      → run f64 f32 uploader turns s ≡ some n
      → IsLighter i (turns_of i turns) s n
  unfolding run
  run-IsLighter i [] s n few e =
      let l : IsLighter i 0 s s = record { lighter = omega arith; few = few } in
      subst (IsLighter i 0 s) (ground (arith, e)) l
  run-IsLighter i (j ∷ turns) s n few e =
      elim (Option-cases (resume f64 f32 uploader j (s.rest j) s)) [
        | inl q ↦ absurd (ground (arith, e, q))
        | inr (m, q) ↦
            let first = resume-IsLighter i j (s.rest j) s m refl few q in
            let later = run-IsLighter i turns m n first.few (ground (arith, e, q)) in
            record { lighter = ground (arith, first.lighter, later.lighter); few = later.few }
      ]

  some_weight : (x : Instruction f64 f32) → 1 ≤ weight f64 f32 k x
  unfolding weight
  some_weight (start a now options attempt) = omega arith
  some_weight (announce a now info attempt) = omega arith
  some_weight (open_path a now attempt) = omega arith
  some_weight (report a n) = omega arith
  some_weight (change m n) = omega arith
  some_weight (upload_failed a now e) = omega arith
  some_weight (upload_finished a now) = omega arith
  some_weight (upload_cancelled a now code message) = omega arith
  some_weight (fail m now e) = omega arith
  some_weight (finish a now) = omega arith
  some_weight (cancel m now code message) = omega arith
  some_weight (leave id) = omega arith
  some_weight (cancel_uploads m) = omega arith
  some_weight (look_file a) = omega arith
  some_weight (close_file a) = omega arith
  some_weight (dispose a) = omega arith
  some_weight (delete_file a) = omega arith

  weights_none : (xs : List (Instruction f64 f32)) → weights f64 f32 k xs ≤ 0 → xs ≡ []
  unfolding weights
  weights_none [] e = refl
  weights_none (x ∷ xs) e = absurd (omega (arith, e, some_weight x))

  run_ends :
      (i : ℕ) (turns : List ℕ) (s n : Machine f64 f32 uploader)
      → AtMost k s.heap
      → run f64 f32 uploader turns s ≡ some n
      → weights f64 f32 k (s.rest i) ≤ turns_of i turns
      → n.rest i ≡ []
  run_ends i turns s n few e enough =
      let l = run-IsLighter i turns s n few e in
      weights_none (n.rest i) (omega (arith, l.lighter, enough))

  -- If each goroutine finds the statuses that it needs, the registry is consistent and no upload has
  -- more than `k` files: in whatever order the goroutines take their steps, if each gets as many turns
  -- as what it has to do weighs, no step faults and all goroutines come to their ends.
  pub run-ended :
      (turns : List ℕ) (s : Machine f64 f32 uploader)
      → AllReady f64 f32 uploader s
      → IsNamed s.heap
      → AtMost k s.heap
      → ((i : ℕ) → weights f64 f32 k (s.rest i) ≤ turns_of i turns)
      → (n : Machine f64 f32 uploader) × (run f64 f32 uploader turns s ≡ some n)
        × ((i : ℕ) → n.rest i ≡ [])
  run-ended turns s ready named few enough =
      let (n, e, ready', named', frame) = run-AllReady f64 f32 uploader turns s ready named in
      (n, e, λ i. run_ends i turns s n few e (enough i))
