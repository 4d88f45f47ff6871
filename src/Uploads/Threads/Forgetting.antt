-- ===== src/Uploads/Threads/Forgetting.antt =====
-- client/uploads.go: when the goroutines are at their ends, the registry has forgotten each upload that
-- has ended.
use file_upload.Prelude.{
  ℕ, ◌++◌, ◌⊎◌, ◌≡◌, eqb, eqb_iff, Bool-cases, ap, sym, refl, arith, inl, inr, true, Option, none,
  some, List, [], ◌∷◌, ◌∙◌, Option-cases,
}
use mathlib.Core.Path.{subst}
use file_upload.Prelude.Text.{Text, text_beq_refl}
use file_upload.Prelude.Dict.{Dict, lookup}
use file_upload.Prelude.Result.{Result}
use file_upload.Uploaders.{OptionError}
use file_upload.Uploads.Multi.Floats.{Float}
use file_upload.Uploads.Heap.{update_self, Heap, update}
use file_upload.Uploads.Registry.{get, remove}
use file_upload.Uploads.Registry.Removal.{get-remove, removed_ids}
use file_upload.Uploads.Threads.{Instruction, leave, Machine, exec, run, resume, go_on}
use file_upload.Uploads.Threads.Frame.{Frame, exec-FrameIf, FrameIf}
use file_upload.Uploads.Threads.Leaving.{
  has_ended, WillLeave, WillLeave-before, WillLeave-after, Ends, EndsIf, exec-EndsIf,
}

get-remove_self : (id : Text) (h : Heap) → get id (remove id h) ≡ none
unfolding get removed_ids
get-remove_self id h = elim (Option-cases (lookup id h.uploads)) [
  | inl e ↦ get-remove id id h ∙ rw (e, removed_ids) (ground (arith, e))
  | inr (u, e) ↦ get-remove id id h ∙ ground (arith, e, text_beq_refl id)
]

module _ {ℓ} {U : Type ℓ} (f64 f32 : Float)
    (uploader : Dict Text → Text → Result OptionError U) where
  -- The registry has forgotten the ID, or one of the goroutines has still to remove it.
  abbrev IsLeaving : Text → Machine f64 f32 uploader → Type 0
  IsLeaving id s = (get id s.heap ≡ none) ⊎ ((i : ℕ) × WillLeave f64 f32 id (s.rest i))

  -- So it is for each upload that has ended.
  abbrev pub AllLeaving : Machine f64 f32 uploader → Type 0
  AllLeaving s =
      (m : ℕ) → has_ended (s.heap.multis m) ≡ true → IsLeaving (s.heap.multis m).correlation_id s

  forgotten_before : (h g : Heap) (id : Text) → Frame h g → get id h ≡ none → get id g ≡ none
  forgotten_before h g id f e = elim (Option-cases (get id g)) [
    | inl q ↦ q
    | inr (u, q) ↦ absurd (ground (arith, e, f.entries id u q))
  ]

  -- The goroutine `i` has taken the step `x`, of those that it had still to do.
  module _ (i : ℕ) (x : Instruction f64 f32) (xs more : List (Instruction f64 f32))
      (s : Machine f64 f32 uploader) (g : Heap) (f : Frame s.heap g) where
    after : Machine f64 f32 uploader
    after = record { heap = g; rest = update s.rest i (more ++ xs) }

    will_leave : (id : Text) → WillLeave f64 f32 id (more ++ xs) → IsLeaving id after
    unfolding after update
    will_leave id l = inr (i, rw update_self l)

    taken :
        (id : Text)
        → (x ≡ leave id → get id g ≡ none)
        → WillLeave f64 f32 id (x ∷ xs)
        → IsLeaving id after
    unfolding after
    taken id removes (inl e) = inl (removes e)
    taken id removes (inr l) = will_leave id (WillLeave-after f64 f32 id more xs l)

    after-IsLeaving :
        (id : Text)
        → s.rest i ≡ x ∷ xs
        → (x ≡ leave id → get id g ≡ none)
        → IsLeaving id s
        → IsLeaving id after
    unfolding after update
    after-IsLeaving id here removes (inl e) = inl (forgotten_before s.heap g id f e)
    after-IsLeaving id here removes (inr (j, l)) = elim (Bool-cases (eqb j i)) [
      | inl q ↦
          taken id removes (subst (WillLeave f64 f32 id) (ap s.rest ((eqb_iff j i).0 q) ∙ here) l)
      | inr q ↦ inr (j, rw (q, update) l)
    ]

    AllLeaving-after :
        s.rest i ≡ x ∷ xs
        → ((id : Text) → x ≡ leave id → get id g ≡ none)
        → ((m : ℕ) → Ends f64 f32 m s.heap g more)
        → AllLeaving s
        → AllLeaving after
    unfolding after
    AllLeaving-after here removes ends all m ended =
        elim (Bool-cases (has_ended (s.heap.multis m))) [
          | inl before ↦
              subst (λ id. IsLeaving id after) (sym (f.multi_names m))
                (after-IsLeaving (s.heap.multis m).correlation_id here (removes _) (all m before))
          | inr before ↦
              will_leave (g.multis m).correlation_id
                (WillLeave-before f64 f32 _ more xs ((ends m).leaves before ended))
        ]

  leave_removes :
      (x : Instruction f64 f32) (h g : Heap) (more : List (Instruction f64 f32)) (id : Text)
      → exec f64 f32 uploader x h ≡ some (g, more)
      → x ≡ leave id
      → get id g ≡ none
  unfolding exec
  leave_removes x h g more id e same =
      let removed : some (remove id h, []) ≡ some (g, more) =
        ap (λ y. exec f64 f32 uploader y h) (sym same) ∙ e in
      subst (λ k. get id k ≡ none) (ground (arith, removed)) (get-remove_self id h)

  go_on-AllLeaving :
      (i : ℕ) (x : Instruction f64 f32) (xs : List (Instruction f64 f32))
      (s n : Machine f64 f32 uploader) (o : Option (Heap × List (Instruction f64 f32)))
      → s.rest i ≡ x ∷ xs
      → exec f64 f32 uploader x s.heap ≡ o
      → FrameIf f64 f32 uploader s.heap o
      → ((m : ℕ) → EndsIf f64 f32 uploader m s.heap o)
      → go_on f64 f32 uploader i xs s o ≡ some n
      → AllLeaving s
      → AllLeaving n
  unfolding go_on EndsIf after
  go_on-AllLeaving i x xs s n none here made f ends e all = absurd (ground (arith, e))
  go_on-AllLeaving i x xs s n (some (g, more)) here made f ends e all =
      subst AllLeaving (ground (arith, e)) (
        AllLeaving-after i x xs more s g f here (λ id. leave_removes x s.heap g more id made) ends
          all)

  resume-AllLeaving :
      (i : ℕ) (xs : List (Instruction f64 f32)) (s n : Machine f64 f32 uploader)
      → s.rest i ≡ xs
      → resume f64 f32 uploader i xs s ≡ some n
      → AllLeaving s
      → AllLeaving n
  unfolding resume
  resume-AllLeaving i [] s n here e all = subst AllLeaving (ground (arith, e)) all
  resume-AllLeaving i (x ∷ xs) s n here e all =
      go_on-AllLeaving i x xs s n _ here refl (exec-FrameIf f64 f32 uploader x s.heap)
        (λ m. exec-EndsIf f64 f32 uploader m x s.heap) e all

  run-AllLeaving :
      (turns : List ℕ) (s n : Machine f64 f32 uploader)
      → run f64 f32 uploader turns s ≡ some n
      → AllLeaving s
      → AllLeaving n
  unfolding run
  run-AllLeaving [] s n e all = subst AllLeaving (ground (arith, e)) all
  run-AllLeaving (i ∷ turns) s n e all =
      elim (Option-cases (resume f64 f32 uploader i (s.rest i) s)) [
        | inl q ↦ absurd (ground (arith, e, q))
        | inr (k, q) ↦
            run-AllLeaving turns k n (ground (arith, e, q))
              (resume-AllLeaving i (s.rest i) s k refl q all)
      ]

  -- Whatever steps the goroutines take in whatever order without a fault, if at first the registry has
  -- forgotten each upload that has ended, or a goroutine has still to remove it: when all goroutines
  -- are at their ends, the registry has forgotten each upload that has ended.
  pub run-forgotten :
      (turns : List ℕ) (s n : Machine f64 f32 uploader) (m : ℕ)
      → run f64 f32 uploader turns s ≡ some n
      → AllLeaving s
      → ((i : ℕ) → n.rest i ≡ [])
      → has_ended (n.heap.multis m) ≡ true
      → get (n.heap.multis m).correlation_id n.heap ≡ none
  run-forgotten turns s n m e all over ended = elim (run-AllLeaving turns s n e all m ended) [
    | inl gone ↦ gone
    | inr (i, l) ↦ absurd (subst (WillLeave f64 f32 _) (over i) l)
  ]
