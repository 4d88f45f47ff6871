-- ===== src/Uploads/Threads/Tests.antt =====
-- client/uploads.go: goroutines that fail, finish and cancel an upload of two files.
use file_upload.Prelude.{
  Bool-cases, inl, inr, ◌≤◌, ◌+◌, ◌++◌, ◌⊎◌, zero, suc, ℕ, ◌≡◌, ◌++◌, refl, eqb, none, some, Option,
  List, [], ◌∷◌, arith, if◌then◌else◌,
}
use file_upload.Prelude.Text.{text_beq, text_beq_iff, Text, bytes}
use file_upload.Prelude.Dict.{Dict, lookup, delete}
use file_upload.Prelude.Result.{Result, ok}
use file_upload.Prelude.Int.{pos}
use file_upload.Uploaders.{OptionError}
use file_upload.Uploads.Status.{success, finished}
use file_upload.Uploads.Examples.{fresh, whole, running, in_progress}
use file_upload.Uploads.Heap.{Upload, single, multi, update}
use file_upload.Uploads.Multi
use file_upload.Uploads.Methods
use file_upload.Uploads.Methods.{Attempt}
use file_upload.Uploads.Threads.Once.{flag, starts, starts_once}
use file_upload.Uploads.Registry.{get, remove}
use file_upload.Uploads.Threads.{
  start, exec, start_single, swap_started, resume, go_on, Instruction, upload_failed,
  upload_finished, cancel_single, fail, close_file, leave, Machine, run,
}
use file_upload.Uploads.Threads.Frame.{IsNamed, Frame}
use file_upload.Uploads.Threads.Safety.{AllReady, run-AllReady}
use file_upload.Uploads.Threads.Refine.{IsRunOf, run-IsRunOf}
use file_upload.Uploads.Threads.Forgetting.{AllLeaving, run-forgotten}
use file_upload.Uploads.Threads.Weights.{weights}
use file_upload.Uploads.Threads.Termination.{turns_of, run-ended}
use file_upload.Uploads.Threads.Race.{IsSuccessIn, IsLastPair, failure_hidden}

abbrev any_uploader : Dict Text → Text → Result OptionError ℕ
any_uploader options cert = ok 0

-- One goroutine fails the first file, and one is done with the second.
abbrev work : ℕ → List (Instruction whole whole)
work zero = upload_failed 1 9 (bytes "lost") ∷ close_file 1 ∷ []
work (suc zero) = upload_finished 2 11 ∷ close_file 2 ∷ []
work _ = []

abbrev two_files : Machine whole whole any_uploader
two_files = record { heap = running; rest = work }

pair-IsLastPair :
    IsLastPair whole whole any_uploader two_files 0 1 1 2 9 11
      (bytes "lost")
      (close_file 1 ∷ [])
      (close_file 2 ∷ [])
      in_progress
unfolding finished delete text_beq
pair-IsLastPair = record {
  apart = ground arith;
  fails = refl;
  is_done = refl;
  same_upload = refl;
  last = refl;
  active = refl;
  unfinished = refl;
}

failure_hidden_example :
    (k : Machine whole whole any_uploader) × (run whole whole any_uploader
        (0 ∷ 1 ∷ 1 ∷ 1 ∷ [])
        two_files
      ≡ some k)
    × ((k.heap.multis 0).status
        ≡ some (record in_progress { progress = pos 100; state = success; end_time = 11 }))
    × (k.heap.events
        ≡ [] ++ (record in_progress { progress = pos 100; state = success; end_time = 11 } ∷ []))
    × (k.rest 0 ≡ leave (bytes "u#1") ∷ fail 0 9 (bytes "lost") ∷ close_file 1 ∷ [])
    × ((turns : List ℕ)
        → IsSuccessIn whole whole any_uploader 0 (run whole whole any_uploader turns k))
failure_hidden_example =
    failure_hidden whole whole any_uploader two_files 0 1 1 2 9 11 (bytes "lost")
      (close_file 1 ∷ []) (close_file 2 ∷ []) in_progress pair-IsLastPair

all_ready : AllReady whole whole any_uploader two_files
all_ready zero = (refl, (refl, tt))
all_ready (suc zero) = (refl, (refl, tt))
all_ready (suc (suc i)) = tt

-- What the registry of the example holds.
running_entry :
    (k : Text) (u : Upload)
    → get k running ≡ some u
    → ((k ≡ bytes "u") × (u ≡ multi 0))
      ⊎ (((k ≡ bytes "u#1") × (u ≡ single 1)) ⊎ ((k ≡ bytes "u#2") × (u ≡ single 2)))
unfolding get lookup
running_entry k u e = ground (
  arith,
  e,
  text_beq_iff (bytes "u") k,
  text_beq_iff (bytes "u#1") k,
  text_beq_iff (bytes "u#2") k,
)

running-IsNamed : IsNamed running
running-IsNamed = record {
  single_old = λ k a e. ground (arith, running_entry k (single a) e);
  multi_old = λ k m e. ground (arith, running_entry k (multi m) e);
  single_named = λ k a e. ground (arith, running_entry k (single a) e);
  multi_named = λ k m e. ground (arith, running_entry k (multi m) e);
  parent_old = λ k a e. omega arith;
}

-- The two goroutines take turns.
abbrev turns : List ℕ
turns = 0 ∷ 1 ∷ 0 ∷ 1 ∷ 1 ∷ 0 ∷ []

run-AllReady_example :
    (n : Machine whole whole any_uploader) × (run whole whole any_uploader turns two_files ≡ some n)
    × AllReady whole whole any_uploader n
    × IsNamed n.heap
    × Frame two_files.heap n.heap
run-AllReady_example =
    run-AllReady whole whole any_uploader turns two_files all_ready running-IsNamed

abbrev or_same :
    Machine whole whole any_uploader
    → Option (Machine whole whole any_uploader)
    → Machine whole whole any_uploader
or_same m none = m
or_same m (some n) = n

abbrev both_steps : Machine whole whole any_uploader
both_steps = or_same two_files (run whole whole any_uploader turns two_files)

run-IsRunOf_example : IsRunOf whole whole 0 two_files.heap both_steps.heap
unfolding run Multi.finish_status remove lookup delete text_beq
run-IsRunOf_example = run-IsRunOf whole whole any_uploader 0 turns two_files both_steps refl

-- One goroutine cancels the first file.
abbrev one_cancels : Machine whole whole any_uploader
one_cancels = record {
  heap = running;
  rest = λ i. if eqb i 0 then cancel_single whole whole 1 9 (bytes "user") (bytes "enough") else [];
}

abbrev alone : List ℕ
alone = 0 ∷ 0 ∷ 0 ∷ 0 ∷ 0 ∷ 0 ∷ 0 ∷ 0 ∷ 0 ∷ []

abbrev all_over : Machine whole whole any_uploader
all_over = or_same one_cancels (run whole whole any_uploader alone one_cancels)

none_ended : AllLeaving whole whole any_uploader one_cancels
unfolding finished
none_ended m e = absurd (ground (arith, e))

at_end : (i : ℕ) → all_over.rest i ≡ []
unfolding run update Multi.cancel_status Methods.cancel_at remove lookup delete text_beq
    cancel_single
at_end i = ground arith

run-forgotten_example : get (bytes "u") all_over.heap ≡ none
unfolding run Multi.cancel_status Methods.cancel_at remove lookup delete text_beq cancel_single
run-forgotten_example =
    run-forgotten whole whole any_uploader alone one_cancels all_over 0 refl none_ended at_end refl

cancels_ready : AllReady whole whole any_uploader one_cancels
unfolding cancel_single
cancels_ready i = elim (Bool-cases (eqb i 0)) [ inl q ↦ rw q (refl, (refl, tt)) | inr q ↦ rw q tt ]

-- More turns than the goroutine weighs.
abbrev many_turns : List ℕ
many_turns = alone ++ alone

enough_turns : (i : ℕ) → weights whole whole 2 (one_cancels.rest i) ≤ turns_of i many_turns
unfolding weights cancel_single
enough_turns i = elim (Bool-cases (eqb i 0)) [
  | inl q ↦ rw q (omega arith)
  | inr q ↦ rw q (omega arith)
]

run-ended_example :
    (n : Machine whole whole any_uploader) × (run whole whole any_uploader many_turns one_cancels
      ≡ some n)
    × ((i : ℕ) → n.rest i ≡ [])
run-ended_example =
    run-ended whole whole any_uploader 2 many_turns one_cancels cancels_ready running-IsNamed
      (λ m. omega arith) enough_turns

abbrev unstarted : Attempt whole whole
unstarted = record { opened = ok tt; reports = []; outcome = ok tt }

-- Two goroutines that start the same file.
abbrev both_start : ℕ → List (Instruction whole whole)
both_start zero = start 1 3 [] unstarted ∷ []
both_start (suc zero) = start 1 4 [] unstarted ∷ []
both_start _ = []

abbrev two_starts : Machine whole whole any_uploader
two_starts = record { heap = fresh; rest = both_start }

-- The first of them starts it.
first_starts : starts whole whole 1 any_uploader (0 ∷ []) two_starts ≡ 1
unfolding exec start_single swap_started resume go_on
first_starts = refl

starts_once_example :
    flag 1 fresh + starts whole whole 1 any_uploader (0 ∷ 1 ∷ 0 ∷ []) two_starts ≤ 1
starts_once_example = starts_once whole whole 1 any_uploader (0 ∷ 1 ∷ 0 ∷ []) two_starts
