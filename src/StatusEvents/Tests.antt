-- ===== src/StatusEvents/Tests.antt =====
-- A consumer of two events, and each theorem on consumers at it.
use file_upload.Prelude.{ℕ, ◌≡◌, refl, true, false, List, [], ◌∷◌, arith}
use file_upload.RingBuffer
use file_upload.RingBuffer.{RingBuffer, empty}
use file_upload.RingBuffer.Bounds.{IsValid}
use file_upload.StatusEvents.{
  StatusEventsConsumer, Step, start_loop, stop_loops, turn, add_event, consume, run,
}
use file_upload.StatusEvents.Delivery.{seen, run-Sublist}
use file_upload.Prelude.Sublists.{Sublist}

abbrev wrapped : RingBuffer ℕ
wrapped = record { elements = 5 ∷ 0 ∷ 4 ∷ []; start = 2; end = 1 }

wrapped-IsValid : IsValid wrapped
wrapped-IsValid = record { start_in = omega arith; end_in = omega arith }

abbrev consumer : StatusEventsConsumer ℕ
consumer = record { buf = wrapped; closed = false; loops = 1; held = []; consumed = 3 ∷ [] }

abbrev steps : List (Step ℕ)
steps = add_event 6 ∷ turn ∷ add_event 7 ∷ consume 0 ∷ turn ∷ []

run-Sublist_example : Sublist (seen 0 (run 0 steps consumer)) (3 ∷ 4 ∷ 5 ∷ 6 ∷ 7 ∷ [])
run-Sublist_example = run-Sublist 0 steps consumer wrapped-IsValid (omega arith) tt

-- With two loops the second event can be consumed before the first.
abbrev two_loops : StatusEventsConsumer ℕ
two_loops = record consumer { loops = 2 }

out_of_order :
    (run 0 (turn ∷ turn ∷ consume 1 ∷ consume 0 ∷ []) two_loops).consumed ≡ 3 ∷ 5 ∷ 4 ∷ []
unfolding run empty RingBuffer.get
out_of_order = refl

abbrev stopped : StatusEventsConsumer ℕ
stopped = record consumer { closed = true }

-- Started again before its loop has seen that it was stopped, the consumer has two loops.
restarted : (run 0 (stop_loops ∷ start_loop ∷ []) consumer).loops ≡ 2
unfolding run
restarted = refl
