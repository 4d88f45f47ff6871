-- ===== src/RingBuffer/Tests.antt =====
-- A buffer of two numbers, and each theorem on ring buffers at it.
use file_upload.Prelude.{List, ℕ, ◌≡◌, refl, [], ◌∷◌, arith}
use file_upload.RingBuffer.{RingBuffer, put_one, new_ring_buffer, put}
use file_upload.RingBuffer.Runs.{
  Call, put_all, get_one, results, queue_results, results-queue_results,
}
use file_upload.RingBuffer.Bounds.{IsValid}

abbrev wrapped : RingBuffer ℕ
wrapped = record { elements = 5 ∷ 0 ∷ 4 ∷ []; start = 2; end = 1 }

abbrev wrapped-IsValid : IsValid wrapped
wrapped-IsValid = record { start_in = omega arith; end_in = omega arith }

put_three : (put wrapped (6 ∷ 7 ∷ 8 ∷ [])).end ≡ 1
unfolding put put_one
put_three = refl

abbrev calls : List (Call ℕ)
calls = put_all (5 ∷ 6 ∷ 7 ∷ []) ∷ get_one ∷ put_all (8 ∷ []) ∷ get_one ∷ get_one ∷ get_one ∷ []

results-queue_results_example : results 0 calls (new_ring_buffer 0 2) ≡ queue_results 2 calls []
results-queue_results_example = results-queue_results 0 2 calls
