-- ===== src/RingBuffer/Runs.antt =====
-- client/ring_buffer.go: a buffer over its life, from newRingBuffer through any calls.
use file_upload.Prelude.{ℕ, ◌-◌, ◌≡◌, refl, ap, ap₂, ◌∙◌, Option, List, [], ◌∷◌, length, arith}
use file_upload.RingBuffer.{RingBuffer, new_ring_buffer, put, get}
use file_upload.RingBuffer.Bounds.{
  IsValid, size, capacity, put-IsValid, get-IsValid, length-put, new_ring_buffer-IsValid,
}
use file_upload.RingBuffer.Queue.{enqueue_all, dequeue}
use file_upload.RingBuffer.Refine.{length-slots, contents, put_refines, get_refines}

-- A call of put or of get.
pub data Call {ℓ} (A : Type ℓ) : Type ℓ where
  put_all : List A → Call A
  get_one : Call A

module _ {ℓ} {A : Type ℓ} where
  -- What each `get` among the calls gives.
  unfoldable pub results : (nil : A) → List (Call A) → RingBuffer A → List (Option A)
  results nil [] buf = []
  results nil (put_all es ∷ calls) buf = results nil calls (put buf es)
  results nil (get_one ∷ calls) buf = let (e, buf') = get nil buf in e ∷ results nil calls buf'

  -- The same calls on a queue with room for `n` elements.
  unfoldable pub queue_results : ℕ → List (Call A) → List A → List (Option A)
  queue_results n [] q = []
  queue_results n (put_all es ∷ calls) q = queue_results n calls (enqueue_all n q es)
  queue_results n (get_one ∷ calls) q = (dequeue q).0 ∷ queue_results n calls (dequeue q).1

module _ {ℓ} {A : Type ℓ} (nil : A) where
  capacity-get : (buf : RingBuffer A) → capacity (get nil buf).1 ≡ capacity buf
  unfolding get
  capacity-get buf = ground arith

  results_from :
      (calls : List (Call A)) (buf : RingBuffer A)
      → IsValid buf
      → results nil calls buf ≡ queue_results (capacity buf) calls (contents nil buf)
  unfolding results queue_results
  results_from [] buf v = refl
  results_from (put_all es ∷ calls) buf v =
      results_from calls (put buf es) (put-IsValid es v)
      ∙ ap₂ (λ n q. queue_results n calls q) (ap (λ k. k - 1) (length-put es buf))
          (put_refines nil es buf v)
  results_from (get_one ∷ calls) buf v =
      let taken = get_refines nil buf v in
      ap₂ ◌∷◌ (ap (λ p. p.0) taken) (
        results_from calls (get nil buf).1 (get-IsValid nil v)
        ∙ ap₂ (λ n q. queue_results n calls q) (capacity-get buf) (ap (λ p. p.1) taken))

  no_elements : (xs : List A) → length xs ≡ 0 → xs ≡ []
  no_elements [] h = refl
  no_elements (x ∷ xs) h = ground (arith, h)

  contents_none : (buf : RingBuffer A) → size buf ≡ 0 → contents nil buf ≡ []
  contents_none buf h =
      no_elements (contents nil buf)
        (length-slots nil buf.elements (length buf.elements) buf.start (size buf) ∙ h)

  -- Whatever is put into a new buffer and taken from it in whatever order, each get gives what it
  -- would give from an empty bounded queue that drops its oldest element when it is full.
  pub results-queue_results :
      (n : ℕ) (calls : List (Call A))
      → results nil calls (new_ring_buffer nil n) ≡ queue_results n calls []
  results-queue_results n calls =
      let (valid, empty, room) = new_ring_buffer-IsValid nil n in
      results_from calls (new_ring_buffer nil n) valid
      ∙ ap₂ (λ k q. queue_results k calls q) room (contents_none (new_ring_buffer nil n) empty)
