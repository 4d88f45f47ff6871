-- ===== src/RingBuffer/Queue.antt =====
-- The specification of client/ring_buffer.go: a queue of bounded length.
use file_upload.Prelude.{
  drop, ltb, if◌then◌else◌, ℕ, ◌≤◌, ◌<◌, ◌≡◌, List, [], ◌∷◌, ◌++◌, Option, none, some, length,
  arith, ltb, if◌then◌else◌,
}

module _ {ℓ} {A : Type ℓ} where
  -- The specification: the queue of at most `cap` elements, oldest first.
  unfoldable pub enqueue : ℕ → List A → A → List A
  enqueue cap xs e = let ys = xs ++ e ∷ [] in if ltb (length xs) cap then ys else drop 1 ys

  unfoldable pub enqueue_all : ℕ → List A → List A → List A
  enqueue_all cap xs [] = xs
  enqueue_all cap xs (e ∷ es) = enqueue_all cap (enqueue cap xs e) es

  unfoldable pub dequeue : List A → Option A × List A
  dequeue [] = (none, [])
  dequeue (x ∷ xs) = (some x, xs)

module _ {ℓ} {A : Type ℓ} where
  pub enqueue-room :
      (cap : ℕ) (xs : List A) (e : A) → length xs < cap → enqueue cap xs e ≡ xs ++ e ∷ []
  unfolding enqueue
  enqueue-room cap xs e h = ground arith

  pub enqueue-full :
      (cap : ℕ) (xs : List A) (e : A) → cap ≤ length xs → enqueue cap xs e ≡ drop 1 (xs ++ e ∷ [])
  unfolding enqueue
  enqueue-full cap xs e h = ground arith
