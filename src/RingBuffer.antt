-- ===== src/RingBuffer.antt =====
-- client/ring_buffer.go: a circular buffer of fixed capacity. `start` and `end` are Go ints below the
-- length of a slice, so `+ 1` does not overflow.
pub mod Bounds
pub mod Queue
mod Indices
pub mod Refine
pub mod History
pub mod Runs
mod Tests
use file_upload.Prelude.{
  ℕ, ◌+◌, ◌%◌, Bool, if◌then◌else◌, Option, none, some, List, [], ◌∷◌, length, get_or, set,
  replicate, ◌==◌, nat_eq,
}

pub record RingBuffer {ℓ} (A : Type ℓ) : Type ℓ where
  pub elements : List A
  pub start : ℕ
  pub end : ℕ

module _ {ℓ} {A : Type ℓ} where
  unfoldable pub empty : RingBuffer A → Bool
  empty buf = buf.start == buf.end

-- `nil` is the interface value nil, which fills a new buffer.
module _ {ℓ} {A : Type ℓ} (nil : A) where
  pub new_ring_buffer : ℕ → RingBuffer A
  new_ring_buffer size = record { elements = replicate (size + 1) nil; start = 0; end = 0 }

  -- A read out of range gives `nil`; it does not happen in a valid buffer.
  unfoldable pub get : RingBuffer A → Option A × RingBuffer A
  unfolding empty
  get buf = if empty buf then (none, buf) else (
    some (get_or buf.elements buf.start nil),
    record buf { start = (buf.start + 1) % length buf.elements },
  )

module _ {ℓ} {A : Type ℓ} where
  -- The body of the loop in `put`.
  pub put_one : RingBuffer A → A → RingBuffer A
  put_one buf e =
      let elements' = set buf.elements buf.end e in
      let end' = (buf.end + 1) % length elements' in
      record {
        elements = elements';
        start = if end' == buf.start then (buf.start + 1) % length elements' else buf.start;
        end = end';
      }

  pub put : RingBuffer A → List A → RingBuffer A
  put buf [] = buf
  put buf (e ∷ es) = put (put_one buf e) es
