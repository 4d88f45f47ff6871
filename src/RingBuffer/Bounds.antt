-- ===== src/RingBuffer/Bounds.antt =====
-- client/ring_buffer.go: the indices of a buffer, and its capacity.
use file_upload.Prelude.{
  ℕ, ◌+◌, ◌-◌, ◌%◌, ◌<◌, ◌≡◌, refl, List, [], ◌∷◌, length, length-set, length-replicate, arith, ◌∙◌,
}
use native.Mathlib.Nat.{mod_self}
use file_upload.RingBuffer.{RingBuffer, new_ring_buffer, get, put_one, put}

module _ {ℓ} {A : Type ℓ} where
  pub record IsValid (buf : RingBuffer A) : Type 0 where
    pub start_in : buf.start < length buf.elements
    pub end_in : buf.end < length buf.elements

  -- The number of elements that the buffer holds before it overwrites.
  abbrev pub capacity : RingBuffer A → ℕ
  capacity buf = length buf.elements - 1

  -- The number of elements from `start` up to `end`, going round the slice.
  abbrev pub size : RingBuffer A → ℕ
  size buf = (buf.end + length buf.elements - buf.start) % length buf.elements

  pub length-put_one :
      (buf : RingBuffer A) (e : A) → length (put_one buf e).elements ≡ length buf.elements
  unfolding put_one
  length-put_one buf e = length-set buf.elements buf.end e

  pub put_one-IsValid : {buf : RingBuffer A} (e : A) → IsValid buf → IsValid (put_one buf e)
  unfolding put_one
  put_one-IsValid {buf} e v = ground (arith, length-set buf.elements buf.end e)

  -- `put` keeps the invariant.
  pub put-IsValid : (es : List A) {buf : RingBuffer A} → IsValid buf → IsValid (put buf es)
  unfolding put
  put-IsValid [] v = v
  put-IsValid (e ∷ es) v = put-IsValid es (put_one-IsValid e v)

  pub length-put :
      (es : List A) (buf : RingBuffer A) → length (put buf es).elements ≡ length buf.elements
  unfolding put
  length-put [] buf = refl
  length-put (e ∷ es) buf = length-put es (put_one buf e) ∙ length-put_one buf e

module _ {ℓ} {A : Type ℓ} (nil : A) where
  -- A new buffer is valid, empty, and has room for `n` elements.
  pub new_ring_buffer-IsValid :
      (n : ℕ)
      → IsValid (new_ring_buffer nil n)
        × (size (new_ring_buffer nil n) ≡ 0)
        × (capacity (new_ring_buffer nil n) ≡ n)
  unfolding new_ring_buffer
  new_ring_buffer-IsValid n = ground (arith, length-replicate (n + 1) nil, mod_self (n + 1))

  -- `get` keeps the invariant.
  pub get-IsValid : {buf : RingBuffer A} → IsValid buf → IsValid (get nil buf).1
  unfolding get
  get-IsValid v = ground arith
