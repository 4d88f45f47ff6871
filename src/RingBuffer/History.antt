-- ===== src/RingBuffer/History.antt =====
-- client/ring_buffer.go: what a buffer holds of all the elements that were put into it.
use file_upload.Prelude.{
  ℕ, suc, ◌-◌, ◌≤◌, ◌≡◌, sym, ap, ◌∙◌, List, [], ◌∷◌, ◌++◌, length, length-append, drop,
  append_assoc, append-nil, arith, ltb, Bool-cases, inl, inr,
}
use file_upload.RingBuffer.{RingBuffer, put}
use file_upload.RingBuffer.Bounds.{IsValid, capacity, size}
use file_upload.RingBuffer.Queue.{enqueue, enqueue_all, enqueue-room, enqueue-full}
use file_upload.RingBuffer.Refine.{contents, put_refines, length-slots}

module _ {ℓ} {A : Type ℓ} where
  -- The last `n` elements of a list, or all if there are fewer.
  abbrev pub last_of : ℕ → List A → List A
  last_of n xs = drop (length xs - n) xs

  last_of-short : (n : ℕ) (xs : List A) → length xs ≤ n → last_of n xs ≡ xs
  last_of-short n xs h = ap (λ k. drop k xs) {x = length xs - n} {y = 0} (omega arith)

  last_of-cons : (n : ℕ) (x : A) (xs : List A) → n ≤ length xs → last_of n (x ∷ xs) ≡ last_of n xs
  last_of-cons n x xs h =
      ap (λ k. drop k (x ∷ xs)) {x = suc (length xs) - n} {y = suc (length xs - n)} (omega arith)

  full-last_of :
      (n : ℕ) (xs : List A) (e : A) (es : List A)
      → n ≤ length xs
      → last_of n (drop 1 (xs ++ e ∷ []) ++ es) ≡ last_of n (xs ++ e ∷ es)
  full-last_of n [] e es le = sym (last_of-cons n e es (omega arith))
  full-last_of n (x ∷ xs) e es le =
      ap (last_of n) (append_assoc xs (e ∷ []) es)
      ∙ sym (last_of-cons n x (xs ++ e ∷ es) (omega (arith, length-append xs (e ∷ es))))

  enqueue-last_of :
      (n : ℕ) (xs : List A) (e : A) (es : List A)
      → last_of n (enqueue n xs e ++ es) ≡ last_of n (xs ++ e ∷ es)
  enqueue-last_of n xs e es = elim (Bool-cases (ltb (length xs) n)) [
    | inl b ↦
        rw (enqueue-room n xs e (ground (arith, b))) (ap (last_of n) (append_assoc xs (e ∷ []) es))
    | inr b ↦
        let le : n ≤ length xs = ground (arith, b) in
        rw (enqueue-full n xs e le) (full-last_of n xs e es le)
  ]

  length-drop_one : (xs : List A) → length (drop 1 xs) ≡ length xs - 1
  length-drop_one [] = omega arith
  length-drop_one (x ∷ xs) = omega arith

  length-enqueue : (n : ℕ) (xs : List A) (e : A) → length xs ≤ n → length (enqueue n xs e) ≤ n
  unfolding enqueue
  length-enqueue n xs e h =
      ground (arith, length-append xs (e ∷ []), length-drop_one (xs ++ e ∷ []))

  enqueue_all-last_of :
      (n : ℕ) (xs es : List A) → length xs ≤ n → enqueue_all n xs es ≡ last_of n (xs ++ es)
  unfolding enqueue_all
  enqueue_all-last_of n xs [] h = rw (append-nil xs) (sym (last_of-short n xs h))
  enqueue_all-last_of n xs (e ∷ es) h =
      enqueue_all-last_of n (enqueue n xs e) es (length-enqueue n xs e h)
      ∙ enqueue-last_of n xs e es

module _ {ℓ} {A : Type ℓ} (nil : A) where
  -- A valid buffer holds the last elements of those that it held and those that are put, as many as
  -- it has room for, in their order.
  pub put-last_of :
      (es : List A) (buf : RingBuffer A)
      → IsValid buf
      → contents nil (put buf es) ≡ last_of (capacity buf) (contents nil buf ++ es)
  put-last_of es buf v =
      put_refines nil es buf v
      ∙ enqueue_all-last_of (capacity buf) (contents nil buf) es (
          rw (length-slots nil buf.elements (length buf.elements) buf.start (size buf))
            (omega arith))
