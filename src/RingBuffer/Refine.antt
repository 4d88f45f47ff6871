-- ===== src/RingBuffer/Refine.antt =====
-- client/ring_buffer.go: the queue that a buffer stands for.
use native.Mathlib.Nat.{mod-eq_of_lt, suc-mod, mod-mod}
use file_upload.Prelude.{
  inr, eqb_iff, inl, Bool-cases, ◌-◌, length-set, eqb, ◌⊎◌, sym, get_or-set_self, drop, ℕ, zero,
  suc, ◌+◌, ◌%◌, ◌≤◌, ◌<◌, ◌≡◌, ◌≢◌, refl, ap, ap₂, ◌∙◌, List, [], ◌∷◌, ◌++◌, none, some, length,
  get_or, set, get_or-set_ne, arith,
}
use file_upload.RingBuffer.{put, get, put_one, RingBuffer}
use file_upload.RingBuffer.Bounds.{put_one-IsValid, length-put_one, capacity, IsValid, size}
use file_upload.RingBuffer.Queue.{enqueue, enqueue_all, dequeue, enqueue-room, enqueue-full}
use file_upload.RingBuffer.Indices.{next, distance, grow, stay, shrink}

module _ {ℓ} {A : Type ℓ} (nil : A) where
  -- The `n` elements from index `i` on, of a slice that is read modulo `m`.
  abbrev slots : List A → ℕ → ℕ → ℕ → List A
  slots xs m i zero = []
  slots xs m i (suc n) = get_or xs (i % m) nil ∷ slots xs m (suc i) n

  pub length-slots : (xs : List A) (m i n : ℕ) → length (slots xs m i n) ≡ n
  length-slots xs m i zero = refl
  length-slots xs m i (suc n) = ap suc (length-slots xs m (suc i) n)

  slots-concat :
      (xs : List A) (m i n : ℕ)
      → slots xs m i (suc n) ≡ slots xs m i n ++ (get_or xs ((i + n) % m) nil ∷ [])
  slots-concat xs m i zero = ap (λ k. get_or xs (k % m) nil ∷ []) (omega arith)
  slots-concat xs m i (suc n) = ap (◌∷◌ (get_or xs (i % m) nil)) (
      slots-concat xs m (suc i) n
      ∙ ap (λ k. slots xs m (suc i) n ++ (get_or xs (k % m) nil ∷ [])) (omega arith))

  -- A window may be read from any index with the same remainder.
  slots-mod : (xs : List A) (m i j n : ℕ) → i % m ≡ j % m → slots xs m i n ≡ slots xs m j n
  slots-mod xs m i j zero h = refl
  slots-mod xs m i j (suc n) h =
      ap₂ ◌∷◌ (ap (λ k. get_or xs k nil) h) (slots-mod xs m (suc i) (suc j) n (shift m i j h))
    where
      shift : (m i j : ℕ) → i % m ≡ j % m → suc i % m ≡ suc j % m
      shift m i j h = suc-mod i m ∙ ap (λ k. suc k % m) h ∙ sym (suc-mod j m)

  -- A write past the window does not show in it.
  slots-set :
      (xs : List A) (m i n j : ℕ) (e : A)
      → i + n ≤ j
      → j < i + m
      → slots (set xs (j % m) e) m i n ≡ slots xs m i n
  slots-set xs m i zero j e h k = refl
  slots-set xs m i (suc n) j e h k =
      ap₂ ◌∷◌ (get_or-set_ne xs e nil (mod-ne m i j (omega arith) k))
        (slots-set xs m (suc i) n j e (omega arith) (omega arith))
    where
      mod-ne : (m i j : ℕ) → i < j → j < i + m → j % m ≢ i % m
      mod-ne m i j h k e = grind arith

  -- The queue that a buffer stands for.
  abbrev pub contents : RingBuffer A → List A
  contents buf = slots buf.elements (length buf.elements) buf.start (size buf)

  slots-write :
      (xs : List A) (s t n : ℕ) (e : A)
      → n < length xs
      → t ≡ (s + n) % length xs
      → slots (set xs t e) (length xs) s (suc n) ≡ slots xs (length xs) s n ++ (e ∷ [])
  slots-write xs s t n e h r =
      ap (λ i. slots (set xs i e) m s (suc n)) r
      ∙ slots-concat (set xs ((s + n) % m) e) m s n
      ∙ ap₂ (λ ys y. ys ++ (y ∷ [])) (slots-set xs m s n (s + n) e (omega arith) (omega arith))
          (get_or-set_self xs ((s + n) % m) e nil (omega arith))
    where
      m : ℕ
      m = length xs

  end-size :
      {buf : RingBuffer A} → IsValid buf → buf.end ≡ (buf.start + size buf) % length buf.elements
  end-size v = grind arith

  -- Where the next write lands: the buffer grows by one, or its start moves on.
  Written : (buf : RingBuffer A) (e : A) → Type 0
  Written buf e =
      ((size buf + 1 < length buf.elements)
        × ((put_one buf e).start ≡ buf.start)
        × (size (put_one buf e) ≡ suc (size buf)))
      ⊎ ((size buf + 1 ≡ length buf.elements)
          × ((put_one buf e).start ≡ (buf.start + 1) % length buf.elements)
          × (size (put_one buf e) ≡ size buf))

  put_one-Written : (buf : RingBuffer A) (e : A) → IsValid buf → Written buf e
  unfolding Written put_one
  put_one-Written buf e v =
      rw (length-set buf.elements buf.end e) (elim (Bool-cases (eqb (next m buf.end) buf.start)) [
        | inl hit ↦
            let h : next m buf.end ≡ buf.start = (eqb_iff _ _).0 hit in
            let f = stay m buf.start buf.end v.start_in v.end_in h in inr (f.0, rw hit, rw hit f.1)
        | inr miss ↦
            let h : next m buf.end ≢ buf.start = λ q. ground (arith, q, miss) in
            let f = grow m buf.start buf.end v.start_in v.end_in h in
            inl (f.0, rw miss, rw miss f.1)
      ])
    where
      m : ℕ
      m = length buf.elements

  elements-put_one :
      (buf : RingBuffer A) (e : A) → (put_one buf e).elements ≡ set buf.elements buf.end e
  unfolding put_one
  elements-put_one buf e = refl

  -- `put` of one element enqueues it, and drops the oldest one if the buffer is full.
  pub put_one_refines :
      (buf : RingBuffer A) (e : A)
      → IsValid buf
      → contents (put_one buf e) ≡ enqueue (capacity buf) (contents buf) e
  unfolding Written
  put_one_refines buf e v = elim (put_one-Written buf e v) [
    | inl (room, start, size') ↦
        seen start size'
        ∙ grown
        ∙ sym (enqueue-room (capacity buf) (contents buf) e (rw length-contents (omega arith)))
    | inr (full, start, size') ↦
        seen start size'
        ∙ slots-mod (set buf.elements buf.end e) m _ (suc buf.start) n
            (rw mod-mod (ap (λ k. k % m) (omega arith)))
        ∙ ap (drop 1) grown
        ∙ sym (enqueue-full (capacity buf) (contents buf) e (rw length-contents (omega arith)))
  ]
    where
      m : ℕ
      m = length buf.elements

      n : ℕ
      n = size buf

      length-contents : length (contents buf) ≡ n
      length-contents = length-slots buf.elements m buf.start n

      grown : slots (set buf.elements buf.end e) m buf.start (suc n) ≡ contents buf ++ (e ∷ [])
      grown = slots-write buf.elements buf.start buf.end n e (omega arith) (end-size v)

      seen :
          {s k : ℕ}
          → (put_one buf e).start ≡ s
          → size (put_one buf e) ≡ k
          → contents (put_one buf e) ≡ slots (set buf.elements buf.end e) m s k
      seen p q = λ i. slots (elements-put_one buf e i) (length-put_one buf e i) (p i) (q i)

  -- `put` enqueues its elements in order.
  pub put_refines :
      (es : List A) (buf : RingBuffer A)
      → IsValid buf
      → contents (put buf es) ≡ enqueue_all (capacity buf) (contents buf) es
  unfolding put enqueue_all
  put_refines [] buf v = refl
  put_refines (e ∷ es) buf v =
      put_refines es (put_one buf e) (put_one-IsValid e v)
      ∙ ap₂ (λ c q. enqueue_all c q es) (ap (λ n. n - 1) (length-put_one buf e))
          (put_one_refines buf e v)

  -- `get` fails exactly when the queue is empty, and otherwise takes its oldest element.
  pub get_refines :
      (buf : RingBuffer A)
      → IsValid buf
      → ((get nil buf).0, contents (get nil buf).1) ≡ dequeue (contents buf)
  unfolding get dequeue
  get_refines buf v = elim (Bool-cases (eqb buf.start buf.end)) [
    | inl e ↦
        let none_left : size buf ≡ 0 =
          distance m buf.start buf.end v.start_in v.end_in ∙ ground (arith, e) in
        rw e (none_taken none_left)
    | inr e ↦
        let some_left = shrink m buf.start buf.end v.start_in v.end_in (ground (arith, e)) in
        rw e (one_taken some_left)
  ]
    where
      m : ℕ
      m = length buf.elements

      window : ℕ → ℕ → List A
      window = slots buf.elements m

      none_taken : size buf ≡ 0 → (none, contents buf) ≡ dequeue (contents buf)
      none_taken h =
          (λ i. (none, window buf.start (h i))) ∙ (λ i. dequeue (window buf.start (sym h i)))

      one_taken :
          {n : ℕ}
          → size buf ≡ suc n
          → (some (get_or buf.elements buf.start nil), window (next m buf.start) n)
            ≡ dequeue (contents buf)
      one_taken {n} h =
          (λ i. (
            some (get_or buf.elements (sym (mod-eq_of_lt v.start_in) i) nil),
            slots-mod buf.elements m (next m buf.start) (suc buf.start) n
                (rw mod-mod (ap (λ k. k % m) (omega arith))) i,
          ))
          ∙ (λ i. dequeue (window buf.start (sym h i)))
