-- ===== src/StatusEvents/Delivery.antt =====
-- The order in which client/status_events.go delivers its events, and what Stop means for them.
use file_upload.Prelude.{
  Option-cases, ℕ, ◌≡◌, refl, ◌∙◌, true, Bool-cases, List, [], ◌∷◌, ◌++◌, Option, none, some,
  append_assoc, append-nil, arith, inl, inr, length, ltb, length-append, ◌+◌, ◌≤◌, ◌⊎◌, zero, suc,
}
use file_upload.Prelude.Sublists.{
  Sublist, Sublist-refl, Sublist-trans, Sublist-after, Sublist-before, Sublist-drop,
}
use file_upload.RingBuffer.{RingBuffer, put, empty}
use file_upload.RingBuffer
use file_upload.RingBuffer.Bounds.{IsValid, put-IsValid, get-IsValid}
use file_upload.RingBuffer.Queue.{enqueue, enqueue_all, dequeue}
use file_upload.RingBuffer.Refine.{contents, put_refines, get_refines}
use file_upload.StatusEvents.{
  StatusEventsConsumer, Step, start_loop, stop_loops, turn, add_event, consume, consume_held, pick,
  start, stop, add, get, deliver, loop_turn, step, run,
}

module _ {ℓ} {A : Type ℓ} where
  Sublist-enqueue : (cap : ℕ) (xs : List A) (e : A) → Sublist (enqueue cap xs e) (xs ++ e ∷ [])
  unfolding enqueue
  Sublist-enqueue cap xs e = elim (Bool-cases (ltb (length xs) cap)) [
    | inl h ↦ rw h (Sublist-refl (xs ++ e ∷ []))
    | inr h ↦ rw h (Sublist-drop (xs ++ e ∷ []))
  ]

  -- The events that steps add.
  abbrev pub added : List (Step A) → List A
  added [] = []
  added (add_event e ∷ steps) = e ∷ added steps
  added (_ ∷ steps) = added steps

module _ {ℓ} {A : Type ℓ} (nil : A) where
  -- The events that were consumed, then those that are held, and then those that wait in the buffer.
  abbrev pub seen : StatusEventsConsumer A → List A
  seen q = q.consumed ++ (q.held ++ contents nil q.buf)

  turn-IsValid : (q : StatusEventsConsumer A) → IsValid q.buf → IsValid (loop_turn nil q).buf
  unfolding loop_turn get deliver
  turn-IsValid q v = ground (arith, get-IsValid nil v)

  consume_held-IsValid :
      (i : ℕ) (q : StatusEventsConsumer A) → IsValid q.buf → IsValid (consume_held i q).buf
  unfolding consume_held
  consume_held-IsValid i q v = ground (arith, v)

  step-IsValid :
      (s : Step A) (q : StatusEventsConsumer A) → IsValid q.buf → IsValid (step nil s q).buf
  unfolding step start stop add
  step-IsValid start_loop q v = v
  step-IsValid stop_loops q v = v
  step-IsValid turn q v = turn-IsValid q v
  step-IsValid (consume i) q v = consume_held-IsValid i q v
  step-IsValid (add_event e) q v = put-IsValid (e ∷ []) v

  dequeue-some :
      (xs ys : List A) (x : A) {o : Option A}
      → ◌≡◌ {A = Option A × List A} (o, ys) (dequeue xs)
      → o ≡ some x
      → xs ≡ x ∷ ys
  unfolding dequeue
  dequeue-some [] ys x h e = ground arith
  dequeue-some (y ∷ xs) ys x h e = ground arith

  dequeue-none :
      (xs ys : List A) {o : Option A}
      → ◌≡◌ {A = Option A × List A} (o, ys) (dequeue xs)
      → o ≡ none
      → ys ≡ xs
  unfolding dequeue
  dequeue-none [] ys h e = ground arith
  dequeue-none (y ∷ xs) ys h e = ground arith

  -- `get` in a loop moves an event from the buffer to the held ones, or leaves both.
  seen-loop_turn : (q : StatusEventsConsumer A) → IsValid q.buf → seen (loop_turn nil q) ≡ seen q
  unfolding loop_turn get deliver
  seen-loop_turn q v = elim (Option-cases (RingBuffer.get nil q.buf).0) [
    | inl e ↦
        let same = dequeue-none (contents nil q.buf) _ (get_refines nil q.buf v) e in
        ground (arith, e, same)
    | inr (x, e) ↦
        let same = dequeue-some (contents nil q.buf) _ x (get_refines nil q.buf v) e in
        ground
          (arith, e, same, append_assoc q.held (x ∷ []) (contents nil (RingBuffer.get nil q.buf).1))
  ]

  -- At most one loop.
  abbrev pub IsSingle : StatusEventsConsumer A → Type 0
  IsSingle q = q.loops + length q.held ≤ 1

  -- Steps that start no loop.
  abbrev pub NoStart : List (Step A) → Type 0
  NoStart [] = Unit
  NoStart (start_loop ∷ steps) = ⊥
  NoStart (_ ∷ steps) = NoStart steps

  two_many : (x y : A) (xs : List A) → length (x ∷ y ∷ xs) ≤ 1 → ⊥
  two_many x y xs h = omega arith

  pick-single :
      (i : ℕ) (held : List A)
      → length held ≤ 1
      → (pick i held ≡ none) ⊎ ((e : A) × (held ≡ e ∷ []) × (pick i held ≡ some (e, [])))
  unfolding pick
  pick-single i [] h = inl refl
  pick-single zero (x ∷ []) h = inr (x, refl, refl)
  pick-single (suc i) (x ∷ []) h = inl refl
  pick-single i (x ∷ y ∷ xs) h = absurd (two_many x y xs h)

  seen-consume_held :
      (i : ℕ) (q : StatusEventsConsumer A) → length q.held ≤ 1 → seen (consume_held i q) ≡ seen q
  unfolding consume_held
  seen-consume_held i q h = elim (pick-single i q.held h) [
    | inl e ↦ rw (consume_held, e) refl
    | inr (x, one, e) ↦
        rw (consume_held, e, one) (append_assoc q.consumed (x ∷ []) (contents nil q.buf))
  ]

  IsSingle-turn : (q : StatusEventsConsumer A) → IsSingle q → IsSingle (loop_turn nil q)
  unfolding loop_turn get deliver
  IsSingle-turn q h = elim (Option-cases (RingBuffer.get nil q.buf).0) [
    | inl e ↦ ground (arith, e, h)
    | inr (x, e) ↦ ground (arith, e, h, length-append q.held (x ∷ []))
  ]

  length-pick :
      (i : ℕ) (held : List A) (e : A) (rest : List A)
      → pick i held ≡ some (e, rest)
      → length held ≡ 1 + length rest
  unfolding pick
  length-pick i [] e rest h = cc h
  length-pick zero (x ∷ xs) e rest h = ground (arith, h)
  length-pick (suc i) (x ∷ xs) e rest h = elim (Option-cases (pick i xs)) [
    | inl p ↦ cc (rw (p, pick) at h)
    | inr ((y, ys), p) ↦ let r = length-pick i xs y ys p in ground (arith, h, p, r)
  ]

  IsSingle-consume : (i : ℕ) (q : StatusEventsConsumer A) → IsSingle q → IsSingle (consume_held i q)
  unfolding consume_held
  IsSingle-consume i q h = elim (Option-cases (pick i q.held)) [
    | inl p ↦ rw (consume_held, p) h
    | inr ((e, rest), p) ↦ rw (consume_held, p) (omega (arith, h, length-pick i q.held e rest p))
  ]

  IsSingle-step :
      (s : Step A) (q : StatusEventsConsumer A)
      → NoStart (s ∷ [])
      → IsSingle q
      → IsSingle (step nil s q)
  unfolding step stop add
  IsSingle-step start_loop q n h = absurd n
  IsSingle-step stop_loops q n h = h
  IsSingle-step turn q n h = IsSingle-turn q h
  IsSingle-step (consume i) q n h = IsSingle-consume i q h
  IsSingle-step (add_event e) q n h = h

  seen-step :
      (s : Step A) (q : StatusEventsConsumer A)
      → IsValid q.buf
      → IsSingle q
      → Sublist (seen (step nil s q)) (seen q ++ added (s ∷ []))
  unfolding step start stop add enqueue_all
  seen-step start_loop q v h = rw (append-nil (seen q)) (Sublist-refl (seen q))
  seen-step stop_loops q v h = rw (append-nil (seen q)) (Sublist-refl (seen q))
  seen-step turn q v h = rw (append-nil (seen q), seen-loop_turn q v) (Sublist-refl (seen q))
  seen-step (consume i) q v h =
      rw (append-nil (seen q), seen-consume_held i q (omega (arith, h))) (Sublist-refl (seen q))
  seen-step (add_event e) q v h =
      rw
        (
          put_refines nil (e ∷ []) q.buf v,
          append_assoc q.consumed (q.held ++ contents nil q.buf) (e ∷ []),
          append_assoc q.held (contents nil q.buf) (e ∷ []),
        )
        (Sublist-after q.consumed (Sublist-after q.held (Sublist-enqueue _ (contents nil q.buf) e)))

  added-append :
      (s : Step A) (steps : List (Step A)) → added (s ∷ steps) ≡ added (s ∷ []) ++ added steps
  added-append start_loop steps = refl
  added-append stop_loops steps = refl
  added-append turn steps = refl
  added-append (consume i) steps = refl
  added-append (add_event e) steps = refl

  NoStart-head : (s : Step A) (steps : List (Step A)) → NoStart (s ∷ steps) → NoStart (s ∷ [])
  NoStart-head start_loop steps n = n
  NoStart-head stop_loops steps n = tt
  NoStart-head turn steps n = tt
  NoStart-head (consume i) steps n = tt
  NoStart-head (add_event e) steps n = tt

  NoStart-tail : (s : Step A) (steps : List (Step A)) → NoStart (s ∷ steps) → NoStart steps
  NoStart-tail start_loop steps n = absurd n
  NoStart-tail stop_loops steps n = n
  NoStart-tail turn steps n = n
  NoStart-tail (consume i) steps n = n
  NoStart-tail (add_event e) steps n = n

  -- Where there is at most one event loop and none is started, in whatever order events are added,
  -- taken and consumed and the consumer is stopped: the consumed events, the one that is being
  -- consumed and those that wait are some of the events that were there before or were added, in
  -- their order.
  pub run-Sublist :
      (steps : List (Step A)) (q : StatusEventsConsumer A)
      → IsValid q.buf
      → IsSingle q
      → NoStart steps
      → Sublist (seen (run nil steps q)) (seen q ++ added steps)
  unfolding run
  run-Sublist [] q v h n = rw (append-nil (seen q)) (Sublist-refl (seen q))
  run-Sublist (s ∷ steps) q v h n =
      Sublist-trans
        (rw (added-append s steps, ← append_assoc (seen q) (added (s ∷ [])) (added steps))
          (Sublist-before (added steps) (seen-step s q v h)))
        (run-Sublist steps (step nil s q) (step-IsValid s q v)
          (IsSingle-step s q (NoStart-head s steps n) h) (NoStart-tail s steps n))

  -- How many events a consumer has taken from its buffer.
  abbrev pub taken : StatusEventsConsumer A → ℕ
  taken q = length q.consumed + length q.held

  taken-consume_held :
      (i : ℕ) (q : StatusEventsConsumer A)
      → ((consume_held i q).closed ≡ q.closed) × (taken (consume_held i q) ≡ taken q)
  unfolding consume_held
  taken-consume_held i q = elim (Option-cases (pick i q.held)) [
    | inl p ↦ rw (consume_held, p) (refl, refl)
    | inr ((e, rest), p) ↦
        rw (consume_held, p)
          (refl, omega (arith, length-pick i q.held e rest p, length-append q.consumed (e ∷ [])))
  ]

  -- Once stopped, the consumer takes no event from its buffer until it is started again.
  pub run_stopped :
      (steps : List (Step A)) (q : StatusEventsConsumer A)
      → q.closed ≡ true
      → NoStart steps
      → taken (run nil steps q) ≡ taken q
  unfolding run step start stop add loop_turn get deliver
  run_stopped [] q c n = refl
  run_stopped (start_loop ∷ steps) q c n = absurd n
  run_stopped (stop_loops ∷ steps) q c n = run_stopped steps _ refl n
  run_stopped (add_event e ∷ steps) q c n = run_stopped steps _ c n
  run_stopped (turn ∷ steps) q c n = run_stopped steps _ (ground arith) n ∙ ground arith
  run_stopped (consume i ∷ steps) q c n =
      let (closed, same) = taken-consume_held i q in run_stopped steps _ (closed ∙ c) n ∙ same
