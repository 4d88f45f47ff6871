-- ===== src/StatusEvents.antt =====
-- client/status_events.go: a consumer of the last status events, with the goroutines that deliver
-- them. A list of steps is an interleaving; an event loop takes an event under the consumer's mutex in
-- one step, and consumes it outside of the mutex in another.
pub mod Delivery
mod Tests
use file_upload.Prelude.{
  ℕ, zero, suc, ◌+◌, ◌-◌, Bool, true, false, not, ◌&&◌, if◌then◌else◌, Option, none, some, List, [],
  ◌∷◌, ◌++◌, eqb,
}
use file_upload.RingBuffer.{RingBuffer, new_ring_buffer, empty, put}
use file_upload.RingBuffer

-- `StatusEventsConsumer`, with the number of its event loops that are at `get`, the events that the
-- other loops have taken and not yet consumed, and the events given to `consume`.
pub record StatusEventsConsumer {ℓ} (A : Type ℓ) : Type ℓ where
  pub buf : RingBuffer A
  pub closed : Bool
  pub loops : ℕ
  pub held : List A
  pub consumed : List A

-- What `get` does when it has the mutex: it waits on, ends the loop, or returns an event.
pub data Answer {ℓ} (A : Type ℓ) : Type ℓ where
  waits ends : Answer A
  gives : A → Answer A

pub data Step {ℓ} (A : Type ℓ) : Type ℓ where
  start_loop stop_loops turn : Step A
  consume : ℕ → Step A
  add_event : A → Step A

-- The entry of a list at a place, and the others.
unfoldable pub pick {ℓ} : {A : Type ℓ} → ℕ → List A → Option (A × List A)
pick i [] = none
pick zero (x ∷ xs) = some (x, xs)
pick (suc i) (x ∷ xs) = elim (pick i xs) [ none ↦ none | some (y, ys) ↦ some (y, x ∷ ys) ]

module _ {ℓ} {A : Type ℓ} where
  -- `Start`
  unfoldable pub start : StatusEventsConsumer A → StatusEventsConsumer A
  start q = record q { closed = false; loops = q.loops + 1 }

  -- `Stop`
  unfoldable pub stop : StatusEventsConsumer A → StatusEventsConsumer A
  stop q = record q { closed = true }

  -- `Add`
  unfoldable pub add : A → StatusEventsConsumer A → StatusEventsConsumer A
  add e q = record q { buf = put q.buf (e ∷ []) }

  -- `consume` of the event `i` of those that are held, after which its loop is at `get` again.
  unfoldable pub consume_held : ℕ → StatusEventsConsumer A → StatusEventsConsumer A
  unfolding pick
  consume_held i q = elim (pick i q.held) [
    | none ↦ q
    | some (e, rest) ↦ record q {
      loops = q.loops + 1;
      held = rest;
      consumed = q.consumed ++ (e ∷ []);
    }
  ]

  answer_of : Option A → Answer A
  answer_of none = ends
  answer_of (some e) = gives e

-- `nil` is the interface value nil.
module _ {ℓ} {A : Type ℓ} (nil : A) where
  -- `NewStatusEventsConsumer`
  unfoldable pub new_status_events_consumer : ℕ → StatusEventsConsumer A
  new_status_events_consumer size = record {
    buf = new_ring_buffer nil size;
    closed = false;
    loops = 0;
    held = [];
    consumed = [];
  }

  -- `get`, up to the next wait.
  unfoldable pub get : StatusEventsConsumer A → Answer A × StatusEventsConsumer A
  unfolding answer_of
  get q =
      let (e, buf') = RingBuffer.get nil q.buf in
      if empty q.buf && not q.closed
      then (waits, q)
      else if q.closed
      then (ends, q)
      else (answer_of e, record q { buf = buf' })

  unfoldable pub deliver : Answer A → StatusEventsConsumer A → StatusEventsConsumer A
  deliver waits q = q
  deliver ends q = record q { loops = q.loops - 1 }
  deliver (gives e) q = record q { loops = q.loops - 1; held = q.held ++ (e ∷ []) }

  -- `get` in an `eventLoop`, if one is there.
  unfoldable pub loop_turn : StatusEventsConsumer A → StatusEventsConsumer A
  unfolding get deliver
  loop_turn q = let (a, q') = get q in if eqb q.loops 0 then q else deliver a q'

  unfoldable pub step : Step A → StatusEventsConsumer A → StatusEventsConsumer A
  unfolding start stop add loop_turn consume_held
  step start_loop q = start q
  step stop_loops q = stop q
  step turn q = loop_turn q
  step (consume i) q = consume_held i q
  step (add_event e) q = add e q

  unfoldable pub run : List (Step A) → StatusEventsConsumer A → StatusEventsConsumer A
  unfolding step
  run [] q = q
  run (s ∷ steps) q = run steps (step s q)
