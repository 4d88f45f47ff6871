-- ===== src/Timer/Stopping.antt =====
-- client/timer.go: when a call that stops the executor returns.
use file_upload.Prelude.{Bool, ℕ, zero, suc, ◌≡◌, ◌≢◌, false, none, arith, List, [], ◌∷◌}
use file_upload.Uploads.Heap.{update}
use file_upload.Timer.{
  PeriodicExecutor, is_leaving, waiting, sent, StopCall, Worker, idle, over, is_selecting, leaving,
  sending, Action, fire_from, start_ticker, task_returns, tick, leave, call, lock, send, clean,
  begin_ticker, make_call, lock_call, send_done, clean_up, step, run,
}
use file_upload.Timer.Invariant.{IsValid, is_alive, step-IsValid}

-- A call is at its send when the goroutine has already left its loop.
abbrev pub IsStuck : ℕ → PeriodicExecutor → Type 0
IsStuck i e = (e.stops i ≡ sending) × (e.worker ≡ leaving)

-- No step of any goroutine changes who holds the mutex of a stuck executor.
step-IsStuck :
    (i : ℕ) (e : PeriodicExecutor) (a : Action) → IsValid e → IsStuck i e → IsStuck i (step a e)
unfolding step begin_ticker make_call lock_call send_done clean_up update
step-IsStuck i e fire_from v (s, w) = (ground (arith, s), ground (arith, w))
step-IsStuck i e start_ticker v (s, w) =
    (ground (arith, s, w, v.holds i), ground (arith, s, w, v.holds i))
step-IsStuck i e task_returns v (s, w) = (ground (arith, s, w), ground (arith, s, w))
step-IsStuck i e tick v (s, w) = (ground (arith, s, w), ground (arith, s, w))
step-IsStuck i e leave v (s, w) = (ground (arith, s, w, v.holds i), ground (arith, s, w, v.holds i))
step-IsStuck i e (call zero) v (s, w) = (ground (arith, s, w), ground (arith, s, w))
step-IsStuck i e (call (suc j)) v (s, w) = (ground (arith, s, w), ground (arith, s, w))
step-IsStuck i e (lock j) v (s, w) =
    (ground (arith, s, w, v.holds i), ground (arith, s, w, v.holds i))
step-IsStuck i e (send j) v (s, w) = (ground (arith, s, w), ground (arith, s, w))
step-IsStuck i e (clean j) v (s, w) = (ground (arith, s, w), ground (arith, s, w))

-- When a call is at its send and the goroutine has left its loop, no sequence of steps of any
-- goroutine ends the call: it holds the mutex for ever.
pub run-IsStuck :
    (i : ℕ) (e : PeriodicExecutor) (actions : List Action)
    → IsValid e
    → IsStuck i e
    → IsStuck i (run actions e)
unfolding run
run-IsStuck i e [] v s = s
run-IsStuck i e (a ∷ actions) v s =
    run-IsStuck i (step a e) actions (step-IsValid v a) (step-IsStuck i e a v s)

-- One `Stop` from its call to its end, and the end of the goroutine, as the steps follow each other
-- when no other goroutine comes between them.
abbrev pub stop_steps : ℕ → List Action
stop_steps i =
    task_returns ∷ call (suc i) ∷ lock (suc i) ∷ send (suc i) ∷ leave ∷ clean (suc i) ∷ []

-- The call is at its end, the mutex is free, and there is neither ticker nor goroutine.
abbrev pub HasEnded : ℕ → PeriodicExecutor → Type 0
HasEnded i e =
    (e.stops i ≡ over) × ((e.mutex ≡ none) × ((e.ticker ≡ false) × (is_alive e.worker ≡ false)))

-- The call is at `c`, the mutex is free, and a goroutine is where the test tells.
record IsFreeAt (i : ℕ) (c : StopCall) (test : Worker → Bool) (e : PeriodicExecutor) : Type 0 where
  at_stop : e.stops (suc i) ≡ c
  free : e.mutex ≡ none
  ticking : e.ticker ≡ is_alive e.worker
  where_worker : is_alive e.worker ≡ test e.worker

module _ (i : ℕ) (e : PeriodicExecutor) where
  task_ends :
      e.stops (suc i) ≡ idle
      → e.mutex ≡ none
      → e.ticker ≡ is_alive e.worker
      → e.worker ≢ leaving
      → IsFreeAt i idle is_selecting (step task_returns e)
  unfolding step
  task_ends s m t n = record {
    at_stop = ground (arith, s);
    free = ground (arith, m);
    ticking = ground (arith, t);
    where_worker = ground (arith, n);
  }

  call_waits :
      IsFreeAt i idle is_selecting e → IsFreeAt i waiting is_selecting (step (call (suc i)) e)
  unfolding step make_call update
  call_waits f = record {
    at_stop = ground (arith, f.at_stop, f.free, f.ticking, f.where_worker);
    free = ground (arith, f.at_stop, f.free, f.ticking, f.where_worker);
    ticking = ground (arith, f.at_stop, f.free, f.ticking, f.where_worker);
    where_worker = ground (arith, f.at_stop, f.free, f.ticking, f.where_worker);
  }

  call_is_sent :
      IsFreeAt i waiting is_selecting e
      → IsFreeAt i sent is_leaving (step (send (suc i)) (step (lock (suc i)) e))
  unfolding step lock_call send_done update
  call_is_sent f = record {
    at_stop = ground (arith, f.at_stop, f.free, f.ticking, f.where_worker);
    free = ground (arith, f.at_stop, f.free, f.ticking, f.where_worker);
    ticking = ground (arith, f.at_stop, f.free, f.ticking, f.where_worker);
    where_worker = ground (arith, f.at_stop, f.free, f.ticking, f.where_worker);
  }

  worker_leaves : IsFreeAt i sent is_leaving e → IsFreeAt i sent (λ w. false) (step leave e)
  unfolding step
  worker_leaves f = record {
    at_stop = ground (arith, f.at_stop, f.free, f.ticking, f.where_worker);
    free = ground (arith, f.at_stop, f.free, f.ticking, f.where_worker);
    ticking = ground (arith, f.at_stop, f.free, f.ticking, f.where_worker);
    where_worker = ground (arith, f.at_stop, f.free, f.ticking, f.where_worker);
  }

  call_ends : IsFreeAt i sent (λ w. false) e → HasEnded (suc i) (step (clean (suc i)) e)
  unfolding step clean_up update
  call_ends f = ground (arith, f.at_stop, f.free, f.ticking, f.where_worker)

-- When the mutex is free and the goroutine has not left its loop, a call of `Stop` can return: after
-- its steps it is at its end, the mutex is free, the ticker is nil and the goroutine has ended or
-- was never started.
pub run-stop_steps :
    (i : ℕ) (e : PeriodicExecutor)
    → IsValid e
    → e.stops (suc i) ≡ idle
    → e.mutex ≡ none
    → e.worker ≢ leaving
    → HasEnded (suc i) (run (stop_steps i) e)
unfolding run
run-stop_steps i e v s m n =
    call_ends i _
      (worker_leaves i _ (call_is_sent i _ (call_waits i _ (task_ends i e s m v.ticking n))))
