-- ===== src/Timer/Quiet.antt =====
-- client/timer.go: after `Stop` the task is never run again.
use file_upload.Prelude.{
  ◌⊎◌, inl, inr, true, true, ap, Bool, ℕ, zero, suc, ◌≡◌, refl, ◌∙◌, ◌||◌, false, arith, List, [],
  ◌∷◌,
}
use file_upload.Uploads.Heap.{update}
use file_upload.Timer.{
  new_periodic_executor, PeriodicExecutor, sent, StopCall, Worker, over, is_armed, is_fired, Action,
  fire_from, start_ticker, task_returns, tick, leave, call, lock, send, clean, begin_ticker,
  make_call, lock_call, send_done, clean_up, step, run, in_task, selecting,
}
use file_upload.Timer.Invariant.{is_begun, run-IsValid, IsValid, step-IsValid}

-- A goroutine that runs no task any more, or was never started.
abbrev pub is_done : Worker → Bool
is_done in_task = false
is_done selecting = false
is_done _ = true

-- The task can run again only if the goroutine loops or the start of the ticker is still to come.
abbrev pub IsQuiet : PeriodicExecutor → Type 0
IsQuiet e = (is_done e.worker ≡ true) × (is_armed e.start || is_fired e.start ≡ false)

step-IsQuiet :
    (a : Action) (e : PeriodicExecutor)
    → IsQuiet e
    → IsQuiet (step a e) × ((step a e).runs ≡ e.runs)
unfolding step make_call lock_call send_done clean_up update
step-IsQuiet fire_from e (w, s) = ground (arith, w, s)
step-IsQuiet start_ticker e (w, s) = ground (arith, w, s)
step-IsQuiet task_returns e (w, s) = ground (arith, w, s)
step-IsQuiet tick e (w, s) = ground (arith, w, s)
step-IsQuiet leave e (w, s) = ground (arith, w, s)
step-IsQuiet (call zero) e (w, s) = ground (arith, w, s)
step-IsQuiet (call (suc i)) e (w, s) = ground (arith, w, s)
step-IsQuiet (lock i) e (w, s) = ground (arith, w, s)
step-IsQuiet (send i) e (w, s) = ground (arith, w, s)
step-IsQuiet (clean i) e (w, s) = ground (arith, w, s)

runs-run :
    (actions : List Action) (e : PeriodicExecutor) → IsQuiet e → (run actions e).runs ≡ e.runs
unfolding run
runs-run [] e q = refl
runs-run (a ∷ actions) e q =
    let (next, same) = step-IsQuiet a e q in runs-run actions (step a e) next ∙ same

-- A call of `Stop` that has come past its `stopTicker`.
abbrev is_past : StopCall → Bool
is_past sent = true
is_past over = true
is_past _ = false

-- The ticker was started, and where the call `i` of `Stop` is past its `stopTicker` the goroutine
-- has left its loop.
record IsStopping (i : ℕ) (e : PeriodicExecutor) : Type 0 where
  started : is_armed e.start || is_fired e.start ≡ false
  past : is_past (e.stops (suc i)) ≡ true → is_done e.worker ≡ true

module _ (i : ℕ) (e : PeriodicExecutor) where
  step-started :
      (a : Action)
      → is_armed e.start || is_fired e.start ≡ false
      → is_armed (step a e).start || is_fired (step a e).start ≡ false
  unfolding step make_call lock_call send_done clean_up update
  step-started fire_from s = ground (arith, s)
  step-started start_ticker s = ground (arith, s)
  step-started task_returns s = ground (arith, s)
  step-started tick s = ground (arith, s)
  step-started leave s = ground (arith, s)
  step-started (call zero) s = ground (arith, s)
  step-started (call (suc j)) s = ground (arith, s)
  step-started (lock j) s = ground (arith, s)
  step-started (send j) s = ground (arith, s)
  step-started (clean j) s = ground (arith, s)

  step-past :
      (a : Action)
      → IsValid e
      → IsStopping i e
      → is_past ((step a e).stops (suc i)) ≡ true
      → is_done (step a e).worker ≡ true
  unfolding step make_call lock_call send_done clean_up update
  step-past fire_from v s h = ground (arith, s.past, s.started, h)
  step-past start_ticker v s h = ground (arith, s.past, s.started, h)
  step-past task_returns v s h = ground (arith, s.past, s.started, h)
  step-past tick v s h = ground (arith, s.past, s.started, h)
  step-past leave v s h = ground (arith, s.past, s.started, h)
  step-past (call zero) v s h = ground (arith, s.past, s.started, h)
  step-past (call (suc j)) v s h = ground (arith, s.past, s.started, h)
  step-past (lock zero) v s h = ground (arith, s.past, s.started, h, v.ticking)
  step-past (lock (suc j)) v s h = ground (arith, s.past, s.started, h, v.ticking)
  step-past (send zero) v s h = ground (arith, s.past, s.started, h)
  step-past (send (suc j)) v s h = ground (arith, s.past, s.started, h)
  step-past (clean j) v s h = ground (arith, s.past, s.started, h)

run-IsStopping :
    (i : ℕ) (actions : List Action) (e : PeriodicExecutor)
    → IsValid e
    → IsStopping i e
    → IsStopping i (run actions e)
unfolding run
run-IsStopping i [] e v s = s
run-IsStopping i (a ∷ actions) e v s =
    run-IsStopping i actions (step a e) (step-IsValid v a)
      (record { started = step-started i e a s.started; past = step-past i e a v s })

new_executor-IsStopping : (i : ℕ) (to : Bool) → IsStopping i (new_periodic_executor false to)
unfolding new_periodic_executor begin_ticker
new_executor-IsStopping i to = record { started = refl; past = λ h. cc h }

abbrev is_over : StopCall → Bool
is_over over = true
is_over _ = false

-- A call of `Stop` that is at its end has stopped the timer of the start.
abbrev IsCleared : ℕ → PeriodicExecutor → Type 0
IsCleared i e = is_over (e.stops (suc i)) ≡ true → is_armed e.start ≡ false

step-IsCleared :
    (i : ℕ) (e : PeriodicExecutor) (a : Action) → IsCleared i e → IsCleared i (step a e)
unfolding step begin_ticker make_call lock_call send_done clean_up update
step-IsCleared i e fire_from c h = ground (arith, c, h)
step-IsCleared i e start_ticker c h = ground (arith, c, h)
step-IsCleared i e task_returns c h = ground (arith, c, h)
step-IsCleared i e tick c h = ground (arith, c, h)
step-IsCleared i e leave c h = ground (arith, c, h)
step-IsCleared i e (call zero) c h = ground (arith, c, h)
step-IsCleared i e (call (suc j)) c h = ground (arith, c, h)
step-IsCleared i e (lock zero) c h = ground (arith, c, h)
step-IsCleared i e (lock (suc j)) c h = ground (arith, c, h)
step-IsCleared i e (send zero) c h = ground (arith, c, h)
step-IsCleared i e (send (suc j)) c h = ground (arith, c, h)
step-IsCleared i e (clean j) c h = ground (arith, c, h)

run-IsCleared :
    (i : ℕ) (actions : List Action) (e : PeriodicExecutor)
    → IsCleared i e
    → IsCleared i (run actions e)
unfolding run
run-IsCleared i [] e c = c
run-IsCleared i (a ∷ actions) e c = run-IsCleared i actions (step a e) (step-IsCleared i e a c)

new_executor-IsCleared : (from to : Bool) (i : ℕ) → IsCleared i (new_periodic_executor from to)
unfolding new_periodic_executor begin_ticker
new_executor-IsCleared true to i h = cc h
new_executor-IsCleared false to i h = refl

-- A timer of the start that is neither set nor begun was stopped before there was a goroutine.
cancelled-IsQuiet :
    (e : PeriodicExecutor)
    → IsValid e
    → is_armed e.start ≡ false
    → is_begun e.start || is_fired e.start ≡ false
    → IsQuiet e
cancelled-IsQuiet e v a b =
    let none_yet = v.fresh (ground (arith, b)) in (ground (arith, none_yet), ground (arith, a, b))

-- In whatever order the goroutines and timers of a new executor and any calls of `Stop` take their
-- steps: once a call of `Stop` is at its end, the task is never run again, where the executor was
-- made without a start time, or the callback of the timer of the start has not begun by then.
pub runs_after_stop :
    (from to : Bool) (i : ℕ) (before after : List Action)
    → let e = run before (new_periodic_executor from to) in
      e.stops (suc i) ≡ over
      → (from ≡ false) ⊎ (is_begun e.start || is_fired e.start ≡ false)
      → (run after e).runs ≡ e.runs
unfolding run
runs_after_stop false to i before after ended how =
    let s =
      run-IsStopping i before (new_periodic_executor false to) (run-IsValid false to [])
        (new_executor-IsStopping i to) in
    runs-run after (run before (new_periodic_executor false to))
      (s.past (ap is_past ended), s.started)
runs_after_stop true to i before after ended (inl never) = cc never
runs_after_stop true to i before after ended (inr early) =
    let cleared =
      run-IsCleared i before (new_periodic_executor true to) (new_executor-IsCleared true to i)
        (ap is_over ended) in
    runs-run after (run before (new_periodic_executor true to))
      (cancelled-IsQuiet _ (run-IsValid true to before) cleared early)
