-- ===== src/Timer.antt =====
-- client/timer.go: the periodic executor as a machine of its goroutines. A step is what one of them
-- does between two waits; a step that is not possible changes nothing.
pub mod Invariant
pub mod Stopping
pub mod Quiet
mod Tests
use file_upload.Prelude.{
  ℕ, zero, suc, ◌+◌, Bool, true, false, ◌&&◌, if◌then◌else◌, Option, none, some, List, [], ◌∷◌, eqb,
}
use file_upload.Uploads.Heap.{update}

-- The goroutine of `startTicker`: not yet started, inside `task`, at `select`, after its loop and
-- before the section that sets the ticker to nil, and after it.
pub data Worker : Type 0 where
  absent in_task selecting leaving gone : Worker

-- The start of the ticker: the timer is set, its callback waits for the mutex, it is done, or the
-- timer was stopped.
pub data Start : Type 0 where
  armed fired begun cancelled : Start

-- A call of `stopTicker` or `Stop`: not yet made, waiting for the mutex, at the send on `done` with
-- the mutex held, in `Stop` after `stopTicker`, and at its end.
pub data StopCall : Type 0 where
  idle waiting sending sent over : StopCall

-- `PeriodicExecutor`. Call 0 is the callback of `toTimer`, and the others are calls of `Stop`. The
-- mutex is none when it is free; a call that waits in its section is its holder.
pub record PeriodicExecutor : Type 0 where
  pub mutex : Option ℕ
  pub ticker : Bool
  pub worker : Worker
  pub start : Start
  pub to_armed : Bool
  pub stops : ℕ → StopCall
  pub runs : ℕ

pub data Action : Type 0 where
  fire_from start_ticker task_returns tick leave : Action
  call lock send clean : ℕ → Action

abbrev pub is_free : Option ℕ → Bool
is_free none = true
is_free (some i) = false

abbrev pub is_absent : Worker → Bool
is_absent absent = true
is_absent _ = false

abbrev pub is_in_task : Worker → Bool
is_in_task in_task = true
is_in_task _ = false

abbrev pub is_selecting : Worker → Bool
is_selecting selecting = true
is_selecting _ = false

abbrev pub is_leaving : Worker → Bool
is_leaving leaving = true
is_leaving _ = false

abbrev pub is_armed : Start → Bool
is_armed armed = true
is_armed _ = false

abbrev pub is_fired : Start → Bool
is_fired fired = true
is_fired _ = false

abbrev pub is_idle : StopCall → Bool
is_idle idle = true
is_idle _ = false

abbrev pub is_waiting : StopCall → Bool
is_waiting waiting = true
is_waiting _ = false

abbrev pub is_sending : StopCall → Bool
is_sending sending = true
is_sending _ = false

abbrev pub is_sent : StopCall → Bool
is_sent sent = true
is_sent _ = false

-- After `stopTicker` the callback of the timer is at its end, and `Stop` goes on.
abbrev pub after_stop_ticker : ℕ → StopCall
after_stop_ticker zero = over
after_stop_ticker (suc i) = sent

-- The section of `startTicker`, and the start of its goroutine, which runs the task at once.
unfoldable pub begin_ticker : PeriodicExecutor → PeriodicExecutor
begin_ticker e = record e { ticker = true; worker = in_task; start = begun; runs = e.runs + 1 }

-- `NewPeriodicExecutor`, by whether `from` and `to` are given.
unfoldable pub new_periodic_executor : Bool → Bool → PeriodicExecutor
unfolding begin_ticker
new_periodic_executor from to =
    let e : PeriodicExecutor = record {
      mutex = none;
      ticker = false;
      worker = absent;
      start = armed;
      to_armed = to;
      stops = λ i. idle;
      runs = 0;
    } in
    if from then e else begin_ticker e

-- A call is made: that of the timer only if the timer is set.
unfoldable pub make_call : ℕ → PeriodicExecutor → PeriodicExecutor
make_call zero e =
    if e.to_armed && is_idle (e.stops 0)
    then record e { to_armed = false; stops = update e.stops 0 waiting }
    else e
make_call (suc i) e =
    if is_idle (e.stops (suc i)) then record e { stops = update e.stops (suc i) waiting } else e

-- `stopTicker` up to its send.
unfoldable pub lock_call : ℕ → PeriodicExecutor → PeriodicExecutor
unfolding update
lock_call i e =
    if is_waiting (e.stops i) && is_free e.mutex
    then (if e.ticker
        then record e { mutex = some i; stops = update e.stops i sending }
        else record e { stops = update e.stops i (after_stop_ticker i) })
    else e

-- The send meets the goroutine at its `select`, and the mutex is released.
unfoldable pub send_done : ℕ → PeriodicExecutor → PeriodicExecutor
unfolding update
send_done i e =
    if is_sending (e.stops i) && is_selecting e.worker
    then record e { mutex = none; worker = leaving; stops = update e.stops i (after_stop_ticker i) }
    else e

-- The second section of `Stop`: a timer whose callback has begun is not stopped by it.
unfoldable pub clean_up : ℕ → PeriodicExecutor → PeriodicExecutor
unfolding update
clean_up i e =
    if is_sent (e.stops i) && is_free e.mutex
    then record e {
      start = if is_armed e.start then cancelled else e.start;
      to_armed = false;
      stops = update e.stops i over;
    }
    else e

unfoldable pub step : Action → PeriodicExecutor → PeriodicExecutor
unfolding begin_ticker make_call lock_call send_done clean_up
step fire_from e = if is_armed e.start then record e { start = fired } else e
step start_ticker e = if is_fired e.start && is_free e.mutex then begin_ticker e else e
step task_returns e = if is_in_task e.worker then record e { worker = selecting } else e
step tick e = if is_selecting e.worker then record e { worker = in_task; runs = e.runs + 1 } else e
step leave e =
    if is_leaving e.worker && is_free e.mutex then record e { worker = gone; ticker = false } else e
step (call i) e = make_call i e
step (lock i) e = lock_call i e
step (send i) e = send_done i e
step (clean i) e = clean_up i e

unfoldable pub run : List Action → PeriodicExecutor → PeriodicExecutor
unfolding step
run [] e = e
run (a ∷ actions) e = run actions (step a e)
