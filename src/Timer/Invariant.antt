-- ===== src/Timer/Invariant.antt =====
-- client/timer.go: who holds the mutex of the executor, and when it has a ticker.
use file_upload.Prelude.{ℕ, zero, suc, ◌≡◌, refl, Bool, true, false, some, arith, List, [], ◌∷◌}
use file_upload.Uploads.Heap.{update}
use file_upload.Timer.{
  PeriodicExecutor, Worker, absent, gone, Start, begun, sending, Action, fire_from, start_ticker,
  task_returns, tick, leave, call, lock, send, clean, begin_ticker, make_call, lock_call, send_done,
  clean_up, new_periodic_executor, step, run,
}

-- Whether the goroutine runs.
abbrev pub is_alive : Worker → Bool
is_alive absent = false
is_alive gone = false
is_alive _ = true

abbrev pub is_begun : Start → Bool
is_begun begun = true
is_begun _ = false

-- A call that sends holds the mutex, and only such a call holds it across steps; the ticker is there
-- exactly while the goroutine runs, which it does as long as the mutex is held; and there is no
-- goroutine before the ticker has begun.
pub record IsValid (e : PeriodicExecutor) : Type 0 where
  pub holds : (i : ℕ) → e.stops i ≡ sending → e.mutex ≡ some i
  pub held : (i : ℕ) → e.mutex ≡ some i → e.stops i ≡ sending
  pub ticking : e.ticker ≡ is_alive e.worker
  pub busy : (i : ℕ) → e.mutex ≡ some i → is_alive e.worker ≡ true
  pub fresh : is_begun e.start ≡ false → e.worker ≡ absent

module _ {e : PeriodicExecutor} (v : IsValid e) where
  fire_from-IsValid : IsValid (step fire_from e)
  unfolding step
  fire_from-IsValid = record {
    holds = λ i q. ground (arith, v.holds i, q);
    held = λ i q. ground (arith, v.held i, q);
    ticking = ground (arith, v.ticking);
    busy = λ i q. ground (arith, v.busy i, q);
    fresh = λ q. ground (arith, v.fresh, q);
  }

  start_ticker-IsValid : IsValid (step start_ticker e)
  unfolding step begin_ticker
  start_ticker-IsValid = record {
    holds = λ i q. ground (arith, v.holds i, q);
    held = λ i q. ground (arith, v.held i, q);
    ticking = ground (arith, v.ticking);
    busy = λ i q. ground (arith, v.busy i, q);
    fresh = λ q. ground (arith, v.fresh, q);
  }

  task_returns-IsValid : IsValid (step task_returns e)
  unfolding step
  task_returns-IsValid = record {
    holds = λ i q. ground (arith, v.holds i, q);
    held = λ i q. ground (arith, v.held i, q);
    ticking = ground (arith, v.ticking);
    busy = λ i q. ground (arith, v.busy i, q);
    fresh = λ q. ground (arith, v.fresh, q);
  }

  tick-IsValid : IsValid (step tick e)
  unfolding step
  tick-IsValid = record {
    holds = λ i q. ground (arith, v.holds i, q);
    held = λ i q. ground (arith, v.held i, q);
    ticking = ground (arith, v.ticking);
    busy = λ i q. ground (arith, v.busy i, q);
    fresh = λ q. ground (arith, v.fresh, q);
  }

  leave-IsValid : IsValid (step leave e)
  unfolding step
  leave-IsValid = record {
    holds = λ i q. ground (arith, v.holds i, q);
    held = λ i q. ground (arith, v.held i, q);
    ticking = ground (arith, v.ticking);
    busy = λ i q. ground (arith, v.busy i, q);
    fresh = λ q. ground (arith, v.fresh, q);
  }

  make_call-IsValid : (j : ℕ) → IsValid (make_call j e)
  unfolding make_call update
  make_call-IsValid zero = record {
    holds = λ i q. ground (arith, v.holds i, q);
    held = λ i q. ground (arith, v.held i, q);
    ticking = ground (arith, v.ticking);
    busy = λ i q. ground (arith, v.busy i, q);
    fresh = λ q. ground (arith, v.fresh, q);
  }
  make_call-IsValid (suc j) = record {
    holds = λ i q. ground (arith, v.holds i, q);
    held = λ i q. ground (arith, v.held i, q);
    ticking = ground (arith, v.ticking);
    busy = λ i q. ground (arith, v.busy i, q);
    fresh = λ q. ground (arith, v.fresh, q);
  }

  lock_call-IsValid : (j : ℕ) → IsValid (lock_call j e)
  unfolding lock_call update
  lock_call-IsValid zero = record {
    holds = λ i q. ground (arith, v.holds i, q);
    held = λ i q. ground (arith, v.held i, q);
    ticking = ground (arith, v.ticking);
    busy = λ i q. ground (arith, v.busy i, v.ticking, q);
    fresh = λ q. ground (arith, v.fresh, q);
  }
  lock_call-IsValid (suc j) = record {
    holds = λ i q. ground (arith, v.holds i, q);
    held = λ i q. ground (arith, v.held i, q);
    ticking = ground (arith, v.ticking);
    busy = λ i q. ground (arith, v.busy i, v.ticking, q);
    fresh = λ q. ground (arith, v.fresh, q);
  }

  send_done-IsValid : (j : ℕ) → IsValid (send_done j e)
  unfolding send_done update
  send_done-IsValid zero = record {
    holds = λ i q. ground (arith, v.holds i, v.holds 0, q);
    held = λ i q. ground (arith, v.held i, q);
    ticking = ground (arith, v.ticking);
    busy = λ i q. ground (arith, v.busy i, q);
    fresh = λ q. ground (arith, v.fresh, q);
  }
  send_done-IsValid (suc j) = record {
    holds = λ i q. ground (arith, v.holds i, v.holds (suc j), q);
    held = λ i q. ground (arith, v.held i, q);
    ticking = ground (arith, v.ticking);
    busy = λ i q. ground (arith, v.busy i, q);
    fresh = λ q. ground (arith, v.fresh, q);
  }

  clean_up-IsValid : (j : ℕ) → IsValid (clean_up j e)
  unfolding clean_up update
  clean_up-IsValid j = record {
    holds = λ i q. ground (arith, v.holds i, q);
    held = λ i q. ground (arith, v.held i, q);
    ticking = ground (arith, v.ticking);
    busy = λ i q. ground (arith, v.busy i, q);
    fresh = λ q. ground (arith, v.fresh, q);
  }

  pub step-IsValid : (a : Action) → IsValid (step a e)
  unfolding step
  step-IsValid fire_from = fire_from-IsValid
  step-IsValid start_ticker = start_ticker-IsValid
  step-IsValid task_returns = task_returns-IsValid
  step-IsValid tick = tick-IsValid
  step-IsValid leave = leave-IsValid
  step-IsValid (call i) = make_call-IsValid i
  step-IsValid (lock i) = lock_call-IsValid i
  step-IsValid (send i) = send_done-IsValid i
  step-IsValid (clean i) = clean_up-IsValid i

new_periodic_executor-IsValid : (from to : Bool) → IsValid (new_periodic_executor from to)
unfolding new_periodic_executor
new_periodic_executor-IsValid true to = record {
  holds = λ i q. ground (arith, q);
  held = λ i q. ground (arith, q);
  ticking = refl;
  busy = λ i q. ground (arith, q);
  fresh = λ q. refl;
}
new_periodic_executor-IsValid false to = record {
  holds = λ i q. ground (arith, q);
  held = λ i q. ground (arith, q);
  ticking = refl;
  busy = λ i q. ground (arith, q);
  fresh = λ q. ground (arith, q);
}

pub from_valid :
    (actions : List Action) {e : PeriodicExecutor} → IsValid e → IsValid (run actions e)
unfolding run
from_valid [] v = v
from_valid (a ∷ actions) v = from_valid actions (step-IsValid v a)

-- Whatever the goroutines of an executor do, in any order: the mutex is held across steps exactly by
-- the one call that is at its send, the ticker is there exactly while the goroutine runs, and the
-- goroutine runs as long as the mutex is held.
pub run-IsValid :
    (from to : Bool) (actions : List Action) → IsValid (run actions (new_periodic_executor from to))
run-IsValid from to actions = from_valid actions (new_periodic_executor-IsValid from to)
