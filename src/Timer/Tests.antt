-- ===== src/Timer/Tests.antt =====
-- client/timer.go: an executor that is stopped twice at once, and one that is stopped once.
use file_upload.Prelude.{inl, inr, ◌||◌, ◌≡◌, ◌≢◌, refl, Bool, true, false, List, [], ◌∷◌, arith}
use file_upload.Uploads.Heap.{update}
use file_upload.Timer.{
  is_fired, PeriodicExecutor, leaving, Action, task_returns, tick, leave, call, lock, send,
  begin_ticker, make_call, lock_call, send_done, clean_up, new_periodic_executor, step, run, clean,
  over, fire_from, start_ticker,
}
use file_upload.Timer.Invariant.{is_begun, IsValid, run-IsValid}
use file_upload.Timer.Stopping.{IsStuck, HasEnded, stop_steps, run-IsStuck, run-stop_steps}
use file_upload.Timer.Quiet.{runs_after_stop}

-- The end of the time frame is reached while `Stop` is called.
abbrev both_stop : List Action
both_stop = task_returns ∷ tick ∷ call 0 ∷ call 1 ∷ task_returns ∷ lock 0 ∷ send 0 ∷ lock 1 ∷ []

abbrev started : Bool → PeriodicExecutor
started to = new_periodic_executor false to

run-IsValid_example : IsValid (run both_stop (new_periodic_executor false true))
run-IsValid_example = run-IsValid false true both_stop

both_stop-IsStuck : IsStuck 1 (run both_stop (started true))
unfolding run step begin_ticker make_call lock_call send_done clean_up update new_periodic_executor
both_stop-IsStuck = (refl, refl)

run-IsStuck_example : IsStuck 1 (run (leave ∷ []) (run both_stop (started true)))
run-IsStuck_example =
    run-IsStuck 1 (run both_stop (started true)) (leave ∷ []) (run-IsValid false true both_stop)
      both_stop-IsStuck

started_in_task : (started false).worker ≢ leaving
unfolding new_periodic_executor begin_ticker
started_in_task h = ground (arith, h)

run-stop_steps_example : HasEnded 1 (run (stop_steps 0) (run [] (started false)))
unfolding run new_periodic_executor begin_ticker
run-stop_steps_example =
    run-stop_steps 0 (run [] (started false)) (run-IsValid false false []) refl refl started_in_task

-- `Stop` is called while the task waits for its next tick, which comes first.
abbrev stopped_late : List Action
stopped_late = task_returns ∷ call 1 ∷ tick ∷ lock 1 ∷ task_returns ∷ send 1 ∷ clean 1 ∷ []

stopped_late-over : (run stopped_late (started true)).stops 1 ≡ over
unfolding run step begin_ticker make_call lock_call send_done clean_up update new_periodic_executor
stopped_late-over = refl

runs_after_stop_example :
    (run (tick ∷ leave ∷ fire_from ∷ call 2 ∷ []) (run stopped_late (started true))).runs
    ≡ (run stopped_late (started true)).runs
runs_after_stop_example =
    runs_after_stop false true 0 stopped_late (tick ∷ leave ∷ fire_from ∷ call 2 ∷ [])
      stopped_late-over (inl refl)

-- `Stop` before the start time.
abbrev stopped_early : List Action
stopped_early = call 1 ∷ lock 1 ∷ clean 1 ∷ []

abbrev still_early : PeriodicExecutor
still_early = run stopped_early (new_periodic_executor true false)

still_early-over :
    (still_early.stops 1 ≡ over)
    × (is_begun still_early.start || is_fired still_early.start ≡ false)
unfolding run step begin_ticker make_call lock_call send_done clean_up update new_periodic_executor
still_early-over = (refl, refl)

never_started : (run (fire_from ∷ start_ticker ∷ tick ∷ []) still_early).runs ≡ still_early.runs
never_started =
    runs_after_stop true false 0 stopped_early (fire_from ∷ start_ticker ∷ tick ∷ [])
      still_early-over.0 (inr still_early-over.1)
