-- ===== src/Uploadable/Config.antt =====
-- `Validate`, `NewAutoUploadable`, the executor and the identifiers of the feature.
pub mod Validity
use file_upload.Prelude.{
  ℕ, ◌+◌, Bool, true, false, not, ◌||◌, if◌then◌else◌, Option, none, some, [], ◌++◌, ◌∷◌, ltb,
}
use file_upload.Prelude.Text.{Text, bytes}
use file_upload.Prelude.Decimal.{decimal}
use file_upload.Prelude.Int.{ℤ, pos, negsuc}
use file_upload.Prelude.Result.{Result, ok, err, ◌>>=◌, ◌>>◌}
use file_upload.Uploads.Status.{Time}
use file_upload.Uploads.Heap.{Heap}
use file_upload.Uploadable.{UploadableConfig, Executor, AutoUploadable, Message, create_feature}

-- The messages with which `Validate` ends the process.
pub data ConfigError : Type 0 where
  period_not_positive : ConfigError
  till_before_from : ConfigError

is_positive : ℤ → Bool
is_positive (pos n) = ltb 0 n
is_positive (negsuc n) = false

is_set : Option Time → Bool
is_set none = false
is_set (some t) = true

before : Option Time → Option Time → Bool
before (some a) (some b) = ltb a b
before _ _ = false

-- `UploadableConfig.Validate`
unfoldable pub validate : UploadableConfig → Result ConfigError UploadableConfig
unfolding is_positive is_set before
validate cfg =
    if not (is_positive cfg.period)
    then err period_not_positive
    else if is_set cfg.active_from || is_set cfg.active_till
    then (if before cfg.active_till cfg.active_from
        then err till_before_from
        else ok (record cfg { active = true }))
    else ok cfg

-- How a call may fail to come to its end: by a nil pointer, or as it waits for ever.
pub data Failure : Type 0 where
  nil_pointer blocked : Failure

abbrev pub guard_stops : Bool → Result Failure (Unit {0})
guard_stops true = ok tt
guard_stops false = err blocked

module _ {ℓ} {U : Type ℓ} where
  -- `NewAutoUploadable`, at the Unix time `seconds`, on the new registry in `heap`.
  unfoldable pub new_auto_uploadable : UploadableConfig → Text → ℕ → Heap → AutoUploadable U
  new_auto_uploadable cfg device_id seconds heap = record {
    device_id = device_id;
    cfg = cfg;
    state = record {
      active = cfg.active;
      start_time = cfg.active_from;
      end_time = cfg.active_till;
    };
    uid_counter = seconds;
    heap = heap;
    executor = none;
    sent = [];
    tasks = [];
  }

  -- `nextUID`
  unfoldable pub next_uid : AutoUploadable U → Text × AutoUploadable U
  next_uid u =
      let n = u.uid_counter + 1 in (bytes "upload-id-" ++ decimal n, record u { uid_counter = n })

  -- A call of `Stop` of an executor with the mutex of the feature held, if there is one. `stops` tells
  -- of which executors such a call returns: it does not if the executor's own locks are stuck, or if
  -- the task that it waits for waits for the mutex of the feature.
  unfoldable pub executor_stopped : (Executor → Bool) → AutoUploadable U → Result Failure (Unit {0})
  executor_stopped stops u = elim u.executor [ none ↦ ok tt | some e ↦ guard_stops (stops e) ]

  -- `startExecutor`: a running one is stopped and replaced.
  unfoldable pub start_executor :
      (Executor → Bool) → AutoUploadable U → Result Failure (AutoUploadable U)
  unfolding executor_stopped
  start_executor stops u = do
    executor_stopped stops u
    ok (record u {
      executor =
          some (record { from = u.state.start_time; to = u.state.end_time; period = u.cfg.period });
    })

  -- `stopExecutor`
  unfoldable pub stop_executor :
      (Executor → Bool) → AutoUploadable U → Result Failure (AutoUploadable U)
  unfolding executor_stopped
  stop_executor stops u = do executor_stopped stops u; ok (record u { executor = none })

  abbrev pub send : Message → AutoUploadable U → AutoUploadable U
  send message u = record u { sent = u.sent ++ (message ∷ []) }

  -- `connectHandler`, when the message is sent.
  unfoldable pub connect_handler :
      (Executor → Bool) → AutoUploadable U → Result Failure (AutoUploadable U)
  unfolding start_executor
  connect_handler stops u =
      let u' = send (create_feature u.state) u in
      if u.cfg.active then start_executor stops u' else ok u'
