-- ===== src/Uploadable/Connection.antt =====
-- client/uploadable.go: `Connect`, `Disconnect` and what the feature sends through its Ditto client.
pub mod Ending
use file_upload.Prelude.Result.{Result, ok, err, ◌>>=◌}
use file_upload.Prelude.{
  if◌then◌else◌, Bool, true, false, ℕ, Option, none, some, List, [], ◌∷◌, ◌++◌,
}
use file_upload.Prelude.Text.{Text, bytes}
use file_upload.Prelude.Dict.{Dict}
use file_upload.Uploads.Status.{UploadStatus, zero_status}
use file_upload.Uploads.Heap.{Heap}
use file_upload.Uploads.Stop
use file_upload.StatusEvents.{StatusEventsConsumer, new_status_events_consumer, start, stop, add}
use file_upload.Edge.{EdgeConfiguration}
use file_upload.Uploadable.{UploadableConfig, Executor, AutoUploadable}
use file_upload.Uploadable.Config.{
  Failure, nil_pointer, blocked, new_auto_uploadable, stop_executor,
}

-- What a message asks for: an upload of a file by its ID and options, or a new value of a property.
pub data Subject : Type 0 where
  upload_request : Text → Dict Text → Subject
  modify_property : Text → UploadStatus → Subject

pub record Outgoing : Type 0 where
  pub device_id : Text
  pub feature_id : Text
  pub subject : Subject
  pub reply_to : Option Text

-- The calls of the Ditto client.
pub data ClientCall : Type 0 where
  subscribe connect_client unsubscribe disconnect_client : ClientCall
  send_message : Outgoing → ClientCall

-- The feature with the tenant of its connection, its status events, whether it has a client, and the
-- calls of that client.
pub record Connection {ℓ} (U : Type ℓ) : Type ℓ where
  pub feature : AutoUploadable U
  pub tenant_id : Text
  pub status_events : StatusEventsConsumer UploadStatus
  pub has_client : Bool
  pub calls : List ClientCall

abbrev pub last_upload_property : Text
last_upload_property = bytes "lastUpload"

module _ {ℓ} {U : Type ℓ} where
  -- `NewAutoUploadable`, with its status events.
  unfoldable pub new_connection : UploadableConfig → ℕ → Heap → Connection U
  unfolding new_auto_uploadable new_status_events_consumer
  new_connection cfg seconds heap = record {
    feature = new_auto_uploadable cfg [] seconds heap;
    tenant_id = [];
    status_events = new_status_events_consumer zero_status 100;
    has_client = false;
    calls = [];
  }

  -- `Connect`. `new_client` is the error of making a Ditto client, with which the client is nil; the
  -- error of the client's own `Connect` is only logged.
  unfoldable pub connect : Option Text → EdgeConfiguration → Connection U → Connection U
  unfolding start
  connect new_client edge c =
      let c' : Connection U = record c {
        feature = record c.feature { device_id = edge.device_id };
        tenant_id = edge.tenant_id;
      } in
      elim new_client [
        | some e ↦ record c' { has_client = false }
        | none ↦ record c' {
          has_client = true;
          status_events = start c.status_events;
          calls = c.calls ++ (subscribe ∷ connect_client ∷ []);
        }
      ]

  -- `sendUploadRequest`: an error is only logged.
  unfoldable pub send_upload_request : Text → Dict Text → Connection U → Connection U
  send_upload_request id options c =
      let message : Outgoing = record {
        device_id = c.feature.device_id;
        feature_id = c.feature.cfg.feature_id;
        subject = upload_request id options;
        reply_to = some (bytes "command/" ++ c.tenant_id);
      } in
      record c { calls = c.calls ++ (send_message message ∷ []) }

  -- `UpdateProperty`: an error is only logged.
  unfoldable pub update_property : Text → UploadStatus → Connection U → Connection U
  update_property name value c =
      let message : Outgoing = record {
        device_id = c.feature.device_id;
        feature_id = c.feature.cfg.feature_id;
        subject = modify_property name value;
        reply_to = none;
      } in
      record c { calls = c.calls ++ (send_message message ∷ []) }

  -- `uploadStatusUpdated`
  unfoldable pub upload_status_updated : UploadStatus → Connection U → Connection U
  unfolding add
  upload_status_updated s c = record c { status_events = add s c.status_events }

  -- The part of `Disconnect` that needs the client: it panics where that is nil.
  unfoldable pub leave_client : Connection U → Result Failure (Connection U)
  unfolding stop
  leave_client c =
      let c' : Connection U = record c { status_events = stop c.status_events } in
      if c.has_client
      then ok (record c' { calls = c.calls ++ (unsubscribe ∷ disconnect_client ∷ []) })
      else err nil_pointer

  -- What `Disconnect` does before it stops the uploads. `stops` is as in `stopExecutor`.
  unfoldable pub leave : (Executor → Bool) → Connection U → Result Failure (Connection U)
  unfolding leave_client stop_executor
  leave stops c = do
    c' ← leave_client c
    feature ← stop_executor stops c'.feature
    ok (record c' { feature = feature })

  -- The connection with the uploads that `Uploads.Stop` leaves, if that comes to its end.
  with_uploads : Connection U → Option Heap → Result Failure (Connection U)
  with_uploads c none = err blocked
  with_uploads c (some h) = ok (record c { feature = record c.feature { heap = h } })

  -- `Disconnect` at the time `now`; `others` and `delay` are as in `Uploads.Stop`.
  unfoldable pub disconnect :
      (Executor → Bool)
      → (ℕ → Heap → Heap)
      → (ℕ → ℕ)
      → ℕ
      → Connection U
      → Result Failure (Connection U)
  unfolding leave Stop.stop with_uploads
  disconnect stops others delay now c = do
    c' ← leave stops c
    with_uploads c' (Stop.stop others delay now c'.feature.cfg.stop_timeout c'.feature.heap)
