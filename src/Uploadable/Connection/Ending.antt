-- ===== src/Uploadable/Connection/Ending.antt =====
-- client/uploadable.go: whether `Disconnect` returns, and what it leaves behind.
use file_upload.Prelude.{ℕ, ◌≡◌, none, some, List, [], ◌∷◌, ◌++◌, ◌⊎◌, Bool, true, false, not}
use file_upload.Prelude.Result.{ok, err}
use file_upload.Uploads.Status.{zero_status, UploadStatus}
use file_upload.Uploads.Heap.{Heap}
use file_upload.Uploads.Stop
use file_upload.StatusEvents.{Step, run, stop}
use file_upload.StatusEvents.Delivery.{NoStart, taken}
use file_upload.Uploadable.{Executor, AutoUploadable}
use file_upload.Uploadable.Config.{nil_pointer, blocked}
use file_upload.Uploadable.Connection.{Connection, unsubscribe, disconnect_client, disconnect}

unfoldable blocks {ℓ} : {U : Type ℓ} → (Executor → Bool) → AutoUploadable U → Bool
blocks stops u = elim u.executor [ none ↦ false | some e ↦ not (stops e) ]

module _ {ℓ} {U : Type ℓ} (stops : Executor → Bool) (others : ℕ → Heap → Heap) (delay : ℕ → ℕ) where
  -- What remains of a connection `c` after `Disconnect`.
  pub record Ended (now : ℕ) (c d : Connection U) : Type ℓ where
    pub no_executor : d.feature.executor ≡ none
    pub client : d.calls ≡ c.calls ++ (unsubscribe ∷ disconnect_client ∷ [])
    pub uploads :
        Stop.stop others delay now c.feature.cfg.stop_timeout c.feature.heap ≡ some d.feature.heap
    pub silent :
        (steps : List (Step UploadStatus))
        → NoStart zero_status steps
        → taken zero_status (run zero_status steps d.status_events)
          ≡ taken zero_status c.status_events

  -- How `Disconnect` goes: it panics, waits for ever or returns.
  abbrev pub Goes : ℕ → Connection U → Type ℓ
  Goes now c =
      ((c.has_client ≡ false) × (disconnect stops others delay now c ≡ err nil_pointer))
      ⊎ ((c.has_client ≡ true)
          × ((e : Executor) × (c.feature.executor ≡ some e) × (stops e ≡ false))
          × (disconnect stops others delay now c ≡ err blocked))
      ⊎ ((c.has_client ≡ true)
          × ((e : Executor) → c.feature.executor ≡ some e → stops e ≡ true)
          × ((d : Connection U) × (disconnect stops others delay now c ≡ ok d) × Ended now c d))
