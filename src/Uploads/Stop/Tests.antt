-- ===== src/Uploads/Stop/Tests.antt =====
-- client/uploads.go: `Stop` with a timeout of three seconds, at an upload of two files that goes on.
use file_upload.Prelude.{ℕ, ◌<◌, ◌≤◌, ◌≡◌, ◌⊎◌, false, some, suc}
use file_upload.Prelude.Text.{Text}
use file_upload.Prelude.Int.{ℤ, pos}
use file_upload.Uploads.Heap.{Heap, multi}
use file_upload.Uploads.Registry.{get, has_pending_uploads}
use file_upload.Uploads.Methods.Ending.{AllClosed}
use file_upload.Uploads.Examples.{running}
use file_upload.Uploads.Stop.{stop, deadline, cancel_all}
use file_upload.Uploads.Stop.Waiting.{seen, clock, AllPending, stop_lem}
use file_upload.Uploads.Stop.Closing.{cancel_all-AllClosed}

abbrev nothing_else : ℕ → Heap → Heap
nothing_else k h = h

abbrev no_delay : ℕ → ℕ
no_delay k = 0

abbrev three_seconds : ℤ
three_seconds = pos 3000000000

stop_lem_example :
    (n : ℕ) × AllPending nothing_else no_delay 0 n running
    × ((clock nothing_else no_delay 0 n 5 < deadline 5 three_seconds
          × (has_pending_uploads (seen nothing_else no_delay 0 n running) ≡ false)
          × (stop nothing_else no_delay 5 three_seconds running
              ≡ some (seen nothing_else no_delay 0 (suc n) running)))
        ⊎ (deadline 5 three_seconds ≤ clock nothing_else no_delay 0 n 5
            × (stop nothing_else no_delay 5 three_seconds running
                ≡ some (
                    cancel_all
                      (seen nothing_else no_delay 0 n running).uploads
                      (seen nothing_else no_delay 0 n running)))))
stop_lem_example = stop_lem nothing_else no_delay 5 three_seconds running

cancel_all-AllClosed_example :
    ((id : Text) (m : ℕ)
      → get id running ≡ some (multi m)
      → AllClosed (running.multis m).children (cancel_all running.uploads running))
    × ((cancel_all running.uploads running).multis ≡ running.multis)
    × ((cancel_all running.uploads running).uploads ≡ running.uploads)
    × ((cancel_all running.uploads running).events ≡ running.events)
cancel_all-AllClosed_example = cancel_all-AllClosed running
