-- ===== src/Uploads/Stop.antt =====
-- client/uploads.go: `Uploads.Stop`. Times are numbers of nanoseconds.
pub mod Waiting
pub mod Closing
mod Tests
use file_upload.Prelude.{
  ℕ, zero, suc, ◌+◌, ◌-◌, ◌/◌, Bool, true, false, ◌&&◌, if◌then◌else◌, ltb, Option, none, some, [],
  ◌∷◌,
}
use file_upload.Prelude.Dict.{Dict}
use file_upload.Prelude.Int.{ℤ, pos, negsuc}
use file_upload.Uploads.Heap.{Heap, Upload, single, multi}
use file_upload.Uploads.Registry.{has_pending_uploads}
use file_upload.Uploads.Methods.{cancel_uploads}

-- The loop of `Stop` over the registered uploads.
unfoldable pub cancel_all : Dict Upload → Heap → Heap
unfolding cancel_uploads
cancel_all [] h = h
cancel_all ((id, single a) ∷ us) h = cancel_all us h
cancel_all ((id, multi m) ∷ us) h = cancel_all us (cancel_uploads m h)

-- The sleep between two looks at the uploads.
abbrev pub two_seconds : ℕ
two_seconds = 2000000000

-- `time.Now().Add(timeout)`
unfoldable pub deadline : ℕ → ℤ → ℕ
deadline now (pos n) = now + n
deadline now (negsuc n) = now - (n + 1)

-- What `Stop` does after its loop.
unfoldable pub after_wait : Option (Bool × Heap) → Option Heap
unfolding cancel_all
after_wait none = none
after_wait (some (pending, h)) = some (if pending then cancel_all h.uploads h else h)

-- What the other goroutines make of the uploads in the `k`-th turn of the loop, and by how much that
-- turn takes longer than its sleep.
module _ (others : ℕ → Heap → Heap) (delay : ℕ → ℕ) where
  -- The loop of `Stop` from its `k`-th turn on: whether there are pending uploads at its end.
  unfoldable pub wait : ℕ → ℕ → ℕ → ℕ → Bool → Heap → Option (Bool × Heap)
  unfolding has_pending_uploads
  wait zero end k now pending h = none
  wait (suc n) end k now pending h =
      let pending' = has_pending_uploads h in
      let now' = now + delay k + (if pending' then two_seconds else 0) in
      let rest = wait n end (suc k) now' pending' (others k h) in
      if pending && ltb now end then rest else some (pending, h)

  -- Turns that are enough for the loop.
  abbrev pub turns : ℕ → ℕ → ℕ
  turns now end = suc ((end - now) / two_seconds + 1)

  -- `Stop`; none would be a loop that has not ended.
  unfoldable pub stop : ℕ → ℤ → Heap → Option Heap
  unfolding wait after_wait deadline
  stop now timeout h =
      let end = deadline now timeout in after_wait (wait (turns now end) end 0 now true h)
