-- ===== src/Uploads/Stop/Waiting.antt =====
-- client/uploads.go: how long `Stop` waits, and what it cancels.
use file_upload.Prelude.{
  ap, ℕ, zero, suc, ◌+◌, ◌-◌, ◌/◌, ◌*◌, ◌<◌, ◌≤◌, ◌≡◌, ◌⊎◌, Bool, true, false, ltb, Option, some,
  arith, Bool-cases, inl, inr,
}
use file_upload.Prelude.Int.{ℤ}
use file_upload.Uploads.Heap.{Heap}
use file_upload.Uploads.Registry.{has_pending_uploads}
use file_upload.Uploads.Stop.{after_wait, two_seconds, deadline, wait, stop, cancel_all}

module _ (others : ℕ → Heap → Heap) (delay : ℕ → ℕ) where
  -- The uploads after `n` turns from the `k`-th on.
  abbrev pub seen : ℕ → ℕ → Heap → Heap
  seen k zero h = h
  seen k (suc n) h = seen (suc k) n (others k h)

  -- The time after these turns, in each of which there were pending uploads.
  abbrev pub clock : ℕ → ℕ → ℕ → ℕ
  clock k zero now = now
  clock k (suc n) now = clock (suc k) n (now + delay k + two_seconds)

  -- There were pending uploads in each of these turns.
  abbrev pub AllPending : ℕ → ℕ → Heap → Type 0
  AllPending k zero h = Unit
  AllPending k (suc n) h = (has_pending_uploads h ≡ true) × AllPending (suc k) n (others k h)

  -- How the loop ends that starts at the `k`-th turn: in some turn before its end there are no
  -- pending uploads, or its time is up.
  abbrev Ends : ℕ → ℕ → ℕ → Heap → Option (Bool × Heap) → Type 0
  Ends end k now h result =
      (n : ℕ) × AllPending k n h
      × ((clock k n now < end
            × (has_pending_uploads (seen k n h) ≡ false)
            × (result ≡ some (false, seen k (suc n) h)))
          ⊎ (end ≤ clock k n now × (result ≡ some (true, seen k n h))))

  module _ (end k now n : ℕ) (h : Heap) where
    wait_late : end ≤ now → wait others delay (suc n) end k now true h ≡ some (true, h)
    unfolding wait
    wait_late e = ground (arith, e)

    wait_quiet :
        now < end
        → has_pending_uploads h ≡ false
        → wait others delay (suc (suc n)) end k now true h ≡ some (false, others k h)
    unfolding wait
    wait_quiet e q = rw q (ground (arith, e))

    wait_turn :
        now < end
        → has_pending_uploads h ≡ true
        → wait others delay (suc n) end k now true h
          ≡ wait others delay n end (suc k) (now + delay k + two_seconds) true (others k h)
    unfolding wait
    wait_turn e q = rw q (ground (arith, e))

  one_more :
      {end k now : ℕ} {h : Heap} {result : Option (Bool × Heap)}
      → has_pending_uploads h ≡ true
      → Ends end (suc k) (now + delay k + two_seconds) (others k h) result
      → Ends end k now h result
  one_more q (n, all, how) = (suc n, (q, all), how)

  wait_lem :
      (n end k now : ℕ) (h : Heap)
      → end < now + two_seconds * n
      → Ends end k now h (wait others delay (suc n) end k now true h)
  wait_lem zero end k now h e =
      (0, tt, inr (omega (arith, e), wait_late end k now 0 h (omega (arith, e))))
  wait_lem (suc n) end k now h e = elim (Bool-cases (ltb now end)) [
    | inr late ↦
        (0, tt, inr (ground (arith, late), wait_late end k now (suc n) h (ground (arith, late))))
    | inl early ↦
        let l : now < end = ground (arith, early) in
        elim (Bool-cases (has_pending_uploads h)) [
          | inr q ↦ (0, tt, inl (l, q, wait_quiet end k now n h l q))
          | inl q ↦ rw (wait_turn end k now (suc n) h l q) (
              one_more q (
                wait_lem n end (suc k) (now + delay k + two_seconds) (others k h)
                  (omega (arith, e))))
        ]
  ]

  enough_turns : (end now : ℕ) → end < now + two_seconds * ((end - now) / two_seconds + 1)
  enough_turns end now = grind arith

  -- Stop comes to its end: either after turns in which there were pending uploads there is one,
  -- begun within the timeout, in which there are none, and it cancels nothing; or the timeout has
  -- passed, and it closes the files of every upload that is then registered.
  pub stop_lem :
      (now : ℕ) (timeout : ℤ) (h : Heap)
      → (n : ℕ) × AllPending 0 n h
        × ((clock 0 n now < deadline now timeout
              × (has_pending_uploads (seen 0 n h) ≡ false)
              × (stop others delay now timeout h ≡ some (seen 0 (suc n) h)))
            ⊎ (deadline now timeout ≤ clock 0 n now
                × (stop others delay now timeout h
                    ≡ some (cancel_all (seen 0 n h).uploads (seen 0 n h)))))
  unfolding stop after_wait
  stop_lem now timeout h =
      let end = deadline now timeout in
      let (n, all, how) =
        wait_lem ((end - now) / two_seconds + 1) end 0 now h (enough_turns end now) in
      elim how [
        | inl (early, quiet, e) ↦ (n, all, inl (early, quiet, ap after_wait e))
        | inr (late, e) ↦ (n, all, inr (late, ap after_wait e))
      ]
