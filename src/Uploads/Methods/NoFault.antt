-- ===== src/Uploads/Methods/NoFault.antt =====
-- client/uploads.go: the goroutine of `SingleUpload.start`, and the nil status that it could meet.
use file_upload.Prelude.{
  ℕ, ◌≡◌, refl, ap, ◌∙◌, Bool, true, false, some, List, [], ◌∷◌, arith, Option-cases, inl, inr,
}
use file_upload.Prelude.Int.{ℤ, wrap, ◌-ℤ◌}
use file_upload.Prelude.Result.{Result-cases}
use file_upload.Uploads.Status.{UploadStatus, Time}
use file_upload.Uploads.Multi
use file_upload.Uploads.Multi.{MultiUpload, Outcome}
use file_upload.Uploads.Multi.Floats.{Float}
use file_upload.Uploads.Multi.Actions.{without_child}
use file_upload.Uploads.Heap.{Heap, update}
use file_upload.Uploads.Methods.{
  complete, report_progress, report_all, change_progress, upload_finished, succeed, Attempt,
  upload_task, upload_failed, remove_child, set_file,
}
use file_upload.Uploads.Methods.Ending.{multi-remove_child}
use file_upload.Uploads.Methods.Finishing.{finish_status_total, upload_finished-complete}

-- The upload of the file at `a` has a status.
abbrev pub Started : ℕ → Heap → Type 0
Started a h = (s : UploadStatus) × ((h.multis (h.singles a).parent).status ≡ some s)

module _ (f64 f32 : Float) where
  pub change_progress_total :
      (n : ℤ) (u : MultiUpload) (s : UploadStatus)
      → u.status ≡ some s
      → (o : Outcome) × (t : UploadStatus) × (Multi.change_progress f64 f32 n u ≡ some o)
        × (o.upload.status ≡ some t)
  unfolding Multi.change_progress
  change_progress_total n u s e = elim (Option-cases (Multi.change_progress f64 f32 n u)) [
    | inl r ↦ absurd (ground (arith, e, r))
    | inr (o, r) ↦ elim (Option-cases o.upload.status) [
      | inl q ↦ absurd (ground (arith, e, r, q))
      | inr (t, q) ↦ (o, t, r, q)
    ]
  ]

  report_progress_total :
      (a : ℕ) (n : ℤ) (h : Heap)
      → Started a h
      → (g : Heap) × (report_progress f64 f32 a n h ≡ some g) × Started a g
  unfolding report_progress change_progress update
  report_progress_total a n h (s, e) =
      let m = (h.singles a).parent in
      let change = wrap (n -ℤ (h.singles a).bytes_transferred) in
      let (o, t, made, status) = change_progress_total change (h.multis m) s e in
      elim (Option-cases (report_progress f64 f32 a n h)) [
        | inl r ↦ absurd (ground (arith, made, r))
        | inr (g, r) ↦ elim (Option-cases (g.multis (g.singles a).parent).status) [
          | inl q ↦ absurd (ground (arith, e, made, status, r, q))
          | inr (u, q) ↦ (g, r, (u, q))
        ]
      ]

  report_all_total :
      (a : ℕ) (ns : List ℤ) (h : Heap)
      → Started a h
      → (g : Heap) × (report_all f64 f32 a ns h ≡ some g) × Started a g
  unfolding report_all
  report_all_total a [] h started = (h, refl, started)
  report_all_total a (n ∷ ns) h started =
      let (h', e, still) = report_progress_total a n h started in
      let (g, e', last) = report_all_total a ns h' still in (g, rw (report_all, e) e', last)

  upload_finished_total :
      (a : ℕ) (now : Time) (h : Heap)
      → Started a h
      → (g : Heap) × (upload_finished f64 f32 a now h ≡ some g)
  unfolding without_child
  upload_finished_total a now h (s, e) =
      let su = h.singles a in
      let h' = remove_child su.parent su.correlation_id h in
      let left = multi-remove_child su.parent su.correlation_id h in
      let (o, finishes) =
        finish_status_total f64 f32 now su (h'.multis su.parent) s
          (ap (λ u. u.status) left.0 ∙ e) in
      (complete su.parent o h', upload_finished-complete f64 f32 a now h finishes)

  succeed_total :
      (a : ℕ) (now : Time) (h : Heap)
      → Started a h
      → (g : Heap) × (succeed f64 f32 a now h ≡ some g)
  unfolding succeed
  succeed_total a now h started =
      let (g, e) = upload_finished_total a now h started in
      elim (Option-cases (succeed f64 f32 a now h)) [
        | inl r ↦ absurd (ground (arith, e, r))
        | inr r ↦ r
      ]

  set_file-Started :
      (a : ℕ) (b : Bool) (h : Heap) → Started a h → Started a (set_file f64 f32 a b h)
  unfolding update
  set_file-Started a b h (s, e) = (s, ground (arith, e))

  -- Whatever the file, the uploader and its reports do, the goroutine of a file whose upload has a
  -- status comes to its end without a fault.
  pub upload_task_total :
      (a : ℕ) (now : Time) (attempt : Attempt f64 f32) (h : Heap) (s : UploadStatus)
      → (h.multis (h.singles a).parent).status ≡ some s
      → (g : Heap) × (upload_task f64 f32 a now attempt h ≡ some g)
  unfolding upload_task
  upload_task_total a now attempt h s e = elim (Result-cases attempt.opened) [
    | inr (m, p) ↦ (upload_failed a now m h, rw (upload_task, p))
    | inl (d, p) ↦
        let (g, q, started) =
          report_all_total a attempt.reports (set_file f64 f32 a true h)
            (set_file-Started a true h (s, e)) in
        elim (Result-cases attempt.outcome) [
          | inr (m, r) ↦
              (set_file f64 f32 a false (upload_failed a now m g), rw (upload_task, p, q, r))
          | inl (d', r) ↦
              let (k, t) = succeed_total a now g started in
              (set_file f64 f32 a false k, rw (upload_task, p, q, r, t))
        ]
  ]
