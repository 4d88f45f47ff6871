-- ===== src/Uploads/Methods/Finishing.antt =====
-- client/uploads.go: `uploadFinished`, for the last file and for any before it.
use file_upload.Prelude.{
  inl, inr, Option-cases, sym, ℕ, ◌≡◌, ◌≢◌, ap, ◌∙◌, ◌++◌, ◌∷◌, [], true, false, none, some, arith,
  length,
}
use file_upload.Prelude.Text.{text_beq_refl, Text}
use file_upload.Prelude.Dict.{delete}
use file_upload.Prelude.Int.{pos}
use file_upload.Uploads.Status.{Time, UploadStatus, success, finished}
use file_upload.Uploads.Multi.{notify, finish_status, Outcome, MultiUpload, SingleUpload}
use file_upload.Uploads.Multi.Finality.{status_or}
use file_upload.Uploads.Multi.Actions.{without_child}
use file_upload.Uploads.Multi.Floats.{Float}
use file_upload.Uploads.Heap.{single, multi, Heap, commit, update_self}
use file_upload.Uploads.Registry.{get, remove}
use file_upload.Uploads.Registry.Removal.{get-remove, removed_ids}
use file_upload.Uploads.Methods.{complete, remove_child, upload_finished}
use file_upload.Uploads.Methods.Ending.{get-remove_child, multi-remove_child, remove-frame}

get-remove_multi :
    (id : Text) (m : ℕ) (h : Heap) → get id h ≡ some (multi m) → get id (remove id h) ≡ none
unfolding removed_ids get
get-remove_multi id m h known = get-remove id id h ∙ rw (known, removed_ids, text_beq_refl id)

module _ (f64 f32 : Float) where
  finish_status_last :
      (now : Time) (su : SingleUpload) (u : MultiUpload) (s : UploadStatus)
      → u.status ≡ some s
      → finished s ≡ false
      → length u.children ≡ 0
      → finish_status f64 f32 now su u
        ≡ some (notify u (record s { progress = pos 100; state = success; end_time = now }) true)
  unfolding finish_status
  finish_status_last now su u s e f l = ground (arith, e, f, l)

  pub finish_status_total :
      (now : Time) (su : SingleUpload) (u : MultiUpload) (s : UploadStatus)
      → u.status ≡ some s
      → (o : Outcome) × (finish_status f64 f32 now su u ≡ some o)
  unfolding finish_status
  finish_status_total now su u s e = elim (Option-cases (finish_status f64 f32 now su u)) [
    | inl r ↦ absurd (ground (arith, e, r))
    | inr r ↦ r
  ]

  finish_status_more :
      (now : Time) (su : SingleUpload) (u : MultiUpload) (s : UploadStatus) {o : Outcome}
      → u.status ≡ some s
      → finished s ≡ false
      → length u.children ≢ 0
      → finish_status f64 f32 now su u ≡ some o
      → (o.done ≡ false)
        × (o.upload.status ≡ some (status_or o.upload.status s))
        × ((status_or o.upload.status s).state ≡ s.state)
        × (o.events ≡ status_or o.upload.status s ∷ [])
        × (o.upload.children ≡ u.children)
  unfolding finish_status
  finish_status_more now su u s e f l r = ground (arith, e, f, l, r)

  pub upload_finished-complete :
      (a : ℕ) (now : Time) (h : Heap) {o : Outcome}
      → let su = h.singles a in
        let h' = remove_child su.parent su.correlation_id h in
        finish_status f64 f32 now su (h'.multis su.parent) ≡ some o
        → upload_finished f64 f32 a now h ≡ some (complete su.parent o h')
  unfolding upload_finished
  upload_finished-complete a now h e = rw (e, upload_finished)

  -- When the last file of a registered upload in progress is done, `uploadFinished` does not fault,
  -- the upload is SUCCESS at 100 percent, the listener is told so once, and the registry forgets the
  -- upload.
  pub upload_finished_last :
      (a : ℕ) (now : Time) (h : Heap) (s : UploadStatus)
      → let su = h.singles a in
        let u = h.multis su.parent in
        let s' = record s { progress = pos 100; state = success; end_time = now } in
        u.status ≡ some s
        → finished s ≡ false
        → get u.correlation_id h ≡ some (multi su.parent)
        → get su.correlation_id h ≡ some (single a)
        → length (delete su.correlation_id u.children) ≡ 0
        → (g : Heap) × (upload_finished f64 f32 a now h ≡ some g)
          × ((g.multis su.parent).status ≡ some s')
          × (g.events ≡ h.events ++ s' ∷ [])
          × (get u.correlation_id g ≡ none)
  unfolding get without_child complete
  upload_finished_last a now h s active unfinished known child last = (
    remove id c,
    upload_finished-complete a now h told_last
        ∙ ap (λ k. some (remove k c))
            (ap (λ v. v.correlation_id) (update_self h'.multis m o.upload)),
    ap (λ v. v.status) (ap (λ f. f m) (remove-frame id c).0 ∙ update_self h'.multis m o.upload),
    (remove-frame id c).2 ∙ ap (λ es. es ++ s' ∷ []) left.1,
    get-remove_multi id m c (
        get-remove_child m (h.singles a).correlation_id id a h child (λ e. cc (known, child, e))
        ∙ known),
  )
    where
      m : ℕ
      m = (h.singles a).parent

      u : MultiUpload
      u = h.multis m

      id : Text
      id = u.correlation_id

      s' : UploadStatus
      s' = record s { progress = pos 100; state = success; end_time = now }

      h' : Heap
      h' = remove_child m (h.singles a).correlation_id h

      left : (h'.multis m ≡ without_child (h.singles a).correlation_id u) × (h'.events ≡ h.events)
      left = multi-remove_child m (h.singles a).correlation_id h

      o : Outcome
      o = notify (without_child (h.singles a).correlation_id u) s' true

      c : Heap
      c = commit m o h'

      told_last : finish_status f64 f32 now (h.singles a) (h'.multis m) ≡ some o
      told_last =
          ap (finish_status f64 f32 now (h.singles a)) left.0
          ∙ finish_status_last now (h.singles a) (without_child (h.singles a).correlation_id u) s
              active unfinished last

  -- When a file of a registered upload in progress is done that is not its last, `uploadFinished`
  -- does not fault, the upload keeps its state, loses the file and stays registered, and the listener
  -- is told the status once.
  pub upload_finished_more :
      (a : ℕ) (now : Time) (h : Heap) (s : UploadStatus)
      → let su = h.singles a in
        let u = h.multis su.parent in
        u.status ≡ some s
        → finished s ≡ false
        → get u.correlation_id h ≡ some (multi su.parent)
        → get su.correlation_id h ≡ some (single a)
        → length (delete su.correlation_id u.children) ≢ 0
        → (g : Heap) × (t : UploadStatus) × (upload_finished f64 f32 a now h ≡ some g)
          × ((g.multis su.parent).status ≡ some t)
          × (t.state ≡ s.state)
          × (g.events ≡ h.events ++ t ∷ [])
          × (get u.correlation_id g ≡ some (multi su.parent))
          × ((g.multis su.parent).children ≡ delete su.correlation_id u.children)
  unfolding get without_child complete
  upload_finished_more a now h s active unfinished known child more =
      let (o, finishes) =
        finish_status_total now (h.singles a) (h'.multis m) s
          (ap (λ v. v.status) left.0 ∙ active) in
      let f =
        finish_status_more now (h.singles a) (h'.multis m) s (ap (λ v. v.status) left.0 ∙ active)
          unfinished (λ e. more (sym (ap (λ v. length v.children) left.0) ∙ e)) finishes in
      (
        commit m o h',
        status_or o.upload.status s,
        upload_finished-complete a now h finishes ∙ rw f.0,
        ap (λ v. v.status) (update_self h'.multis m o.upload) ∙ f.1,
        f.2,
        rw f.3 (ap (λ es. es ++ status_or o.upload.status s ∷ []) left.1),
        get-remove_child m (h.singles a).correlation_id u.correlation_id a h child
              (λ e. cc (known, child, e))
            ∙ known,
        ap (λ v. v.children) (update_self h'.multis m o.upload) ∙ f.4 ∙ ap (λ v. v.children) left.0,
      )
    where
      m : ℕ
      m = (h.singles a).parent

      u : MultiUpload
      u = h.multis m

      h' : Heap
      h' = remove_child m (h.singles a).correlation_id h

      left : (h'.multis m ≡ without_child (h.singles a).correlation_id u) × (h'.events ≡ h.events)
      left = multi-remove_child m (h.singles a).correlation_id h
