-- ===== src/Uploads/Threads/Race.antt =====
-- client/uploads.go: what may come between `removeChild` and the section of `uploadFailed` that makes
-- the upload FAILED.
use file_upload.Prelude.{
  Option, none, Option-cases, inl, inr, ℕ, ◌++◌, ◌≡◌, ◌≢◌, ap, sym, refl, arith, true, false, some,
  List, [], ◌∷◌, ◌∙◌,
}
use file_upload.Prelude.Text.{Text}
use file_upload.Prelude.Dict.{Dict, delete}
use file_upload.Prelude.Int.{pos}
use file_upload.Prelude.Result.{Result}
use file_upload.Uploaders.{OptionError}
use file_upload.Uploads.Status.{UploadStatus, finished, Time, success}
use file_upload.Uploads.Multi.{MultiUpload, Outcome, SingleUpload, notify, finish_status}
use file_upload.Uploads.Multi.Actions.{without_child}
use file_upload.Uploads.Multi.Floats.{Float}
use file_upload.Uploads.Heap.{update_ne, Heap, update, update_self, commit, set_multi}
use file_upload.Uploads.Registry.{remove}
use file_upload.Uploads.Methods.Ending.{remove-frame}
use file_upload.Uploads.Threads.{
  Instruction, upload_failed, upload_finished, fail, finish, leave, exec, remove_child, complete,
  or_fault, Machine, run, resume, go_on,
}
use file_upload.Uploads.Threads.Refine.{run-SameEnd}

module _ {ℓ} {U : Type ℓ} (f64 f32 : Float)
    (uploader : Dict Text → Text → Result OptionError U) where
  -- The machine after a step of the goroutine `i`.
  abbrev after :
      ℕ → List (Instruction f64 f32) → Heap → Machine f64 f32 uploader → Machine f64 f32 uploader
  after i xs g s = record { heap = g; rest = update s.rest i xs }

  -- Where the run did not fault, the upload is SUCCESS.
  abbrev pub IsSuccessIn : ℕ → Option (Machine f64 f32 uploader) → Type 0
  IsSuccessIn m none = Unit
  IsSuccessIn m (some l) =
      (t : UploadStatus) × ((l.heap.multis m).status ≡ some t) × (t.state ≡ success)

  run_step :
      (i : ℕ) (x : Instruction f64 f32) (xs more : List (Instruction f64 f32)) (turns : List ℕ)
      (s : Machine f64 f32 uploader) (g : Heap)
      → s.rest i ≡ x ∷ xs
      → exec f64 f32 uploader x s.heap ≡ some (g, more)
      → run f64 f32 uploader (i ∷ turns) s ≡ run f64 f32 uploader turns (after i (more ++ xs) g s)
  unfolding run resume go_on
  run_step i x xs more turns s g here made = rw (here, run, made, resume, go_on) refl

  finish_last :
      (now : Time) (su : SingleUpload) (u : MultiUpload) (s : UploadStatus)
      → u.status ≡ some s
      → finished s ≡ false
      → u.children ≡ []
      → finish_status f64 f32 now su u
        ≡ some (notify u (record s { progress = pos 100; state = success; end_time = now }) true)
  unfolding finish_status
  finish_last now su u s e f c = ground (arith, e, f, c)

  exec_finish :
      (b : ℕ) (later : Time) (o : Outcome) (h : Heap)
      → finish_status f64 f32 later (h.singles b) (h.multis (h.singles b).parent) ≡ some o
      → o.done ≡ true
      → exec f64 f32 uploader (finish b later) h
        ≡ some (commit (h.singles b).parent o h, leave o.upload.correlation_id ∷ [])
  unfolding exec or_fault complete
  exec_finish b later o h made over = rw (made, or_fault, over) refl

  -- The goroutine `i` is about to fail the file at `a`, the goroutine `j` is done with that at `b`, and
  -- these are the only files that their upload in progress has left.
  pub record IsLastPair (s : Machine f64 f32 uploader) (i j a b : ℕ) (now later : Time) (e : Text)
      (xs ys : List (Instruction f64 f32)) (st : UploadStatus) : Type 0 where
    pub apart : j ≢ i
    pub fails : s.rest i ≡ upload_failed a now e ∷ xs
    pub is_done : s.rest j ≡ upload_finished b later ∷ ys
    pub same_upload : (s.heap.singles b).parent ≡ (s.heap.singles a).parent
    pub last :
        delete (s.heap.singles b).correlation_id (
          delete
            (s.heap.singles a).correlation_id
            (s.heap.multis (s.heap.singles a).parent).children)
        ≡ []
    pub active : (s.heap.multis (s.heap.singles a).parent).status ≡ some st
    pub unfinished : finished st ≡ false

  module _ (s : Machine f64 f32 uploader) (i j a b : ℕ) (now later : Time) (e : Text)
      (xs ys : List (Instruction f64 f32)) (st : UploadStatus)
      (p : IsLastPair s i j a b now later e xs ys st) where
    m : ℕ
    m = (s.heap.singles a).parent

    n : ℕ
    n = (s.heap.singles b).parent

    -- The objects after each of the first three steps.
    first : Heap
    first = set_multi m (without_child (s.heap.singles a).correlation_id (s.heap.multis m)) s.heap

    second : Heap
    second = set_multi n (without_child (s.heap.singles b).correlation_id (first.multis n)) first

    third : Heap
    third = remove (s.heap.singles b).correlation_id second

    upload_first :
        first.multis n ≡ without_child (s.heap.singles a).correlation_id (s.heap.multis m)
    unfolding first n m
    upload_first = rw (p.same_upload) (update_self s.heap.multis (s.heap.singles a).parent _)

    upload_third :
        third.multis n
        ≡ without_child
            (s.heap.singles b).correlation_id
            (without_child (s.heap.singles a).correlation_id (s.heap.multis m))
    unfolding third second
    upload_third =
        ap (λ f. f n) (remove-frame (s.heap.singles b).correlation_id second).0
        ∙ update_self first.multis n _
        ∙ ap (without_child (s.heap.singles b).correlation_id) upload_first

    single_third : third.singles b ≡ s.heap.singles b
    unfolding third second first
    single_third = ap (λ f. f b) (remove-frame (s.heap.singles b).correlation_id second).1

    parent_third : (third.singles b).parent ≡ m
    unfolding m
    parent_third = ap (λ u. u.parent) single_third ∙ p.same_upload

    -- What the last file makes of the upload, and what the listener is told.
    success_at : UploadStatus
    success_at = record st { progress = pos 100; state = success; end_time = later }

    completed : Outcome
    completed = notify (third.multis (third.singles b).parent) success_at true

    finishes :
        finish_status f64 f32 later (third.singles b) (third.multis (third.singles b).parent)
        ≡ some completed
    unfolding completed success_at without_child m n
    finishes =
        let same : third.multis (third.singles b).parent ≡ third.multis n =
          ap (λ u. third.multis u.parent) single_third in
        finish_last later (third.singles b) (third.multis (third.singles b).parent) st
          (ap (λ u. u.status) (same ∙ upload_third) ∙ p.active) p.unfinished
          (ap (λ u. u.children) (same ∙ upload_third) ∙ p.last)

    -- The machine after each step.
    one : Machine f64 f32 uploader
    one = after i (leave (s.heap.singles a).correlation_id ∷ fail m now e ∷ xs) first s

    two : Machine f64 f32 uploader
    two = after j (leave (s.heap.singles b).correlation_id ∷ finish b later ∷ ys) second one

    three : Machine f64 f32 uploader
    three = after j (finish b later ∷ ys) third two

    four : Machine f64 f32 uploader
    four =
        after j (leave completed.upload.correlation_id ∷ ys)
          (commit (third.singles b).parent completed third) three

    run-four : run f64 f32 uploader (i ∷ j ∷ j ∷ j ∷ []) s ≡ some four
    unfolding run one two three four first second third m n exec remove_child update completed
    run-four =
        run_step i (upload_failed a now e) xs
          (leave (s.heap.singles a).correlation_id ∷ fail m now e ∷ []) (j ∷ j ∷ j ∷ []) s first
          p.fails refl
        ∙ run_step j (upload_finished b later) ys
            (leave (s.heap.singles b).correlation_id ∷ finish b later ∷ []) (j ∷ j ∷ []) one second
            (update_ne s.rest i j _ p.apart ∙ p.is_done) refl
        ∙ run_step j (leave (s.heap.singles b).correlation_id) (finish b later ∷ ys) [] (j ∷ []) two
            third (update_self one.rest j _) refl
        ∙ run_step j (finish b later) ys (leave completed.upload.correlation_id ∷ []) [] three
            (commit (third.singles b).parent completed third) (update_self two.rest j _)
            (exec_finish b later completed third finishes refl)

    status_four : (four.heap.multis m).status ≡ some success_at
    unfolding four completed
    status_four =
        ap (λ u. u.status)
          (ap (λ k. update third.multis (third.singles b).parent completed.upload k)
              (sym parent_third)
            ∙ update_self third.multis (third.singles b).parent completed.upload)

    events_four : four.heap.events ≡ s.heap.events ++ (success_at ∷ [])
    unfolding four completed third second first
    events_four =
        ap (λ es. es ++ (success_at ∷ [])) (remove-frame (s.heap.singles b).correlation_id second).2

    rest_four : four.rest i ≡ leave (s.heap.singles a).correlation_id ∷ fail m now e ∷ xs
    unfolding four three two one
    rest_four =
        let apart : i ≢ j = λ q. p.apart (sym q) in
        update_ne three.rest j i _ apart
        ∙ update_ne two.rest j i _ apart
        ∙ update_ne one.rest j i _ apart
        ∙ update_self s.rest i _

    success_stays : (turns : List ℕ) → IsSuccessIn m (run f64 f32 uploader turns four)
    unfolding success_at finished
    success_stays turns = elim (Option-cases (run f64 f32 uploader turns four)) [
      | inl q ↦ rw q tt
      | inr (l, q) ↦
          let (t, status, same) =
            run-SameEnd f64 f32 uploader m turns four l success_at q status_four refl in
          rw q (t, status, same.state)
    ]

    -- A file of an upload in progress fails, the only other file that the upload has left is done, and
    -- the goroutine of the second takes three steps after the first has only taken the file from the
    -- upload: the upload is then SUCCESS at 100 percent, the listener is told so, and no more, the first
    -- goroutine has still to make it FAILED, and whatever steps follow, it stays SUCCESS.
    pub failure_hidden :
        let m = (s.heap.singles a).parent in
        let done : UploadStatus = record st {
          progress = pos 100;
          state = success;
          end_time = later;
        } in
        (k : Machine f64 f32 uploader) × (run f64 f32 uploader (i ∷ j ∷ j ∷ j ∷ []) s ≡ some k)
        × ((k.heap.multis m).status ≡ some done)
        × (k.heap.events ≡ s.heap.events ++ (done ∷ []))
        × (k.rest i ≡ leave (s.heap.singles a).correlation_id ∷ fail m now e ∷ xs)
        × ((turns : List ℕ) → IsSuccessIn m (run f64 f32 uploader turns k))
    unfolding success_at m
    failure_hidden = (four, run-four, status_four, events_four, rest_four, success_stays)
