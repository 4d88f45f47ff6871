-- ===== src/Uploads/Tests.antt =====
-- Each theorem on the methods of uploads at an upload of two files.
use file_upload.Uploads.Multi.Percent.{FloatLaws, IsPercent}
use file_upload.Uploads.Multi.Floats.{Float}
use file_upload.Uploads.Multi.Progress.{finish_status-IsPercent}
use file_upload.Prelude.{
  inr, ◌*◌, ◌≤◌, leb, if◌then◌else◌, map, ℕ, ◌≡◌, refl, true, false, Option, none, some, [], ◌∷◌,
  arith, ◌⊎◌,
}
use file_upload.Prelude.Text.{Text, bytes, text_beq}
use file_upload.Prelude.Dict.{Dict, keys, lookup, delete}
use file_upload.Prelude.Int.{pos, pos_part, ℤ_beq}
use file_upload.Prelude.Result.{Result, ok, err}
use file_upload.Uploads.Status.{State, UploadStatus, uploading, failed, success, canceled, finished}
use file_upload.Uploads.Multi.{
  Outcome, upload_text, finish_status, cancel_status, fail_status, upload_started,
}
use file_upload.Uploads.Multi.Actions.{run, act, start, cancel, fail}
use file_upload.Uploads.Multi.Finality.{run-Kept, Kept}
use file_upload.Uploads.Multi.Transitions.{act-moves}
use file_upload.Uploads.Heap.{Heap, multi}
use file_upload.Uploads.Registry.{get}
use file_upload.Uploads.Registry.Removal.{contains}
use file_upload.Uploads.Methods.{
  report_all, Attempt, upload_failed, cancel_multi, upload_finished, start_single, StartError,
}
use file_upload.Uploads.Methods.Ending.{AllClosed}
use file_upload.Uploads.Methods.Failing.{upload_failed_lem}
use file_upload.Uploads.Methods.Cancelling.{cancel_multi_lem, cancel_unstarted}
use file_upload.Uploads.Methods.Finishing.{upload_finished_last, upload_finished_more}
use file_upload.Uploaders.{OptionError}
use file_upload.Uploads.Methods.Accounting.{Counted, last_report, report_all-Counted}
use file_upload.Uploads.Examples.{
  file_at, whole, in_progress, upload_with, both, heap_with, running, fresh,
}

abbrev any_uploader : Dict Text → Text → Result OptionError ℕ
any_uploader options cert = ok 0

abbrev ended : UploadStatus
ended = record in_progress { state = failed; end_time = 9; message = bytes "lost" }

run-Kept_example :
    Kept ended (record { upload = upload_with (some ended) []; events = []; done = true })
unfolding run act cancel_status fail_status upload_started finished
run-Kept_example =
    run-Kept whole whole
      (start 9 [] ∷ fail 11 (bytes "again") ∷ cancel 12 (bytes "user") (bytes "stop") ∷ [])
      (upload_with (some ended) []) ended (upload_with (some ended) []) [] refl refl refl

abbrev lost : Outcome
lost = record { upload = upload_with (some ended) both; events = ended ∷ []; done = false }

act-moves_example :
    (true ≡ true) × ((◌≡◌ {A = Option State} (some failed) (some uploading)) ⊎ (true ≡ true))
unfolding act fail_status finished
act-moves_example =
    act-moves whole whole (fail 9 (bytes "lost")) (upload_with (some in_progress) both) {o = lost}
      refl refl

upload_failed_lem_example :
    let g = upload_failed 1 9 (bytes "lost") running in
    ((g.multis 0).status ≡ some ended)
    × (g.events ≡ ended ∷ [])
    × (get (bytes "u") g ≡ none)
    × ((k : Text) → contains (keys (delete (bytes "u#1") both)) k ≡ true → get k g ≡ none)
    × AllClosed (delete (bytes "u#1") both) g
unfolding get lookup text_beq finished
upload_failed_lem_example =
    upload_failed_lem 1 9 (bytes "lost") running in_progress refl refl refl refl

cancel_multi_lem_example :
    let s' = record in_progress {
      state = canceled;
      status_code = bytes "user";
      message = bytes "stop";
      end_time = 9;
    } in
    let g = cancel_multi 0 9 (bytes "user") (bytes "stop") running in
    ((g.multis 0).status ≡ some s')
    × (g.events ≡ s' ∷ [])
    × (get (bytes "u") g ≡ none)
    × ((k : Text) → contains (keys both) k ≡ true → get k g ≡ none)
    × AllClosed both g
unfolding get lookup text_beq finished
cancel_multi_lem_example = cancel_multi_lem 0 9 (bytes "user") (bytes "stop") running refl refl

cancel_unstarted_example :
    (s : UploadStatus) × ((cancel_multi 0 9 (bytes "user") (bytes "stop") fresh).events ≡ s ∷ [])
    × (s.state ≡ canceled)
    × (s.correlation_id ≡ [])
unfolding get lookup text_beq
cancel_unstarted_example = cancel_unstarted 0 9 (bytes "user") (bytes "stop") fresh refl refl

upload_finished_last_example :
    let s' = record in_progress { progress = pos 100; state = success; end_time = 9 } in
    let h = heap_with (some in_progress) ((bytes "u#1", 1) ∷ []) true in
    (g : Heap) × (upload_finished whole whole 1 9 h ≡ some g)
    × ((g.multis 0).status ≡ some s')
    × (g.events ≡ s' ∷ [])
    × (get (bytes "u") g ≡ none)
unfolding get lookup text_beq finished delete
upload_finished_last_example =
    upload_finished_last whole whole 1 9 (heap_with (some in_progress) ((bytes "u#1", 1) ∷ []) true)
      in_progress refl refl refl refl refl

upload_finished_more_example :
    (g : Heap) × (t : UploadStatus) × (upload_finished whole whole 1 9 running ≡ some g)
    × ((g.multis 0).status ≡ some t)
    × (t.state ≡ uploading)
    × (g.events ≡ t ∷ [])
    × (get (bytes "u") g ≡ some (multi 0))
    × ((g.multis 0).children ≡ delete (bytes "u#1") both)
unfolding get lookup text_beq finished delete
upload_finished_more_example =
    upload_finished_more whole whole 1 9 running in_progress refl refl refl refl
      (λ e. omega (arith, e))

abbrev options : Dict Text
options = (bytes "info.shop", bytes "7") ∷ []

abbrev started_status : UploadStatus
started_status = record in_progress { info = (bytes "shop", bytes "7") ∷ [] }

-- The first file of `fresh` started.
abbrev one_started : Result StartError (ℕ × Heap) → Heap
one_started (ok (u, g)) = g
one_started (err e) = fresh

abbrev after : Heap
after = one_started (start_single any_uploader 1 5 options fresh)

abbrev half : Heap
half = heap_with (some in_progress) both false

abbrev half_after : Heap
half_after = one_started (start_single any_uploader 2 5 options half)

abbrev attempt : Attempt whole whole
attempt = record { opened = ok tt; reports = pos 1 ∷ pos 3 ∷ []; outcome = ok tt }

running-Counted : Counted 1 0 0 running
unfolding ℤ_beq
running-Counted = record {
  of_file = refl;
  of_upload = refl;
  file_size = refl;
  upload_size = refl;
  sizes_known = refl;
  has_status = (in_progress, refl);
}

report_all-Counted_example :
    (g : Heap) × (report_all whole whole 1 (map pos (2 ∷ 1 ∷ 3 ∷ [])) running ≡ some g)
    × Counted 1 0 (last_report 0 (2 ∷ 1 ∷ 3 ∷ [])) g
report_all-Counted_example =
    report_all-Counted whole whole 1 0 0 (2 ∷ 1 ∷ 3 ∷ []) running (omega arith)
      (omega arith, (omega arith, (omega arith, tt))) running-Counted

-- Numbers in which a quotient is rounded down to 0 or 1.
abbrev coarse : Float
coarse = record {
  Number = ℕ;
  of_int = pos_part;
  mul = λ a b. a * b;
  div = λ a b. if leb b a then 1 else 0;
  truncate = pos;
}

coarse_laws : FloatLaws coarse
coarse_laws = record {
  at_most = λ a b. a ≤ b;
  of_int_mono = λ a b le. ground (arith, le);
  mul_mono = λ a b le. omega (arith, le);
  mul_none = refl;
  mul_one = refl;
  div_mono = λ n a b one le. ground (arith, le);
  div_none = λ n one. ground (arith, one);
  div_self = λ n one. ground arith;
  truncate_mono = λ a b zero le hundred. omega (arith, le);
  truncate_of_int = λ n le. refl;
}

-- The first file, of three bytes, of which none is counted, is done.
finish_status-IsPercent_example :
    (o : Outcome) × (t : UploadStatus) × (finish_status coarse coarse 9
        (file_at 1 true)
        (upload_with (some in_progress) both)
      ≡ some o)
    × (o.upload.status ≡ some t)
    × IsPercent t.progress
unfolding finished
finish_status-IsPercent_example =
    finish_status-IsPercent coarse coarse 9 (file_at 1 true) (upload_with (some in_progress) both)
      in_progress coarse_laws coarse_laws refl refl (omega arith)
      (inr (
        0,
        3,
        0,
        7,
        record {
          counted = refl;
          size = refl;
          all_counted = refl;
          total_size = refl;
          part = omega arith;
          fits = omega arith;
          bounded = omega arith;
        },
      ))

name_of_upload : upload_text (file_at 1 true) ≡ bytes "[correlationID: u#1, file: a]"
unfolding upload_text
name_of_upload = refl
