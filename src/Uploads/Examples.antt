-- ===== src/Uploads/Examples.antt =====
-- An upload of two files, for the tests.
use file_upload.Prelude.{ℕ, Bool, true, false, Option, none, some, [], ◌∷◌, if◌then◌else◌, eqb}
use file_upload.Prelude.Text.{bytes}
use file_upload.Prelude.Dict.{Dict}
use file_upload.Prelude.Int.{ℤ, pos}
use file_upload.Uploads.Status.{UploadStatus, zero_status, uploading}
use file_upload.Uploads.Multi.{MultiUpload, SingleUpload}
use file_upload.Uploads.Multi.Floats.{Float}
use file_upload.Uploads.Heap.{Heap, single, multi}

-- Whole numbers in place of floating point.
abbrev pub whole : Float
whole = record { Number = ℤ; of_int = λ n. n; mul = λ a b. a; div = λ a b. a; truncate = λ a. a }

abbrev pub in_progress : UploadStatus
in_progress = record zero_status { correlation_id = bytes "u"; state = uploading; start_time = 5 }

abbrev pub upload_with : Option UploadStatus → Dict ℕ → MultiUpload
upload_with status children = record {
  correlation_id = bytes "u";
  children = children;
  total_count = 2;
  delete_uploaded = true;
  use_checksum = false;
  server_cert = [];
  status = status;
  total_bytes_transferred = pos 0;
  total_size_bytes = pos 7;
}

abbrev pub file_at : ℕ → Bool → SingleUpload
file_at a started = record {
  correlation_id = if eqb a 1 then bytes "u#1" else bytes "u#2";
  file_path = bytes "a";
  parent = 0;
  started = started;
  file = if started then some true else none;
  bytes_transferred = pos 0;
  total_size_bytes = pos 3;
}

abbrev pub both : Dict ℕ
both = (bytes "u#1", 1) ∷ (bytes "u#2", 2) ∷ []

abbrev pub heap_with : Option UploadStatus → Dict ℕ → Bool → Heap
heap_with status children started = record {
  uploads = (bytes "u", multi 0) ∷ (bytes "u#1", single 1) ∷ (bytes "u#2", single 2) ∷ [];
  multis = λ m. upload_with status children;
  singles = λ a. file_at a started;
  next = 3;
  events = [];
  deleted = [];
}

abbrev pub running : Heap
running = heap_with (some in_progress) both true

abbrev pub fresh : Heap
fresh = heap_with none both false

abbrev pub no_uploads : Heap
no_uploads = record fresh { uploads = []; next = 0 }
