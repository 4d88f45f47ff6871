-- ===== src/Uploads/Consistency/Tests.antt =====
-- client/uploads.go: an upload of two files that is added, started, fails, is added again and removed.
use file_upload.Prelude.{ℕ, ◌≡◌, false, some, Option, List, [], ◌∷◌, arith}
use file_upload.Prelude.Text.{Text, bytes}
use file_upload.Prelude.Dict.{Dict, lookup}
use file_upload.Prelude.Int.{ℤ, pos}
use file_upload.Prelude.Result.{Result, ok, err}
use file_upload.Uploaders.{OptionError}
use file_upload.Uploads.Heap.{Heap}
use file_upload.Uploads.Registry.{get}
use file_upload.Uploads.Consistency.{IsRegistry}
use file_upload.Uploads.Consistency.Runs.{
  Method, add, start, upload, remove, call_all, call_all-IsRegistry,
}
use file_upload.Uploads.Examples.{whole, no_uploads}

abbrev any_uploader : Dict Text → Text → Result OptionError ℕ
any_uploader options cert = ok 0

abbrev size_of : Text → Option ℤ
size_of path = some (pos 3)

abbrev sequence : List (Method whole whole size_of)
sequence =
    add (bytes "u") (bytes "a" ∷ bytes "b" ∷ []) false false []
    ∷ start (bytes "u#1") 5 []
    ∷ upload 1 9 (record { opened = ok tt; reports = []; outcome = err (bytes "lost") })
    ∷ add (bytes "u") (bytes "a" ∷ []) false false []
    ∷ remove (bytes "u")
    ∷ []

no_uploads-IsRegistry : IsRegistry no_uploads
unfolding get lookup
no_uploads-IsRegistry = record {
  single_old = λ k a e. ground (arith, e);
  multi_old = λ k m e. ground (arith, e);
  single_named = λ k a e. ground (arith, e);
  multi_named = λ k m e. ground (arith, e);
  parent_old = λ k a e. ground (arith, e);
  started_old = λ a e. ground (arith, e);
  started_status = λ a e. ground (arith, e);
}

call_all-IsRegistry_example :
    (g : Heap) × (call_all whole whole size_of any_uploader sequence no_uploads ≡ some g)
    × IsRegistry g
call_all-IsRegistry_example =
    call_all-IsRegistry whole whole size_of any_uploader sequence no_uploads no_uploads-IsRegistry
