-- ===== src/Uploads/Heap.antt =====
-- The objects of client/uploads.go that goroutines share by pointers, and the registry `Uploads`.
use file_upload.Prelude.{ℕ, ◌≡◌, ◌≢◌, nat_eq, eqb, if◌then◌else◌, List, ◌++◌, arith}
use file_upload.Prelude.Text.{Text}
use file_upload.Prelude.Dict.{Dict}
use file_upload.Uploads.Status.{UploadStatus}
use file_upload.Uploads.Multi.{SingleUpload, MultiUpload, Outcome}

-- A value of the interface `Upload`: the address of an upload of one of the two types.
pub data Upload : Type 0 where
  single : ℕ → Upload
  multi : ℕ → Upload

-- `uploads` is the map of `Uploads`; `next` is the first address not in use; `events` are the calls
-- of `uploadStatusUpdated` so far, oldest first, and `deleted` the paths given to `os.Remove`.
pub record Heap : Type 0 where
  pub uploads : Dict Upload
  pub multis : ℕ → MultiUpload
  pub singles : ℕ → SingleUpload
  pub next : ℕ
  pub events : List UploadStatus
  pub deleted : List Text

module _ {ℓ} {A : Type ℓ} where
  unfoldable pub update : (ℕ → A) → ℕ → A → ℕ → A
  update f a v b = if eqb b a then v else f b

  pub update_self : (f : ℕ → A) (a : ℕ) (v : A) → update f a v a ≡ v
  unfolding update
  update_self f a v = ground arith

  pub update_ne : (f : ℕ → A) (a b : ℕ) (v : A) → b ≢ a → update f a v b ≡ f b
  unfolding update
  update_ne f a b v h = ground arith

abbrev pub set_multi : ℕ → MultiUpload → Heap → Heap
set_multi m u h = record h { multis = update h.multis m u }

abbrev pub set_single : ℕ → SingleUpload → Heap → Heap
set_single a su h = record h { singles = update h.singles a su }

-- The upload at `m` after a step under its mutex, and the listener's calls.
abbrev pub commit : ℕ → Outcome → Heap → Heap
commit m o h = record h { multis = update h.multis m o.upload; events = h.events ++ o.events }
