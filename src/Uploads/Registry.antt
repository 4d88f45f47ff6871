-- ===== src/Uploads/Registry.antt =====
-- client/uploads.go: the methods of `Uploads`, `AddMulti`, `AddSingle`, `Get`, `Remove` and
-- `hasPendingUploads`.
pub mod Removal
pub mod Adding
mod Tests
use file_upload.Prelude.{
  ℕ, suc, ◌+◌, Bool, true, false, ◌||◌, not, if◌then◌else◌, Option, none, some, List, [], ◌∷◌, ◌++◌,
  length, eqb,
}
use file_upload.Prelude.Text.{Text, bytes}
use file_upload.Prelude.Decimal.{decimal}
use file_upload.Prelude.Dict.{Dict, lookup, insert, delete, keys}
use file_upload.Prelude.Int.{ℤ, pos, ◌+ℤ◌, ℤ_beq, wrap}
use file_upload.Uploads.Status.{UploadStatus, is_uploading}
use file_upload.Uploads.Multi.{SingleUpload, MultiUpload, not_supported}
use file_upload.Uploads.Multi.Actions.{with_child}
use file_upload.Uploads.Heap.{Upload, single, multi, Heap, update, set_multi, set_single}

-- `NewUploads`: a registry with no entry; the objects stay as they are.
unfoldable pub new_uploads : Heap → Heap
new_uploads h = record h { uploads = [] }

-- `Uploads.Get`; `none` is nil.
unfoldable pub get : Text → Heap → Option Upload
get id h = lookup id h.uploads

pub delete_all : List Text → Dict Upload → Dict Upload
delete_all [] d = d
delete_all (k ∷ ks) d = delete_all ks (delete k d)

-- `Uploads.Remove`, with `getChildrenIDs`.
unfoldable pub remove : Text → Heap → Heap
unfolding delete_all
remove id h = elim (lookup id h.uploads) [
  | none ↦ h
  | some (single a) ↦ record h { uploads = delete id h.uploads }
  | some (multi m) ↦ record h {
    uploads = delete_all (keys (h.multis m).children) (delete id h.uploads);
  }
]

unfoldable pub is_pending_status : Option UploadStatus → Bool
is_pending_status none = false
is_pending_status (some s) = is_uploading s.state

unfoldable pub is_pending_upload : Heap → Upload → Bool
unfolding is_pending_status
is_pending_upload h (single a) = false
is_pending_upload h (multi m) = is_pending_status (h.multis m).status

unfoldable pub pending_among : Heap → Dict Upload → Bool
unfolding is_pending_upload
pending_among h [] = false
pending_among h ((k, u) ∷ us) = is_pending_upload h u || pending_among h us

unfoldable pub has_pending_uploads : Heap → Bool
unfolding pending_among
has_pending_uploads h = pending_among h h.uploads

-- fmt.Sprintf("%s#%d", correlationID, i+1)
unfoldable pub child_id : Text → ℕ → Text
child_id correlation_id i = correlation_id ++ (bytes "#" ++ decimal (i + 1))

-- `AddSingle`. The new upload gets the address `h.next`.
unfoldable pub add_single : ℕ → Text → Text → Heap → Heap
unfolding with_child
add_single parent id path h =
    let a = h.next in
    let u : SingleUpload = record {
      correlation_id = id;
      file_path = path;
      parent = parent;
      started = false;
      file = none;
      bytes_transferred = pos 0;
      total_size_bytes = pos 0;
    } in
    record h {
      uploads = insert id (single a) h.uploads;
      multis = update h.multis parent (with_child id a (h.multis parent));
      singles = update h.singles a u;
      next = suc a;
    }

unfoldable pub add_size : ℕ → Text → ℤ → Heap → Heap
add_size m id size h =
    let u = h.multis m in
    let h' = set_multi m (record u { total_size_bytes = wrap (u.total_size_bytes +ℤ size) }) h in
    elim (lookup id u.children) [
      | none ↦ h'
      | some a ↦ set_single a (record (h.singles a) { total_size_bytes = size }) h'
    ]

-- The size of the file at a path, or its absence: os.Stat.
module _ (stat : Text → Option ℤ) where
  -- The body of the loop in `AddMulti`, after `AddSingle`.
  unfoldable pub measure : ℕ → Text → Text → Heap → Heap
  unfolding add_size
  measure m id path h =
      if ℤ_beq (h.multis m).total_size_bytes not_supported then h else (elim (stat path) [
        | none ↦ set_multi m (record (h.multis m) { total_size_bytes = not_supported }) h
        | some size ↦ add_size m id size h
      ])

  unfoldable pub add_paths : ℕ → Text → ℕ → List Text → Heap → Heap × List Text
  add_paths m correlation_id i [] h = (h, [])
  add_paths m correlation_id i (path ∷ paths) h =
      let id = child_id correlation_id i in
      let (h', ids) =
        add_paths m correlation_id (suc i) paths (measure m id path (add_single m id path h)) in
      (h', id ∷ ids)

  -- `AddMulti`: the new upload gets the address `h.next`.
  unfoldable pub add_multi : Text → List Text → Bool → Bool → Text → Heap → Heap × List Text
  add_multi correlation_id paths delete_uploaded use_checksum server_cert h =
      let m = h.next in
      let u : MultiUpload = record {
        correlation_id = correlation_id;
        children = [];
        total_count = length paths;
        delete_uploaded = delete_uploaded;
        use_checksum = use_checksum;
        server_cert = server_cert;
        status = none;
        total_bytes_transferred = pos 0;
        total_size_bytes = pos 0;
      } in
      let (h', ids) =
        add_paths m correlation_id 0 paths (set_multi m u (record h { next = suc m })) in
      (record h' { uploads = insert correlation_id (multi m) h'.uploads }, ids)
