-- ===== src/FileUpload/Life.antt =====
-- client/fileupload.go: `NewFileUpload`, `Connect` and `Disconnect`.
use file_upload.Prelude.{ℕ, Bool, Option}
use file_upload.Prelude.Result.{Result, ok, ◌>>=◌}
use file_upload.Uploadable.Config.{Failure}
use file_upload.Prelude.Text.{Text}
use file_upload.Mode.{AccessMode}
use file_upload.Uploads.Heap.{Heap}
use file_upload.Edge.{EdgeConfiguration}
use file_upload.Uploadable.{UploadableConfig, Executor}
use file_upload.Uploadable.Connection as Connection
use file_upload.Uploadable.Connection.{Connection, new_connection}

pub record FileUpload {ℓ} (U : Type ℓ) : Type ℓ where
  pub files_glob : Text
  pub mode : AccessMode
  pub uploadable : Connection U

module _ {ℓ} {U : Type ℓ} where
  -- `NewFileUpload`, at the Unix time `seconds`, on the new registry in `heap`.
  unfoldable pub new_file_upload : Text → AccessMode → UploadableConfig → ℕ → Heap → FileUpload U
  unfolding new_connection
  new_file_upload files_glob mode cfg seconds heap = record {
    files_glob = files_glob;
    mode = mode;
    uploadable = new_connection cfg seconds heap;
  }

  -- `Connect`
  unfoldable pub connect : Option Text → EdgeConfiguration → FileUpload U → FileUpload U
  unfolding Connection.connect
  connect new_client edge fu = record fu {
    uploadable = Connection.connect new_client edge fu.uploadable;
  }

  -- `Disconnect`
  unfoldable pub disconnect :
      (Executor → Bool)
      → (ℕ → Heap → Heap)
      → (ℕ → ℕ)
      → ℕ
      → FileUpload U
      → Result Failure (FileUpload U)
  unfolding Connection.disconnect
  disconnect stops others delay now fu = do
    c ← Connection.disconnect stops others delay now fu.uploadable
    ok (record fu { uploadable = c })
