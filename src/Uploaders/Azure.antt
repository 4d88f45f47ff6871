-- ===== src/Uploaders/Azure.antt =====
-- uploaders/azure.go: the options of an upload to Azure Blob storage, and `UploadFile`.
use file_upload.Prelude.{ℕ, Bool, not, if◌then◌else◌, [], ◌++◌, nat_eq, ◌==◌}
use file_upload.Prelude.Text.{Text, bytes, text_beq, text_eq}
use file_upload.Prelude.Dict.{Dict}
use file_upload.Prelude.Result.{Result, ok, err, ◌>>=◌, ◌>>◌, guard}
use file_upload.Uploaders.{OptionError, missing_parameter, at}

abbrev pub azure_endpoint : Text
azure_endpoint = bytes "azure.storage.endpoint"

abbrev pub azure_sas : Text
azure_sas = bytes "azure.shared.access.signature"

abbrev pub azure_container_name : Text
azure_container_name = bytes "azure.blob.container"

pub record AzureUploader : Type 0 where
  pub endpoint : Text
  pub sas : Text
  pub container : Text

-- `NewAzureUploader`
unfoldable pub new_azure_uploader : Dict Text → Result OptionError AzureUploader
unfolding at text_beq
new_azure_uploader options = do
  let uploader : AzureUploader = record {
    endpoint = at options azure_endpoint;
    sas = at options azure_sas;
    container = at options azure_container_name;
  }
  guard (not (uploader.endpoint == [])) (missing_parameter azure_endpoint)
  guard (not (uploader.sas == [])) (missing_parameter azure_sas)
  guard (not (uploader.container == [])) (missing_parameter azure_container_name)
  ok uploader

pub data UploadError : Type 0 where
  failed_call : Text → UploadError
  bad_status : ℕ → UploadError

-- The URL of the blob; `base` is filepath.Base of the file's name.
unfoldable pub blob_url : AzureUploader → Text → Text
blob_url u base = u.endpoint ++ (u.container ++ (bytes "/" ++ (base ++ (bytes "?" ++ u.sas))))

abbrev lift {ℓ} : {A : Type ℓ} → Result Text A → Result UploadError A
lift (ok a) = ok a
lift (err e) = err (failed_call e)

-- `UploadFile`: `put` is the Azure library's upload to a URL with the given MD5, which answers with
-- a status code; `md5` is the file's checksum in binary.
unfoldable pub upload_file :
    (Text → Result Text (Unit {0}))
    → (Text → Text → Result Text ℕ)
    → AzureUploader
    → Text
    → Result Text Text
    → Bool
    → Result UploadError (Unit {0})
unfolding blob_url
upload_file new_client put u base md5 use_checksum = do
  let url = blob_url u base
  lift (new_client url)
  sum ← lift (if use_checksum then md5 else ok [])
  code ← lift (put url sum)
  if code == 201 then ok tt else err (bad_status code)
