-- ===== src/Uploaders/Choice.antt =====
-- client/uploads.go: `getUploader` chooses the uploader by the option 'storage.provider'.
use file_upload.Prelude.{Bool, if◌then◌else◌, Option, none, some, ◌==◌}
use file_upload.Prelude.Text.{Text, bytes, text_beq, text_eq}
use file_upload.Prelude.Dict.{Dict, lookup}
use file_upload.Prelude.Result.{Result, ok, err, ◌>>=◌}
use file_upload.Uploaders.{OptionError, unknown_provider}
use file_upload.Uploaders.Http.{HttpUploader, new_http_uploader}
use file_upload.Uploaders.Aws.{AwsUploader, AwsCredentials, new_aws_uploader}
use file_upload.Uploaders.Azure.{AzureUploader, new_azure_uploader}

-- A value of the interface `Uploader`.
pub data Uploader {ℓ} (Manager : Type ℓ) : Type ℓ where
  http : HttpUploader → Uploader Manager
  aws : AwsUploader Manager → Uploader Manager
  azure : AzureUploader → Uploader Manager

abbrev pub storage_provider : Text
storage_provider = bytes "storage.provider"

abbrev pub provider_http : Text
provider_http = bytes "generic"

abbrev pub provider_aws : Text
provider_aws = bytes "aws"

abbrev pub provider_azure : Text
provider_azure = bytes "azure"

-- `lower` is strings.ToLower.
module _ {ℓ} {Manager : Type ℓ} (lower : Text → Text)
    (load_config : AwsCredentials → Bool → Result Text Manager) (debug : Bool) where
  -- `getUploader` with the option's value, if it is there.
  unfoldable pub choose_uploader :
      Option Text → Dict Text → Text → Result OptionError (Uploader Manager)
  unfolding text_beq new_http_uploader new_aws_uploader new_azure_uploader
  choose_uploader none options server_cert = do
    u ← new_http_uploader options server_cert
    ok (http u)
  choose_uploader (some s) options server_cert =
      let storage = lower s in
      if storage == provider_http
      then (do u ← new_http_uploader options server_cert; ok (http u))
      else if storage == provider_aws
      then (do u ← new_aws_uploader load_config debug options; ok (aws u))
      else if storage == provider_azure
      then (do u ← new_azure_uploader options; ok (azure u))
      else err (unknown_provider storage)

  -- `getUploader`
  unfoldable pub get_uploader : Dict Text → Text → Result OptionError (Uploader Manager)
  unfolding choose_uploader lookup
  get_uploader options server_cert =
      choose_uploader (lookup storage_provider options) options server_cert
