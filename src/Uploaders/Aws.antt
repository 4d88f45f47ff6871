-- ===== src/Uploaders/Aws.antt =====
-- uploaders/aws.go: the options of an upload to AWS S3, and `UploadFile`.
use file_upload.Prelude.{Bool, not, if◌then◌else◌, []}
use file_upload.Prelude.Text.{Text, bytes, is_empty, text_beq, text_eq}
use file_upload.Prelude.{◌==◌}
use file_upload.Prelude.Dict.{Dict}
use file_upload.Prelude.Result.{Result, ok, err, ◌>>=◌, ◌>>◌, guard}
use file_upload.Logger.{Log, log_debugf, log_warnf, log_infof}
use file_upload.Uploaders.{OptionError, missing_parameter, aws_config, at}

abbrev pub aws_region : Text
aws_region = bytes "aws.region"

abbrev pub aws_access_key_id : Text
aws_access_key_id = bytes "aws.access.key.id"

abbrev pub aws_secret_access_key : Text
aws_secret_access_key = bytes "aws.secret.access.key"

abbrev pub aws_session_token : Text
aws_session_token = bytes "aws.session.token"

abbrev pub aws_bucket : Text
aws_bucket = bytes "aws.s3.bucket"

abbrev pub aws_object_key : Text
aws_object_key = bytes "aws.object.key"

pub record AwsCredentials : Type 0 where
  pub key : Text
  pub secret : Text
  pub token : Text
  pub region : Text
  pub bucket : Text

-- `getAWSCredentials`
unfoldable pub get_aws_credentials : Dict Text → Result OptionError AwsCredentials
unfolding at text_beq
get_aws_credentials options = do
  let r : AwsCredentials = record {
    key = at options aws_access_key_id;
    secret = at options aws_secret_access_key;
    token = at options aws_session_token;
    region = at options aws_region;
    bucket = at options aws_bucket;
  }
  guard (not (r.bucket == [])) (missing_parameter aws_bucket)
  guard (not (r.key == [])) (missing_parameter aws_access_key_id)
  guard (not (r.region == [])) (missing_parameter aws_region)
  guard (not (r.secret == [])) (missing_parameter aws_secret_access_key)
  ok r

-- `AWSUploader`; `uploader` is the AWS library's manager, made from its configuration.
pub record AwsUploader {ℓ} (Manager : Type ℓ) : Type ℓ where
  pub bucket : Text
  pub object_key : Text
  pub uploader : Manager

-- What a `PutObjectInput` says beside the file.
pub record PutObject : Type 0 where
  pub bucket : Text
  pub key : Text
  pub content_md5 : Text

-- `load_config` is the AWS library's configuration and upload manager for the credentials; the flag
-- turns on the logging of requests, and comes from `logger.IsDebugEnabled`.
module _ {ℓ} {Manager : Type ℓ} where
  -- `NewAWSUploader`
  unfoldable pub new_aws_uploader :
      (AwsCredentials → Bool → Result Text Manager)
      → Bool
      → Dict Text
      → Result OptionError (AwsUploader Manager)
  unfolding get_aws_credentials at
  new_aws_uploader load_config logs options = do
    cred ← get_aws_credentials options
    manager ← (elim (load_config cred logs) [ ok m ↦ ok m | err e ↦ err (aws_config e) ])
    ok (record { bucket = cred.bucket; object_key = at options aws_object_key; uploader = manager })

  -- `UploadFile`: `put` is the manager's upload, `md5` the file's checksum in base64.
  unfoldable pub upload_file :
      (Manager → PutObject → Result Text (Unit {0}))
      → AwsUploader Manager
      → Text
      → Result Text Text
      → Bool
      → Result Text (Unit {0})
  upload_file put u file_name md5 use_checksum = do
    let name = if is_empty u.object_key then file_name else u.object_key
    sum ← (if use_checksum then md5 else ok [])
    put u.uploader (record { bucket = u.bucket; key = name; content_md5 = sum })

-- The classification of a message of the AWS library.
pub data Classification : Type 0 where
  debugging warning another : Classification

-- `awsLogger.Logf`, for a message with its arguments filled in.
unfoldable pub logf : Classification → Text → Log → Log
unfolding log_debugf log_warnf log_infof
logf debugging message log = log_debugf message log
logf warning message log = log_warnf message log
logf another message log = log_infof message log
