-- ===== src/Uploaders/Tests.antt =====
-- Options of the 'start' operation, and each theorem on uploaders at them.
use file_upload.Prelude.{ℕ, ◌≡◌, ◌≤◌, refl, ◌↔◌, Bool, true, false, [], ◌∷◌}
use file_upload.Prelude.Text.{Text, bytes, text_beq, to_lower}
use file_upload.Prelude.Dict.{Dict, lookup, IsMap}
use file_upload.Prelude.Int.{pos}
use file_upload.Prelude.Result.{Result, ok}
use file_upload.Uploaders.{at}
use file_upload.Uploaders.Http.{
  supported_cipher_suites, HttpUploader, Answers, Request, prepare, upload_file, content_md5,
}
use file_upload.Uploaders.Http.Sending.{upload_file-ok_iff}
use file_upload.Uploaders.Aws.{
  AwsCredentials, get_aws_credentials, aws_bucket, aws_access_key_id, aws_region,
  aws_secret_access_key, aws_session_token,
}
use file_upload.Uploaders.Choice.{Uploader, http, get_uploader}
use file_upload.Uploaders.Options.{
  get_uploader-Asks, amazon, made_as, Asks, require, first_missing, get_aws_credentials-require,
}

abbrev options : Dict Text
options =
    (bytes "https.url", bytes "https://host/f")
    ∷ (bytes "https.method", bytes "post")
    ∷ (bytes "storage.provider", bytes "Generic")
    ∷ (bytes "info.a", bytes "1")
    ∷ []

options-IsMap : IsMap options
unfolding lookup text_beq
options-IsMap = (refl, (refl, (refl, (refl, tt))))

abbrev uploader : HttpUploader
uploader = record {
  url = bytes "https://host/f";
  headers = [];
  method = bytes "POST";
  server_cert = [];
}

abbrev answers : Answers
answers = record {
  file_size = ok (pos 3);
  new_request = λ method url. ok tt;
  is_https = λ url. true;
  read_file = λ path. ok tt;
  compute_md5 = ok (bytes "rL0Y20zC+Fzt72VPzMSk2A==");
  respond = ok (201, bytes "Created");
}

upload_file-ok_iff_example : (upload_file (λ n. n) uploader answers true ≡ ok tt) ↔ (
    (request : Request) × (code : ℕ) × (status : Text) × (prepare (λ n. n) uploader answers true
      ≡ ok request)
    × (answers.respond ≡ ok (code, status))
    × (200 ≤ code)
    × (code ≤ 299))
upload_file-ok_iff_example = upload_file-ok_iff (λ n. n) uploader answers true

abbrev sent : Request
sent = record {
  method = bytes "POST";
  url = bytes "https://host/f";
  headers =
      (bytes "Content-Type", bytes "application/x-binary")
      ∷ (content_md5, bytes "rL0Y20zC+Fzt72VPzMSk2A==")
      ∷ [];
  content_length = pos 3;
}

get_aws_credentials-require_example :
    get_aws_credentials options
    ≡ require
        (first_missing options
          (aws_bucket ∷ aws_access_key_id ∷ aws_region ∷ aws_secret_access_key ∷ []))
        (record {
          key = at options aws_access_key_id;
          secret = at options aws_secret_access_key;
          token = at options aws_session_token;
          region = at options aws_region;
          bucket = at options aws_bucket;
        })
get_aws_credentials-require_example = get_aws_credentials-require options

abbrev load_config : AwsCredentials → Bool → Result Text ℕ
load_config credentials debug = ok 0

abbrev made : Uploader ℕ
made = http uploader

abbrev aws_options : Dict Text
aws_options = (bytes "storage.provider", bytes "AWS") ∷ (bytes "aws.s3.bucket", bytes "b") ∷ []

aws_options-Asks :
    Asks to_lower load_config false amazon (lookup (bytes "storage.provider") aws_options)
unfolding lookup text_beq to_lower
aws_options-Asks = refl

get_uploader-Asks_example :
    get_uploader to_lower load_config false aws_options []
    ≡ made_as to_lower load_config false amazon aws_options []
get_uploader-Asks_example =
    get_uploader-Asks to_lower load_config false amazon aws_options [] aws_options-Asks

abbrev ftp : Dict Text
ftp = (bytes "storage.provider", bytes "FTP") ∷ []

ids_of_suites :
    supported_cipher_suites (record { id = 4865; name = bytes "TLS_AES_128_GCM_SHA256" } ∷ [])
    ≡ 4865 ∷ []
unfolding supported_cipher_suites
ids_of_suites = refl
