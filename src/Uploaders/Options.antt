-- ===== src/Uploaders/Options.antt =====
-- uploaders/ and client/uploads.go: the options that the constructors and `getUploader` ask for.
use file_upload.Prelude.{
  ◌≡◌, ◌≢◌, refl, ◌↔◌, ◌⊎◌, Bool, true, false, Option, none, some, List, [], ◌∷◌, arith, ◌==◌,
}
use file_upload.Prelude.Text.{text_beq_ne, Text, bytes, text_beq_iff, text_eq}
use file_upload.Prelude.Dict.{Dict, lookup}
use file_upload.Prelude.Result.{◌>>=◌, Result, ok, err}
use file_upload.Uploaders.{extract_dictionary, OptionError, missing_parameter, unknown_provider, at}
use file_upload.Uploaders.Http.{
  headers_prefix, HttpUploader, new_http_uploader, url_prop, method_prop, method_of,
}
use file_upload.Uploaders.Aws.{
  new_aws_uploader, AwsCredentials, get_aws_credentials, aws_bucket, aws_access_key_id, aws_region,
  aws_secret_access_key, aws_session_token,
}
use file_upload.Uploaders.Azure.{
  new_azure_uploader, azure_endpoint, azure_sas, azure_container_name,
}
use file_upload.Uploaders.Choice.{
  provider_http, provider_aws, provider_azure, Uploader, get_uploader, choose_uploader,
  storage_provider, http, aws, azure,
}

-- The first of some options that is missing or empty.
unfoldable pub first_missing : Dict Text → List Text → Option Text
first_missing options [] = none
first_missing options (p ∷ ps) =
    let rest = first_missing options ps in
    elim (at options p == []) [ true ↦ some p | false ↦ rest ]

-- The result of a constructor that requires some options, all of which are checked in order.
abbrev pub require {ℓ} : {A : Type ℓ} → Option Text → A → Result OptionError A
require none a = ok a
require (some p) a = err (missing_parameter p)

-- `getAWSCredentials` requires the bucket, the key ID, the region and the secret, in this order; the
-- session token is optional.
pub get_aws_credentials-require :
    (options : Dict Text)
    → get_aws_credentials options
      ≡ require
          (first_missing options
            (aws_bucket ∷ aws_access_key_id ∷ aws_region ∷ aws_secret_access_key ∷ []))
          (record {
            key = at options aws_access_key_id;
            secret = at options aws_secret_access_key;
            token = at options aws_session_token;
            region = at options aws_region;
            bucket = at options aws_bucket;
          })
unfolding get_aws_credentials first_missing
get_aws_credentials-require options = ground arith

-- `NewAzureUploader` requires its three options, in this order.
pub new_azure_uploader-require :
    (options : Dict Text)
    → new_azure_uploader options
      ≡ require
          (first_missing options (azure_endpoint ∷ azure_sas ∷ azure_container_name ∷ []))
          (record {
            endpoint = at options azure_endpoint;
            sas = at options azure_sas;
            container = at options azure_container_name;
          })
unfolding new_azure_uploader first_missing
new_azure_uploader-require options = ground arith

-- `NewHTTPUploader` succeeds exactly if the URL is given and the method, in upper case, is PUT or
-- POST; without the option the method is PUT.
pub new_http_uploader-ok_iff :
    (options : Dict Text) (cert : Text)
    → ((u : HttpUploader) × (new_http_uploader options cert ≡ ok u)) ↔ (
        (at options url_prop ≢ [])
        × ((method_of (lookup method_prop options) ≡ bytes "PUT")
            ⊎ (method_of (lookup method_prop options) ≡ bytes "POST")))
unfolding new_http_uploader
new_http_uploader-ok_iff options cert = (
  (λ (u, h). (
    λ e. ground (arith, h, e),
    ground (
      arith,
      h,
      text_beq_iff (method_of (lookup method_prop options)) (bytes "PUT"),
      text_beq_iff (method_of (lookup method_prop options)) (bytes "POST"),
    ),
  )),
  (λ (given, known). (
    record {
      url = at options url_prop;
      headers = extract_dictionary options headers_prefix;
      method = method_of (lookup method_prop options);
      server_cert = cert;
    },
    ground (
      arith,
      given,
      known,
      text_beq_iff (at options url_prop) [],
      text_beq_iff (method_of (lookup method_prop options)) (bytes "PUT"),
      text_beq_iff (method_of (lookup method_prop options)) (bytes "POST"),
    ),
  )),
)

-- What the option 'storage.provider' can ask for.
pub data Kind : Type 0 where
  generic amazon azure_blobs : Kind
  unknown : Text → Kind

-- `lower` is strings.ToLower.
module _ {ℓ} {Manager : Type ℓ} (lower : Text → Text)
    (load_config : AwsCredentials → Bool → Result Text Manager) (debug : Bool) where
  -- What a value of the option asks for, in any case of letters; without the option it is the generic
  -- provider.
  abbrev pub Asks : Kind → Option Text → Type 0
  Asks generic none = Unit
  Asks generic (some s) = lower s ≡ bytes "generic"
  Asks amazon none = ⊥
  Asks amazon (some s) = lower s ≡ bytes "aws"
  Asks azure_blobs none = ⊥
  Asks azure_blobs (some s) = lower s ≡ bytes "azure"
  Asks (unknown name) none = ⊥
  Asks (unknown name) (some s) =
      (lower s ≡ name) × (name ≢ bytes "generic") × (name ≢ bytes "aws") × (name ≢ bytes "azure")

  -- What an uploader of this kind is made of: the result of its constructor, with its error.
  abbrev pub made_as : Kind → Dict Text → Text → Result OptionError (Uploader Manager)
  made_as generic options cert = do u ← new_http_uploader options cert; ok (http u)
  made_as amazon options cert = do u ← new_aws_uploader load_config debug options; ok (aws u)
  made_as azure_blobs options cert = do u ← new_azure_uploader options; ok (azure u)
  made_as (unknown name) options cert = err (unknown_provider name)

  choose_uploader-Asks :
      (kind : Kind) (o : Option Text) (options : Dict Text) (cert : Text)
      → Asks kind o
      → choose_uploader lower load_config debug o options cert ≡ made_as kind options cert
  unfolding choose_uploader
  choose_uploader-Asks generic none options cert a = refl
  choose_uploader-Asks generic (some s) options cert a = rw (a, choose_uploader) refl
  choose_uploader-Asks amazon none options cert a = absurd a
  choose_uploader-Asks amazon (some s) options cert a = rw (a, choose_uploader) refl
  choose_uploader-Asks azure_blobs none options cert a = absurd a
  choose_uploader-Asks azure_blobs (some s) options cert a = rw (a, choose_uploader) refl
  choose_uploader-Asks (unknown name) none options cert a = absurd a
  choose_uploader-Asks (unknown name) (some s) options cert (a, p, q, r) =
      rw
        (
          a,
          choose_uploader,
          text_beq_ne name provider_http p,
          text_beq_ne name provider_aws q,
          text_beq_ne name provider_azure r,
        )
        refl

  -- `getUploader` gives what the constructor of the provider gives that the option asks for in any
  -- case of letters, and that of the HTTP provider without the option; for any other provider it
  -- gives the error that names it in lower case.
  pub get_uploader-Asks :
      (kind : Kind) (options : Dict Text) (cert : Text)
      → Asks kind (lookup storage_provider options)
      → get_uploader lower load_config debug options cert ≡ made_as kind options cert
  unfolding get_uploader
  get_uploader-Asks kind options cert =
      choose_uploader-Asks kind (lookup storage_provider options) options cert
