-- ===== src/Uploaders/Http.antt =====
-- uploaders/common.go: `HTTPUploader`, its constructor and `UploadFile`. What the operating system
-- and net/http answer is an argument, and the request that is sent is part of the result.
pub mod Sending
use file_upload.Prelude.{
  ℕ, Bool, true, false, not, ◌&&◌, ◌||◌, if◌then◌else◌, Option, none, some, List, [], ◌∷◌, ltb,
  ◌==◌, nat_eq,
}
use file_upload.Prelude.Text.{Text, bytes, to_upper, text_beq, is_empty, text_eq}
use file_upload.Prelude.Dict.{Dict, lookup, insert}
use file_upload.Prelude.Result.{Result, ok, err, ◌>>=◌, ◌>>◌, guard}
use file_upload.Prelude.Int.{ℤ}
use file_upload.Uploaders.{
  OptionError, url_not_specified, unsupported_method, at, extract_dictionary,
}

abbrev pub url_prop : Text
url_prop = bytes "https.url"

abbrev pub method_prop : Text
method_prop = bytes "https.method"

abbrev pub headers_prefix : Text
headers_prefix = bytes "https.header."

abbrev pub content_md5 : Text
content_md5 = bytes "Content-MD5"

-- A cipher suite of the TLS library, but for what only that library reads.
pub record CipherSuite : Type 0 where
  pub id : ℕ
  pub name : Text

-- `SupportedCipherSuites`, from what tls.CipherSuites gives.
unfoldable pub supported_cipher_suites : List CipherSuite → List ℕ
supported_cipher_suites [] = []
supported_cipher_suites (c ∷ cs) = c.id ∷ supported_cipher_suites cs

-- `HTTPUploader`, but for its cipher suites, which are always the supported ones.
pub record HttpUploader : Type 0 where
  pub url : Text
  pub headers : Dict Text
  pub method : Text
  pub server_cert : Text

unfoldable pub method_of : Option Text → Text
unfolding to_upper
method_of none = bytes "PUT"
method_of (some m) = to_upper m

-- `NewHTTPUploader`
unfoldable pub new_http_uploader : Dict Text → Text → Result OptionError HttpUploader
unfolding at method_of extract_dictionary lookup text_beq
new_http_uploader options server_cert = do
  let url = at options url_prop
  guard (not (url == [])) url_not_specified
  let method = method_of (lookup method_prop options)
  guard (method == bytes "PUT" || method == bytes "POST") (unsupported_method method)
  ok (record {
    url = url;
    headers = extract_dictionary options headers_prefix;
    method = method;
    server_cert = server_cert;
  })

-- The error of a failed call, or of a response that is no success.
pub data UploadError : Type 0 where
  failed_call : Text → UploadError
  bad_status : ℕ → Text → UploadError

-- The answers that `UploadFile` depends on: the size of the file, whether net/http accepts the
-- method and the URL, whether the URL's scheme is https, whether the certificate file can be read,
-- the file's MD5 in base64, and the server's status code and status text.
pub record Answers : Type 0 where
  pub file_size : Result Text ℤ
  pub new_request : Text → Text → Result Text (Unit {0})
  pub is_https : Text → Bool
  pub read_file : Text → Result Text (Unit {0})
  pub compute_md5 : Result Text Text
  pub respond : Result Text (ℕ × Text)

pub record Request : Type 0 where
  pub method : Text
  pub url : Text
  pub headers : Dict Text
  pub content_length : ℤ

-- An error of a call, as an error of `UploadFile`.
abbrev pub lift {ℓ} : {A : Type ℓ} → Result Text A → Result UploadError A
lift (ok a) = ok a
lift (err e) = err (failed_call e)

unfoldable pub transport : HttpUploader → Answers → Result UploadError (Unit {0})
transport u io =
    if io.is_https u.url && not (is_empty u.server_cert)
    then lift (io.read_file u.server_cert)
    else ok tt

unfoldable pub check_status : ℕ × Text → Result UploadError (Unit {0})
check_status (code, status) =
    if ltb code 200 || ltb 299 code then err (bad_status code status) else ok tt

-- `ComputeMD5`, by what reading the file to its end gives. The position of the file, which is set
-- back to its start, is left out.
unfoldable pub compute_md5 :
    (Text → Text) → (Text → Text) → Result Text Text → Bool → Result Text Text
compute_md5 md5 base64 read encode_base64 = do
  content ← read
  ok (if encode_base64 then base64 (md5 content) else md5 content)

module _ (canonical : Text → Text) where
  -- `req.Header.Set`: net/http stores a header under the canonical form of its name.
  unfoldable pub set_header : Text → Text → Dict Text → Dict Text
  unfolding insert
  set_header name value headers = insert (canonical name) value headers

  unfoldable pub set_headers : Dict Text → Dict Text → Dict Text
  unfolding set_header
  set_headers [] headers = headers
  set_headers ((name, value) ∷ rest) headers = set_headers rest (set_header name value headers)

  unfoldable pub checksum_header : Answers → Bool → Dict Text → Result UploadError (Dict Text)
  unfolding set_header
  checksum_header io false headers = ok headers
  checksum_header io true headers = do
    md5 ← lift io.compute_md5
    ok (set_header content_md5 md5 headers)

  -- `UploadFile` up to the call of `client.Do`: the request that is sent.
  unfoldable pub prepare : HttpUploader → Answers → Bool → Result UploadError Request
  unfolding transport checksum_header set_headers set_header
  prepare u io use_checksum = do
    size ← lift io.file_size
    lift (io.new_request u.method u.url)
    transport u io
    let headers =
        set_headers u.headers (set_header (bytes "Content-Type") (bytes "application/x-binary") [])
    headers' ← checksum_header io use_checksum headers
    ok (record { method = u.method; url = u.url; headers = headers'; content_length = size })

  -- `UploadFile`
  unfoldable pub upload_file : HttpUploader → Answers → Bool → Result UploadError (Unit {0})
  unfolding prepare check_status
  upload_file u io use_checksum = do
    request ← prepare u io use_checksum
    response ← lift io.respond
    check_status response
