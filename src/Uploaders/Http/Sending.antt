-- ===== src/Uploaders/Http/Sending.antt =====
-- uploaders/common.go: the request and the result of `UploadFile`.
use file_upload.Prelude.{ap, ◌∙◌, ℕ, ◌≤◌, ◌≡◌, ◌↔◌, Bool, true, some, arith}
use file_upload.Prelude.Text.{Text, text_beq_refl}
use file_upload.Prelude.Dict.{Dict, lookup, lookup-insert}
use file_upload.Prelude.Result.{>>=-ok, Result, ok, err}
use file_upload.Uploaders.Http.{
  transport, HttpUploader, Answers, Request, UploadError, content_md5, lift, prepare, upload_file,
  check_status, set_header, checksum_header,
}

lift-ok {ℓ} : {A : Type ℓ} (r : Result Text A) {a : A} → lift r ≡ ok a → r ≡ ok a
lift-ok (ok b) h = cc
lift-ok (err e) h = cc

accepted :
    (code : ℕ) (status : Text) → check_status (code, status) ≡ ok tt → (200 ≤ code) × (code ≤ 299)
unfolding check_status
accepted code status h = ground arith

accepts : (code : ℕ) (status : Text) → 200 ≤ code → code ≤ 299 → check_status (code, status) ≡ ok tt
unfolding check_status
accepts code status low high = ground arith

headers-eq :
    {r s : Request} → ◌≡◌ {A = Result UploadError Request} (ok r) (ok s) → s.headers ≡ r.headers
headers-eq h = cc

module _ (canonical : Text → Text) where
  -- `UploadFile` reports success exactly if a request was prepared, the server answered it, and the
  -- status code is one of 200 to 299.
  pub upload_file-ok_iff :
      (u : HttpUploader) (io : Answers) (use_checksum : Bool)
      → (upload_file canonical u io use_checksum ≡ ok tt) ↔ (
          (request : Request) × (code : ℕ) × (status : Text) × (prepare canonical u io use_checksum
            ≡ ok request)
          × (io.respond ≡ ok (code, status))
          × (200 ≤ code)
          × (code ≤ 299))
  unfolding upload_file check_status
  upload_file-ok_iff u io use_checksum = (
    (λ h.
        let (request, p, rest) = >>=-ok (prepare canonical u io use_checksum) _ h in
        let ((code, status), r, c) = >>=-ok (lift io.respond) _ rest in
        (
          request,
          code,
          status,
          p,
          lift-ok io.respond r,
          (accepted code status c).0,
          (accepted code status c).1,
        )),
    (λ (request, code, status, p, r, low, high). rw (p, r) (accepts code status low high)),
  )

  checksum-md5 :
      (io : Answers) (headers : Dict Text) {md5 : Text} {headers' : Dict Text}
      → io.compute_md5 ≡ ok md5
      → checksum_header canonical io true headers ≡ ok headers'
      → lookup (canonical content_md5) headers' ≡ some md5
  unfolding checksum_header set_header
  checksum-md5 io headers {md5} h e = ground (
    arith,
    h,
    e,
    lookup-insert (canonical content_md5) (canonical content_md5) md5 headers,
    text_beq_refl (canonical content_md5),
  )

  -- With the checksum, which could be computed, the request carries the file's MD5, whatever headers
  -- the options name.
  pub prepare-md5 :
      (u : HttpUploader) (io : Answers) {request : Request} {md5 : Text}
      → io.compute_md5 ≡ ok md5
      → prepare canonical u io true ≡ ok request
      → lookup (canonical content_md5) request.headers ≡ some md5
  unfolding prepare checksum_header set_header
  prepare-md5 u io {request} {md5} h e =
      let (size, p, e1) = >>=-ok (lift io.file_size) _ e in
      let (done, q, e2) = >>=-ok (lift (io.new_request u.method u.url)) _ e1 in
      let (ready, r, e3) = >>=-ok (transport u io) _ e2 in
      let (headers, t, e4) = >>=-ok (checksum_header canonical io true _) _ e3 in
      ap (lookup (canonical content_md5)) (headers-eq e4) ∙ checksum-md5 io _ h t
