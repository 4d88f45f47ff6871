-- ===== src/Flags/UploadConfig/Acceptance.antt =====
-- flagparse/flags.go: which configurations `UploadConfig.Validate` accepts.
use file_upload.Prelude.{
  sym, ◌≡◌, ◌≢◌, refl, ap, ◌∙◌, ◌↔◌, ◌⊎◌, inl, inr, Bool, true, false, List, [], ◌∷◌, arith,
}
use file_upload.Prelude.Text.{Text, is_empty}
use file_upload.Prelude.Result.{Result, ok, >>=-ok, guard, Result-cases}
use file_upload.Mode.{AccessMode, lax}
use file_upload.Uploadable.{UploadableConfig}
use file_upload.Uploadable.Config as Config
use file_upload.Uploadable.Config.Validity.{validate-ok_iff, IsPositive, InOrder, active_with}
use file_upload.Flags.UploadConfig.{
  files_not_specified, is_lax, half_certificate, UploadConfig, InvalidConfig, validate,
  validate_files, validate_uploadable, both_or_none,
}

validate_uploadable-ok_iff :
    (u w : UploadableConfig) → (validate_uploadable u ≡ ok w) ↔ (Config.validate u ≡ ok w)
unfolding validate_uploadable
validate_uploadable-ok_iff u w = elim (Result-cases (Config.validate u)) [
  | inl (x, e) ↦ rw (e, validate_uploadable) ((λ h. ground (arith, h)), λ h. ground (arith, h))
  | inr (x, e) ↦ rw (e, validate_uploadable) ((λ h. cc h), λ h. cc h)
]

is_lax_iff : (m : AccessMode) → (is_lax m ≡ true) ↔ (m ≡ lax)
unfolding is_lax
is_lax_iff m = ground arith

ok_injective {ℓ} : {A : Type ℓ} {a b : A} → ◌≡◌ {A = Result InvalidConfig A} (ok a) (ok b) → a ≡ b
ok_injective h = cc

both_or_none_iff : (a b : Text) → (both_or_none a b ≡ true) ↔ (is_empty a ≡ is_empty b)
unfolding both_or_none
both_or_none_iff a b = ground arith

guarded_iff : (b : Bool) (e : InvalidConfig) {d : Unit {0}} → (guard b e ≡ ok d) ↔ (b ≡ true)
guarded_iff true e = (λ _. refl, λ _. refl)
guarded_iff false e = (λ h. cc h, λ h. cc h)

module _ (glob : Text → Result Text (List Text)) where
  -- Files are named by a pattern that can be read, or the mode permits any file.
  abbrev pub FilesOk : Text → AccessMode → Type 0
  FilesOk files mode =
      ((files ≡ []) × (mode ≡ lax))
      ⊎ ((files ≢ []) × (matches : List Text) × (glob files ≡ ok matches))

  -- A client certificate and its key are given together.
  abbrev pub IsAcceptable : UploadConfig → Type 0
  IsAcceptable cfg =
      FilesOk cfg.files cfg.mode
      × (is_empty cfg.broker.cert ≡ is_empty cfg.broker.key)
      × IsPositive cfg.uploadable.period
      × InOrder cfg.uploadable.active_from cfg.uploadable.active_till

  validate_files-ok_iff :
      (files : Text) (mode : AccessMode)
      → (validate_files glob files mode ≡ ok tt) ↔ FilesOk files mode
  unfolding validate_files
  validate_files-ok_iff [] mode =
      let g = guarded_iff (is_lax mode) files_not_specified in
      let l = is_lax_iff mode in
      (
        λ h. inl (refl, l.0 (g.0 h)),
        λ o. elim o [ inl (e, m) ↦ g.1 (l.1 m) | inr (ne, ms, r) ↦ absurd (ne refl) ],
      )
  validate_files-ok_iff (c ∷ files) mode = elim (Result-cases (glob (c ∷ files))) [
    | inl (ms, e) ↦ rw (e, validate_files) ((λ h. inr (λ q. cc q, ms, refl)), λ o. refl)
    | inr (x, e) ↦
        rw (e, validate_files)
          ((λ h. cc h), λ o. elim o [ inl (q, m) ↦ cc q | inr (ne, ms, q) ↦ cc q ])
  ]

  -- `Validate` accepts a configuration exactly if its files are named by a readable pattern or the
  -- mode is lax, the client certificate and the key are given together, the period is positive, and
  -- the active time does not end before it starts; it makes a configuration active that has one of
  -- the two times, and changes nothing else.
  pub validate_config-ok_iff :
      (cfg v : UploadConfig)
      → (validate glob cfg ≡ ok v) ↔ (
          IsAcceptable cfg
          × (v ≡ record cfg {
            uploadable = record cfg.uploadable {
              active =
                  active_with cfg.uploadable.active cfg.uploadable.active_from
                    cfg.uploadable.active_till;
            };
          }))
  unfolding validate
  validate_config-ok_iff cfg v = (
    (λ h.
        let (d, p, h1) = >>=-ok (validate_files glob cfg.files cfg.mode) _ h in
        let (d', q, h2) =
          >>=-ok (guard (both_or_none cfg.broker.cert cfg.broker.key) half_certificate) _ h1 in
        let (u, r, last) = >>=-ok (validate_uploadable cfg.uploadable) _ h2 in
        let valid =
          (validate-ok_iff cfg.uploadable u).0
            ((validate_uploadable-ok_iff cfg.uploadable u).0 r) in
        (
          (
            (validate_files-ok_iff cfg.files cfg.mode).0 p,
            (both_or_none_iff cfg.broker.cert cfg.broker.key).0 ((guarded_iff _ _).0 q),
            valid.0,
            valid.1,
          ),
          sym (ok_injective last) ∙ ap (λ w. record cfg { uploadable = w }) valid.2,
        )),
    (λ ((f, b, p, o), e).
        let accepted =
          (validate_uploadable-ok_iff cfg.uploadable _).1
            ((validate-ok_iff cfg.uploadable _).1 (p, o, refl)) in
        rw
          (
            (validate_files-ok_iff cfg.files cfg.mode).1 f,
            (both_or_none_iff cfg.broker.cert cfg.broker.key).1 b,
            accepted,
          )
          (ap ok (sym e))),
  )
