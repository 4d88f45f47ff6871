-- ===== src/FileUpload/Permission.antt =====
-- client/fileupload.go: the checks of `DoTrigger`.
use file_upload.Prelude.{
  ap, ◌∙◌, ◌&&◌, not, ◌≡◌, ◌≢◌, refl, ◌⊎◌, inl, inr, Bool, true, false, Option, none, some, List,
  [], ◌∷◌, if◌then◌else◌, arith,
}
use file_upload.Prelude.Text.{bytes, text_beq, is_empty, Text, text_beq_iff}
use file_upload.Prelude.Dict.{Dict, lookup}
use file_upload.Prelude.Result.{Result-cases, guard, ok, err, >>=-ok}
use file_upload.Mode.{AccessMode, na, strict, lax, scoped}
use file_upload.Uploads.Status.{UploadStatus, uploading}
use file_upload.Uploads.Heap.{Heap, Upload, single, multi}
use file_upload.Uploads.Registry.{
  has_pending_uploads, is_pending_status, pending_among, is_pending_upload,
}
use file_upload.Uploadable.{AutoUploadable}
use file_upload.Uploadable.Operations.{upload_files}
use file_upload.FileUpload.{
  FileSystem, is_glob_upload_permitted, choose_glob, is_single, files_to_upload, do_trigger,
  upload_files_property,
}

-- What each mode lets a request name: STRICT only the configured pattern, SCOPED what matches it,
-- LAX anything, and without a mode nothing.
abbrev pub Permitted : FileSystem → Text → AccessMode → Text → Type 0
Permitted fs files_glob lax glob = Unit
Permitted fs files_glob strict glob = glob ≡ files_glob
Permitted fs files_glob scoped glob = fs.matches files_glob glob ≡ ok true
Permitted fs files_glob na glob = ⊥

is_glob_upload_permitted-Permitted :
    (fs : FileSystem) (files_glob : Text) (mode : AccessMode) (glob : Text)
    → is_glob_upload_permitted fs files_glob mode glob ≡ ok true
    → Permitted fs files_glob mode glob
unfolding is_glob_upload_permitted
is_glob_upload_permitted-Permitted fs files_glob lax glob h = tt
is_glob_upload_permitted-Permitted fs files_glob strict glob h =
    (text_beq_iff glob files_glob).0 (cc h)
is_glob_upload_permitted-Permitted fs files_glob scoped glob h = h
is_glob_upload_permitted-Permitted fs files_glob na glob h = cc h

guarded : (e : Text) (b : Bool) {d : Unit {0}} → guard b e ≡ ok d → b ≡ true
guarded e true h = refl
guarded e false h = cc h

not-true : (b : Bool) → not b ≡ true → b ≡ false
not-true b h = ground arith

not-is_empty : (s : Text) → not (is_empty s) ≡ true → s ≢ []
not-is_empty s h e = ground (arith, h, e)

-- No upload of those listed is UPLOADING.
abbrev pub NotUploading : Option UploadStatus → Type 0
NotUploading none = Unit
NotUploading (some s) = s.state ≢ uploading

abbrev pub NoneRuns : Heap → Dict Upload → Type 0
NoneRuns h [] = Unit
NoneRuns h ((k, single a) ∷ us) = NoneRuns h us
NoneRuns h ((k, multi m) ∷ us) = NotUploading (h.multis m).status × NoneRuns h us

status-NotUploading : (o : Option UploadStatus) → is_pending_status o ≡ false → NotUploading o
unfolding is_pending_status
status-NotUploading none h = tt
status-NotUploading (some s) h = λ e. ground (arith, h, e)

among-NoneRuns : (h : Heap) (us : Dict Upload) → pending_among h us ≡ false → NoneRuns h us
unfolding pending_among is_pending_upload
among-NoneRuns h [] e = tt
among-NoneRuns h ((k, single a) ∷ us) e = among-NoneRuns h us e
among-NoneRuns h ((k, multi m) ∷ us) e = (
  status-NotUploading (h.multis m).status (ground (arith, e)),
  among-NoneRuns h us (ground (arith, e)),
)

freed :
    (once pending : Bool) (force : Option Text)
    → (elim force [ none ↦ once | some v ↦ if text_beq v (bytes "true") then false else once ]
        && pending)
      ≡ false
    → (once ≡ false) ⊎ (force ≡ some (bytes "true")) ⊎ (pending ≡ false)
freed once pending none h = ground (arith, h)
freed once pending (some v) h = ground (arith, h, text_beq_iff v (bytes "true"))

free_of {ℓ} :
    {U : Type ℓ} (options : Dict Text) (u : AutoUploadable U)
    → (is_single u.cfg.single_upload options && has_pending_uploads u.heap) ≡ false
    → (u.cfg.single_upload ≡ false)
      ⊎ (lookup (bytes "force") options ≡ some (bytes "true"))
      ⊎ NoneRuns u.heap u.heap.uploads
unfolding is_single has_pending_uploads
free_of options u h =
    elim (freed u.cfg.single_upload (has_pending_uploads u.heap) (lookup (bytes "force") options)
      h) [
        | inl e ↦ inl e
        | inr (inl e) ↦ inr (inl e)
        | inr (inr e) ↦ inr (inr (among-NoneRuns u.heap u.heap.uploads e))
      ]

module _ (fs : FileSystem) (files_glob : Text) (mode : AccessMode) where
  -- Where a pattern comes from: the configuration, or the options if the mode permits it.
  abbrev pub Chosen : Option Text → Text → Type 0
  Chosen none glob = glob ≡ files_glob
  Chosen (some g) glob = (glob ≡ g) × Permitted fs files_glob mode g

  choose_glob-Chosen :
      (option : Option Text) (glob : Text)
      → choose_glob fs files_glob mode option ≡ ok glob
      → Chosen option glob
  unfolding choose_glob
  choose_glob-Chosen none glob h = cc h
  choose_glob-Chosen (some g) glob h =
      let (permitted, p, rest) = >>=-ok (is_glob_upload_permitted fs files_glob mode g) _ h in
      let (done, q, last) = >>=-ok (guard permitted _) _ rest in
      (
        cc last,
        is_glob_upload_permitted-Permitted fs files_glob mode g (p ∙ ap ok (guarded _ permitted q)),
      )

  -- The checks that a trigger passes before its files are listed.
  pub record Selected {ℓ} {U : Type ℓ} (options : Dict Text) (u : AutoUploadable U)
      (files : List Text) : Type ℓ where
    pub glob : Text
    pub chosen : Chosen (lookup upload_files_property options) glob
    pub given : glob ≢ []
    pub free :
        (u.cfg.single_upload ≡ false)
        ⊎ (lookup (bytes "force") options ≡ some (bytes "true"))
        ⊎ NoneRuns u.heap u.heap.uploads
    pub listed : fs.glob glob ≡ ok files

  files_to_upload-Selected {ℓ} :
      {U : Type ℓ} (options : Dict Text) (u : AutoUploadable U) (files : List Text)
      → files_to_upload fs files_glob mode options u ≡ ok files
      → Selected options u files
  unfolding files_to_upload
  files_to_upload-Selected options u files h =
      let (glob, p, rest) =
        >>=-ok (choose_glob fs files_glob mode (lookup upload_files_property options)) _ h in
      let (done, q, rest') = >>=-ok (guard (not (is_empty glob)) _) _ rest in
      let (done', r, last) =
        >>=-ok (guard (not (is_single u.cfg.single_upload options && has_pending_uploads u.heap)) _)
          _ rest' in
      record {
        glob = glob;
        chosen = choose_glob-Chosen (lookup upload_files_property options) glob p;
        given = not-is_empty glob (guarded _ (not (is_empty glob)) q);
        free = free_of options u (
            not-true _ (
              guarded _ (not (is_single u.cfg.single_upload options && has_pending_uploads u.heap))
                r));
        listed = last;
      }

  -- A trigger that goes well uploads the files of a pattern that is not empty and that the
  -- configuration gives, or the options name and the mode permits, where SCOPED permits what the
  -- pattern of the configuration matches as a text; and where only one upload may run, no upload of
  -- the registry is UPLOADING or the options have 'force' as "true". A trigger that fails changes
  -- nothing.
  pub do_trigger-Selected {ℓ} :
      {U : Type ℓ} (id : Text) (options : Dict Text) (u : AutoUploadable U)
      → let (result, v) = do_trigger fs files_glob mode id options u in
        ((result ≡ ok tt)
          × (files : List Text) × Selected options u files
          × (v ≡ upload_files fs.stat id files options u))
        ⊎ ((e : Text) × (result ≡ err e) × (v ≡ u))
  unfolding do_trigger
  do_trigger-Selected id options u =
      elim (Result-cases (files_to_upload fs files_glob mode options u)) [
        | inl (files, p) ↦
            rw (p, do_trigger) (inl (refl, files, files_to_upload-Selected options u files p, refl))
        | inr (e, p) ↦ rw (p, do_trigger) (inr (e, refl, refl))
      ]
