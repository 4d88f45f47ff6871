-- ===== src/Uploads/Methods/Accounting.antt =====
-- client/uploads.go: the bytes that a file adds to those of its upload.
use file_upload.Prelude.{
  map, eqb, eqb_iff, ℕ, ◌+◌, ◌^◌, ◌<◌, ◌≡◌, refl, ◌∙◌, ap, false, some, List, [], ◌∷◌, arith,
  Bool-cases, inl, inr,
}
use file_upload.Prelude.Int.{ℤ, pos, ◌+ℤ◌, ◌-ℤ◌, ℤ_beq, wrap, wrap_of_InRange, InRange}
use file_upload.Uploads.Status.{UploadStatus}
use file_upload.Uploads.Multi
use file_upload.Uploads.Multi.{MultiUpload, Outcome, not_supported}
use file_upload.Uploads.Multi.Floats.{Float}
use mathlib.Core.Path.{subst}
use file_upload.Uploads.Methods.NoFault.{change_progress_total}
use file_upload.Uploads.Heap.{commit, Heap, update, set_single}
use file_upload.Uploads.Methods.{report_progress, report_all, change_progress}

difference-InRange : (n b : ℕ) → n < 2 ^ 63 → b < 2 ^ 63 → InRange (pos n -ℤ pos b)
unfolding ◌-ℤ◌
difference-InRange n b p q = ground arith

add_difference : (rest b n : ℕ) → pos (rest + b) +ℤ (pos n -ℤ pos b) ≡ pos (rest + n)
unfolding ◌-ℤ◌ ◌+ℤ◌
add_difference rest b n = ground arith

-- The change that a report makes does not overflow, and takes the count of the file to the report.
sum_moves :
    (rest b n : ℕ)
    → rest + b < 2 ^ 63
    → rest + n < 2 ^ 63
    → wrap (pos (rest + b) +ℤ wrap (pos n -ℤ pos b)) ≡ pos (rest + n)
sum_moves rest b n old new =
    ap (λ c. wrap (pos (rest + b) +ℤ c))
      (wrap_of_InRange (pos n -ℤ pos b) (difference-InRange n b (omega arith) (omega arith)))
    ∙ ap wrap (add_difference rest b n)
    ∙ wrap_of_InRange (pos (rest + n)) (new, omega arith)

-- The file at `a` counts `b` bytes and the other files of its upload `rest`; the sizes are known and
-- not zero, and the upload has a status.
pub record Counted (a rest b : ℕ) (h : Heap) : Type 0 where
  pub of_file : (h.singles a).bytes_transferred ≡ pos b
  pub of_upload : (h.multis (h.singles a).parent).total_bytes_transferred ≡ pos (rest + b)
  pub file_size : ℤ_beq (h.singles a).total_size_bytes (pos 0) ≡ false
  pub upload_size : ℤ_beq (h.multis (h.singles a).parent).total_size_bytes (pos 0) ≡ false
  pub sizes_known : ℤ_beq (h.multis (h.singles a).parent).total_size_bytes not_supported ≡ false
  pub has_status : (s : UploadStatus) × ((h.multis (h.singles a).parent).status ≡ some s)

ℤ_beq_pos : (b n : ℕ) → ℤ_beq (pos b) (pos n) ≡ eqb b n
unfolding ℤ_beq
ℤ_beq_pos b n = ground arith

change-nonzero :
    (n b : ℕ)
    → n < 2 ^ 63
    → b < 2 ^ 63
    → eqb b n ≡ false
    → ℤ_beq (wrap (pos n -ℤ pos b)) (pos 0) ≡ false
unfolding ℤ_beq ◌-ℤ◌
change-nonzero n b p q e =
    rw (wrap_of_InRange (pos n -ℤ pos b) (difference-InRange n b p q)) (ground (arith, e))

-- Each report keeps the sum of the upload below the largest int64.
abbrev pub AllFit : ℕ → List ℕ → Type 0
AllFit rest [] = Unit
AllFit rest (n ∷ ns) = (rest + n < 2 ^ 63) × AllFit rest ns

-- The last of the reports, or the count before them.
abbrev pub last_report : ℕ → List ℕ → ℕ
last_report b [] = b
last_report b (n ∷ ns) = last_report n ns

module _ (f64 f32 : Float) where
  change_progress_moves :
      (change : ℤ) (u : MultiUpload) (o : Outcome)
      → ℤ_beq u.total_size_bytes (pos 0) ≡ false
      → ℤ_beq u.total_size_bytes not_supported ≡ false
      → Multi.change_progress f64 f32 change u ≡ some o
      → (o.upload.total_bytes_transferred ≡ wrap (u.total_bytes_transferred +ℤ change))
        × (o.upload.total_size_bytes ≡ u.total_size_bytes)
  unfolding Multi.change_progress
  change_progress_moves change u o size known e =
      (ground (arith, size, known, e), ground (arith, size, known, e))

  report_progress_counts :
      (a rest b n : ℕ) (h : Heap)
      → rest + b < 2 ^ 63
      → rest + n < 2 ^ 63
      → Counted a rest b h
      → (g : Heap) × (report_progress f64 f32 a (pos n) h ≡ some g) × Counted a rest n g
  unfolding report_progress change_progress update
  report_progress_counts a rest b n h old new c = elim (Bool-cases (eqb b n)) [
    | inl q ↦
        let same : b ≡ n = (eqb_iff b n).0 q in
        (
          h,
          rw (c.of_file, ℤ_beq_pos b n) (ground (arith, q, c.file_size, c.sizes_known)),
          subst (λ k. Counted a rest k h) same c,
        )
    | inr q ↦
        let m = (h.singles a).parent in
        let change = wrap (pos n -ℤ pos b) in
        let (s, status) = c.has_status in
        let (o, t, made, status') = change_progress_total f64 f32 change (h.multis m) s status in
        let (total, size) =
          change_progress_moves change (h.multis m) o c.upload_size c.sizes_known made in
        let h' = set_single a (record (h.singles a) { bytes_transferred = pos n }) h in
        let nonzero = change-nonzero n b (omega arith) (omega arith) q in
        let counted =
          total ∙ ap (λ z. wrap (z +ℤ change)) c.of_upload ∙ sum_moves rest b n old new in
        (
          commit m o h',
          rw
              (
                c.sizes_known,
                c.file_size,
                c.of_file,
                ℤ_beq_pos b n,
                q,
                nonzero,
                made,
                change_progress,
              )
              refl,
          record {
            of_file = ground arith;
            of_upload = ground (arith, counted);
            file_size = ground (arith, c.file_size);
            upload_size = ground (arith, c.upload_size, size);
            sizes_known = ground (arith, c.sizes_known, size);
            has_status = (t, ground (arith, status'));
          },
        )
  ]

  -- Of a file and an upload whose sizes are known and not zero, and whose upload has a status: after
  -- any reports of the uploader, be they falling or repeated, the file counts the last of them, and
  -- the upload counts the same for the other files and that for this one. No report faults or
  -- overflows, if each sum fits.
  pub report_all-Counted :
      (a rest b : ℕ) (ns : List ℕ) (h : Heap)
      → rest + b < 2 ^ 63
      → AllFit rest ns
      → Counted a rest b h
      → (g : Heap) × (report_all f64 f32 a (map pos ns) h ≡ some g)
        × Counted a rest (last_report b ns) g
  unfolding report_all
  report_all-Counted a rest b [] h old fit c = (h, refl, c)
  report_all-Counted a rest b (n ∷ ns) h old (new, fit) c =
      let (f, e, d) = report_progress_counts a rest b n h old new c in
      let (g, q, last) = report_all-Counted a rest n ns f new fit d in
      (g, rw (e, report_all) q, last)
