-- ===== src/Uploads/Multi/Progress.antt =====
-- client/uploads.go: the bounds of the progress that `uploadFinished` sets.
use file_upload.Prelude.{
  Option-cases, ℕ, ◌≡◌, ◌≤◌, ◌<◌, ◌+◌, ◌-◌, ◌^◌, ◌⊎◌, inl, inr, sym, ap, ◌∙◌, some, true, false,
  arith, length, eqb, Bool-cases,
}
use mathlib.Core.Path.{subst}
use file_upload.Prelude.Int.{pos, ◌+ℤ◌, ◌-ℤ◌, ℤ_beq, wrap, wrap_of_InRange}
use file_upload.Uploads.Status.{Time, UploadStatus, finished}
use file_upload.Uploads.Multi.{
  SingleUpload, MultiUpload, Outcome, finish_status, not_supported, finish_progress_of,
  count_progress_of,
}
use file_upload.Uploads.Methods.Finishing.{finish_status_total}
use file_upload.Uploads.Multi.Floats.{Float}
use file_upload.Uploads.Multi.Percent.{FloatLaws, IsPercent, quotient-IsPercent}

-- The file counts `c` of its `d` bytes and its upload `e` of its `n`, which is not too few for what is
-- left of the file.
pub record Accounted (su : SingleUpload) (u : MultiUpload) (c d e n : ℕ) : Type 0 where
  pub counted : su.bytes_transferred ≡ pos c
  pub size : su.total_size_bytes ≡ pos d
  pub all_counted : u.total_bytes_transferred ≡ pos e
  pub total_size : u.total_size_bytes ≡ pos n
  pub part : c ≤ d
  pub fits : e + (d - c) ≤ n
  pub bounded : n < 2 ^ 63

difference : (c d : ℕ) → c ≤ d → pos d -ℤ pos c ≡ pos (d - c)
unfolding ◌-ℤ◌
difference c d le = ground (arith, le)

sum_of : (a b : ℕ) → pos a +ℤ pos b ≡ pos (a + b)
unfolding ◌+ℤ◌
sum_of a b = ground arith

-- What `uploadFinished` adds is what the file had not yet counted.
total_after :
    (su : SingleUpload) (u : MultiUpload) (c d e n : ℕ)
    → Accounted su u c d e n
    → wrap (u.total_bytes_transferred +ℤ wrap (su.total_size_bytes -ℤ su.bytes_transferred))
      ≡ pos (e + (d - c))
total_after su u c d e n a =
    let small : d - c < 2 ^ 63 = omega (arith, a.fits, a.bounded) in
    let whole : e + (d - c) < 2 ^ 63 = omega (arith, a.fits, a.bounded) in
    rw (a.all_counted, a.size, a.counted, difference c d a.part)
      (ap (λ z. wrap (pos e +ℤ z)) (wrap_of_InRange (pos (d - c)) (small, omega arith))
        ∙ ap wrap (sum_of e (d - c))
        ∙ wrap_of_InRange (pos (e + (d - c))) (whole, omega arith))

-- The sizes are not supported, or the file and its upload count what they should.
abbrev pub IsAccounted : SingleUpload → MultiUpload → Type 0
IsAccounted su u =
    (ℤ_beq u.total_size_bytes not_supported ≡ true)
    ⊎ ((c : ℕ) × (d : ℕ) × (e : ℕ) × (n : ℕ) × Accounted su u c d e n)

module _ (f64 f32 : Float) (now : Time) (su : SingleUpload) (u : MultiUpload) (s t : UploadStatus)
    (o : Outcome) (active : u.status ≡ some s) (unfinished : finished s ≡ false)
    (made : finish_status f64 f32 now su u ≡ some o) (after : o.upload.status ≡ some t) where
  progress_last : eqb (length u.children) 0 ≡ true → t.progress ≡ pos 100
  unfolding finish_status
  progress_last e = ground (arith, active, unfinished, made, after, e)

  progress_bytes :
      eqb (length u.children) 0 ≡ false
      → ℤ_beq u.total_size_bytes not_supported ≡ false
      → ℤ_beq u.total_size_bytes (pos 0) ≡ false
      → t.progress
        ≡ finish_progress_of f64 f32
            (wrap (u.total_bytes_transferred +ℤ wrap (su.total_size_bytes -ℤ su.bytes_transferred)))
            u.total_size_bytes
  unfolding finish_status
  progress_bytes e p q = ground (arith, active, unfinished, made, after, e, p, q)

  progress_unknown :
      eqb (length u.children) 0 ≡ false
      → ℤ_beq u.total_size_bytes not_supported ≡ true
      → t.progress
        ≡ count_progress_of f64 f32
            (pos u.total_count -ℤ pos (length u.children))
            (pos u.total_count)
  unfolding finish_status
  progress_unknown e p = ground (arith, active, unfinished, made, after, e, p)

  progress_empty :
      eqb (length u.children) 0 ≡ false
      → ℤ_beq u.total_size_bytes (pos 0) ≡ true
      → t.progress
        ≡ count_progress_of f64 f32
            (pos u.total_count -ℤ pos (length u.children))
            (pos u.total_count)
  unfolding finish_status
  progress_empty e p = ground (arith, active, unfinished, made, after, e, p)

  module _ (laws64 : FloatLaws f64) (laws32 : FloatLaws f32)
      (few : length u.children ≤ u.total_count) where
    count-IsPercent :
        eqb (length u.children) 0 ≡ false
        → IsPercent (
            count_progress_of f64 f32
              (pos u.total_count -ℤ pos (length u.children))
              (pos u.total_count))
    count-IsPercent e = rw (difference (length u.children) u.total_count few) (
        quotient-IsPercent f32 laws32 (u.total_count - length u.children) u.total_count
          (omega arith) (ground (arith, e, few)))

    bytes-IsPercent :
        (c d e n : ℕ)
        → Accounted su u c d e n
        → ℤ_beq u.total_size_bytes (pos 0) ≡ false
        → IsPercent (
            finish_progress_of f64 f32
              (wrap
                (u.total_bytes_transferred +ℤ wrap (su.total_size_bytes -ℤ su.bytes_transferred)))
              u.total_size_bytes)
    unfolding ℤ_beq
    bytes-IsPercent c d e n a p =
        rw (total_after su u c d e n a, a.total_size)
          (quotient-IsPercent f64 laws64 (e + (d - c)) n a.fits (ground (arith, a.total_size, p)))

    sized :
        (c d e n : ℕ)
        → Accounted su u c d e n
        → eqb (length u.children) 0 ≡ false
        → IsPercent t.progress
    unfolding ℤ_beq
    sized c d e n a more = elim (Bool-cases (ℤ_beq u.total_size_bytes (pos 0))) [
      | inl p ↦ subst IsPercent (sym (progress_empty more p)) (count-IsPercent more)
      | inr p ↦
          subst IsPercent (sym (progress_bytes more (ground (arith, a.total_size)) p))
            (bytes-IsPercent c d e n a p)
    ]

    more_files : IsAccounted su u → eqb (length u.children) 0 ≡ false → IsPercent t.progress
    more_files (inl p) more = subst IsPercent (sym (progress_unknown more p)) (count-IsPercent more)
    more_files (inr (c, d, e, n, a)) more = sized c d e n a more

    all_files : IsAccounted su u → IsPercent t.progress
    all_files a = elim (Bool-cases (eqb (length u.children) 0)) [
      | inl last ↦ subst IsPercent (sym (progress_last last)) (omega arith, omega arith)
      | inr more ↦ more_files a more
    ]

module _ (f64 f32 : Float) (now : Time) (su : SingleUpload) (u : MultiUpload)
    (s : UploadStatus) where
  keeps_status :
      {o : Outcome}
      → finish_status f64 f32 now su u ≡ some o
      → (t : UploadStatus) × (o.upload.status ≡ some t)
  unfolding finish_status
  keeps_status {o} made = elim (Option-cases o.upload.status) [
    | inl q ↦ absurd (ground (arith, made, q))
    | inr found ↦ found
  ]

  -- Of an upload in progress that has not more files left than it had, and whose sizes are not
  -- supported or which counts, with what is left of the file, at most its size: uploadFinished sets a
  -- progress from 0 to 100, where floating point rounds as `FloatLaws` says.
  pub finish_status-IsPercent :
      FloatLaws f64
      → FloatLaws f32
      → u.status ≡ some s
      → finished s ≡ false
      → length u.children ≤ u.total_count
      → IsAccounted su u
      → (o : Outcome) × (t : UploadStatus) × (finish_status f64 f32 now su u ≡ some o)
        × (o.upload.status ≡ some t)
        × IsPercent t.progress
  finish_status-IsPercent laws64 laws32 active unfinished few a =
      let (o, made) = finish_status_total f64 f32 now su u s active in
      let (t, after) = keeps_status made in
      (
        o,
        t,
        made,
        after,
        all_files f64 f32 now su u s t o active unfinished made after laws64 laws32 few a,
      )
