-- ===== src/Uploads/Multi/Percent.antt =====
-- client/uploads.go: the progress that `uploadFinished` computes, in percent.
use file_upload.Prelude.{ℕ, ◌≡◌, ◌≤◌, arith}
use mathlib.Core.Path.{subst}
use file_upload.Prelude.Int.{ℤ, pos, ◌≤ℤ◌}
use file_upload.Uploads.Multi.Floats.{Float}

-- What the percentages need of a floating-point type. The conversion from integers, the
-- multiplication by a positive number and the division by one round monotonically, and these cases
-- are exact; the conversion to int is monotone and exact from 0 to 100.
pub record FloatLaws (f : Float) : Type 1 where
  pub at_most : f.Number → f.Number → Type 0
  pub of_int_mono : (a b : ℤ) → a ≤ℤ b → at_most (f.of_int a) (f.of_int b)
  pub mul_mono :
      (a b : f.Number)
      → at_most a b
      → at_most (f.mul (f.of_int (pos 100)) a) (f.mul (f.of_int (pos 100)) b)
  pub mul_none : f.mul (f.of_int (pos 100)) (f.of_int (pos 0)) ≡ f.of_int (pos 0)
  pub mul_one : f.mul (f.of_int (pos 100)) (f.of_int (pos 1)) ≡ f.of_int (pos 100)
  pub div_mono :
      (n : ℕ) (a b : f.Number)
      → 1 ≤ n
      → at_most a b
      → at_most (f.div a (f.of_int (pos n))) (f.div b (f.of_int (pos n)))
  pub div_none : (n : ℕ) → 1 ≤ n → f.div (f.of_int (pos 0)) (f.of_int (pos n)) ≡ f.of_int (pos 0)
  pub div_self : (n : ℕ) → 1 ≤ n → f.div (f.of_int (pos n)) (f.of_int (pos n)) ≡ f.of_int (pos 1)
  pub truncate_mono :
      (a b : f.Number)
      → at_most (f.of_int (pos 0)) a
      → at_most a b
      → at_most b (f.of_int (pos 100))
      → f.truncate a ≤ℤ f.truncate b
  pub truncate_of_int : (n : ℕ) → n ≤ 100 → f.truncate (f.of_int (pos n)) ≡ pos n

-- From 0 to 100.
abbrev pub IsPercent : ℤ → Type 0
IsPercent p = (pos 0 ≤ℤ p) × (p ≤ℤ pos 100)

module _ (f : Float) (laws : FloatLaws f) (t n : ℕ) (part : t ≤ n) (filled : 1 ≤ n) where
  quotient : f.Number
  quotient = f.div (f.of_int (pos t)) (f.of_int (pos n))

  percents : f.Number
  percents = f.mul (f.of_int (pos 100)) quotient

  lower : laws.at_most (f.of_int (pos 0)) percents
  unfolding percents quotient
  lower =
      subst (λ a. laws.at_most a percents) laws.mul_none
        (laws.mul_mono _ _ (
          subst (λ a. laws.at_most a quotient) (laws.div_none n filled)
            (laws.div_mono n _ _ filled (laws.of_int_mono (pos 0) (pos t) (omega arith)))))

  upper : laws.at_most percents (f.of_int (pos 100))
  unfolding percents quotient
  upper = subst (laws.at_most percents) laws.mul_one (
      laws.mul_mono _ _ (
        subst (laws.at_most quotient) (laws.div_self n filled)
          (laws.div_mono n _ _ filled (laws.of_int_mono (pos t) (pos n) (omega (arith, part))))))

  pub quotient-IsPercent :
      IsPercent
        (f.truncate (f.mul (f.of_int (pos 100)) (f.div (f.of_int (pos t)) (f.of_int (pos n)))))
  unfolding percents quotient
  quotient-IsPercent = (
    subst (λ p. p ≤ℤ f.truncate percents) (laws.truncate_of_int 0 (omega arith))
        (laws.truncate_mono _ _ (laws.of_int_mono (pos 0) (pos 0) (omega arith)) lower upper),
    subst (λ p. f.truncate percents ≤ℤ p) (laws.truncate_of_int 100 (omega arith))
        (laws.truncate_mono _ _ lower upper (laws.of_int_mono (pos 100) (pos 100) (omega arith))),
  )
