-- ===== src/Prelude/Decimal.antt =====
-- fmt's %d for a number that is not negative.
use Prim.Native.Nat.{ℕ, zero, suc, ◌+◌, ◌-◌, ◌*◌, ◌/◌, ◌%◌, ◌<◌}
use mathlib.Core.Path.{◌≡◌, refl, sym, ap, ◌∙◌}
use mathlib.Core.List.{[], ◌∷◌}
use native.Mathlib.Omega.{arith}
use file_upload.Prelude.Tests.{eqb, if◌then◌else◌, Bool-cases}
use file_upload.Prelude.Text.{Text}
use mathlib.Core.Logic.{inl, inr}

-- The digits of `n` in front of `rest`. A number below the fuel has enough of it.
prepend_digits : ℕ → ℕ → Text → Text
prepend_digits zero n rest = rest
prepend_digits (suc f) n rest =
    let digits = (48 + n % 10) ∷ rest in
    let more = prepend_digits f (n / 10) digits in if eqb (n / 10) 0 then digits else more

unfoldable pub decimal : ℕ → Text
unfolding prepend_digits
decimal n = prepend_digits (suc n) n []

read_digits : ℕ → Text → ℕ
read_digits acc [] = acc
read_digits acc (c ∷ cs) = read_digits (acc * 10 + (c - 48)) cs

read-prepend_digits :
    (f n : ℕ) (rest : Text) → n < f → read_digits 0 (prepend_digits f n rest) ≡ read_digits n rest
unfolding prepend_digits read_digits
read-prepend_digits zero n rest h = elim h [ ]
read-prepend_digits (suc f) n rest h = elim (Bool-cases (eqb (n / 10) 0)) [
  | inl e ↦ rw e (ap (λ k. read_digits k rest) (ground (arith, e)))
  | inr e ↦ rw e (
      read-prepend_digits f (n / 10) ((48 + n % 10) ∷ rest) (ground (arith, e))
      ∙ ap (λ k. read_digits k rest) (omega arith))
]

pub decimal_injective : (m n : ℕ) → decimal m ≡ decimal n → m ≡ n
unfolding decimal read_digits
decimal_injective m n e =
    sym (read-prepend_digits (suc m) m [] (omega arith))
    ∙ ap (read_digits 0) e
    ∙ read-prepend_digits (suc n) n [] (omega arith)

twelve : decimal 120 ≡ 49 ∷ 50 ∷ 48 ∷ []
unfolding decimal
twelve = refl
