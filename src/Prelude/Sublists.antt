-- ===== src/Prelude/Sublists.antt =====
-- The order of the elements that are left of a list, for what is delivered and told.
use mathlib.Core.List.{List, [], ◌∷◌, ◌++◌}
use file_upload.Prelude.Lists.{drop}

-- `xs` is `ys` without some of its elements.
pub data Sublist {ℓ} {A : Type ℓ} : List A → List A → Type ℓ where
  none_left : Sublist [] []
  left_out : {xs ys : List A} (y : A) → Sublist xs ys → Sublist xs (y ∷ ys)
  kept : {xs ys : List A} (x : A) → Sublist xs ys → Sublist (x ∷ xs) (x ∷ ys)

module _ {ℓ} {A : Type ℓ} where
  pub Sublist-refl : (xs : List A) → Sublist xs xs
  Sublist-refl [] = none_left
  Sublist-refl (x ∷ xs) = kept x (Sublist-refl xs)

  pub Sublist-trans :
      {ys zs : List A} → Sublist ys zs → {xs : List A} → Sublist xs ys → Sublist xs zs
  Sublist-trans none_left p = p
  Sublist-trans (left_out y q) p = left_out y (Sublist-trans q p)
  Sublist-trans (kept x q) (left_out _ p) = left_out x (Sublist-trans q p)
  Sublist-trans (kept x q) (kept _ p) = kept x (Sublist-trans q p)

  pub Sublist-after : (zs : List A) {xs ys : List A} → Sublist xs ys → Sublist (zs ++ xs) (zs ++ ys)
  Sublist-after [] p = p
  Sublist-after (z ∷ zs) p = kept z (Sublist-after zs p)

  pub Sublist-before :
      {xs ys : List A} (zs : List A) → Sublist xs ys → Sublist (xs ++ zs) (ys ++ zs)
  Sublist-before zs none_left = Sublist-refl zs
  Sublist-before zs (left_out y p) = left_out y (Sublist-before zs p)
  Sublist-before zs (kept x p) = kept x (Sublist-before zs p)

  pub Sublist-drop : (xs : List A) → Sublist (drop 1 xs) xs
  Sublist-drop [] = none_left
  Sublist-drop (x ∷ xs) = left_out x (Sublist-refl xs)

  pub Sublist-skip : (zs : List A) {xs ys : List A} → Sublist xs ys → Sublist xs (zs ++ ys)
  Sublist-skip [] p = p
  Sublist-skip (z ∷ zs) p = left_out z (Sublist-skip zs p)
