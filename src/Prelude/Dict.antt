-- ===== src/Prelude/Dict.antt =====
-- Go maps with string keys, as association lists. The order of the list is the order in which a
-- `range` over the map visits it, which Go leaves open.
use mathlib.Core.Path.{◌≡◌, refl}
use mathlib.Core.List.{List, [], ◌∷◌}
use mathlib.Core.Option.{Option, none, some}
use native.Mathlib.Omega.{arith}
use file_upload.Prelude.Tests.{if◌then◌else◌}
use file_upload.Prelude.Text.{Text, text_beq, text_beq_iff}

abbrev pub Dict {ℓ} : Type ℓ → Type ℓ
Dict V = List (Text × V)

module _ {ℓ} {V : Type ℓ} where
  unfoldable pub lookup : Text → Dict V → Option V
  lookup k [] = none
  lookup k ((j, v) ∷ d) = if text_beq j k then some v else lookup k d

  unfoldable pub insert : Text → V → Dict V → Dict V
  insert k v [] = (k, v) ∷ []
  insert k v ((j, w) ∷ d) = if text_beq j k then (k, v) ∷ d else (j, w) ∷ insert k v d

  unfoldable pub delete : Text → Dict V → Dict V
  delete k [] = []
  delete k ((j, w) ∷ d) = let rest = delete k d in if text_beq j k then rest else (j, w) ∷ rest

  unfoldable pub keys : Dict V → List Text
  keys [] = []
  keys ((k, v) ∷ d) = k ∷ keys d

  -- No key is bound twice: what a Go map guarantees.
  abbrev pub IsMap : Dict V → Type ℓ
  IsMap [] = Unit
  IsMap ((k, v) ∷ d) = (lookup k d ≡ none) × IsMap d

  pub lookup-insert :
      (j k : Text) (v : V) (d : Dict V)
      → lookup j (insert k v d) ≡ (if text_beq k j then some v else lookup j d)
  unfolding lookup insert
  lookup-insert j k v [] = refl
  lookup-insert j k v ((i, w) ∷ d) =
      ground (arith, text_beq_iff i k, text_beq_iff i j, text_beq_iff k j, lookup-insert j k v d)

  pub lookup-delete :
      (j k : Text) (d : Dict V)
      → lookup j (delete k d) ≡ (if text_beq k j then none else lookup j d)
  unfolding lookup delete
  lookup-delete j k [] = ground arith
  lookup-delete j k ((i, w) ∷ d) =
      ground (arith, text_beq_iff i k, text_beq_iff i j, text_beq_iff k j, lookup-delete j k d)

  pub insert-IsMap : (k : Text) (v : V) (d : Dict V) → IsMap d → IsMap (insert k v d)
  unfolding lookup insert
  insert-IsMap k v [] m = (refl, tt)
  insert-IsMap k v ((i, w) ∷ d) m =
      ground
        (arith, text_beq_iff i k, text_beq_iff k i, insert-IsMap k v d m.1, lookup-insert i k v d)

  pub delete-IsMap : (k : Text) (d : Dict V) → IsMap d → IsMap (delete k d)
  unfolding delete
  delete-IsMap k [] m = tt
  delete-IsMap k ((i, w) ∷ d) m =
      ground (arith, text_beq_iff k i, delete-IsMap k d m.1, lookup-delete i k d)
