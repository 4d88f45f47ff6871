-- ===== src/Uploads/Registry/Tests.antt =====
-- Each theorem on the registry at an upload of two files.
use file_upload.Prelude.{◌≡◌, true, false, Option, some, none, refl, [], ◌∷◌}
use file_upload.Prelude.Text.{Text, bytes}
use file_upload.Prelude.Int.{ℤ, pos}
use file_upload.Prelude.Dict.{lookup}
use file_upload.Uploads.Heap.{multi}
use file_upload.Uploads.Registry.{lookup, new_uploads, get, add_multi}
use file_upload.Uploads.Registry.Adding.{child_ids, AllRegistered, add_multi-AllRegistered}
use file_upload.Uploads.Examples.{no_uploads, running}

abbrev size_of : Text → Option ℤ
size_of path = some (pos 3)

add_multi-AllRegistered_example :
    let (g, ids) =
      add_multi size_of (bytes "u") (bytes "a" ∷ bytes "b" ∷ []) true false [] no_uploads in
    (ids ≡ child_ids (bytes "u") 0 (bytes "a" ∷ bytes "b" ∷ []))
    × (get (bytes "u") g ≡ some (multi 0))
    × AllRegistered (bytes "u") 0 (bytes "a" ∷ bytes "b" ∷ []) 0 g
add_multi-AllRegistered_example =
    add_multi-AllRegistered size_of (bytes "u") (bytes "a" ∷ bytes "b" ∷ []) true false []
      no_uploads

-- A new registry knows no upload.
nothing_known : get (bytes "u") (new_uploads running) ≡ none
unfolding get new_uploads lookup
nothing_known = refl
