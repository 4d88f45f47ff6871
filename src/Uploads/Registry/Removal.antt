-- ===== src/Uploads/Registry/Removal.antt =====
-- client/uploads.go: `Uploads.Remove`, as a change of what `Uploads.Get` returns.
use file_upload.Prelude.{
  ◌≡◌, refl, ◌∙◌, Bool, false, ◌||◌, none, some, List, [], ◌∷◌, arith, Option-cases, if◌then◌else◌,
  inl, inr,
}
use file_upload.Prelude.Text.{Text, text_beq}
use file_upload.Prelude.Dict.{Dict, lookup, delete, keys, lookup-delete}
use file_upload.Uploads.Heap.{Upload, single, multi, Heap}
use file_upload.Uploads.Registry.{get, delete_all, remove}

abbrev pub contains : List Text → Text → Bool
contains [] k = false
contains (j ∷ js) k = text_beq j k || contains js k

-- The correlation IDs that go with `id`: an upload of several files takes its children along.
unfoldable pub removed_ids : Text → Heap → List Text
removed_ids id h = elim (lookup id h.uploads) [
  | none ↦ []
  | some (single a) ↦ id ∷ []
  | some (multi m) ↦ id ∷ keys (h.multis m).children
]

lookup-delete_all :
    (k : Text) (ks : List Text) (d : Dict Upload)
    → lookup k (delete_all ks d) ≡ (if contains ks k then none else lookup k d)
unfolding delete_all
lookup-delete_all k [] d = refl
lookup-delete_all k (j ∷ js) d =
    lookup-delete_all k js (delete j d) ∙ ground (arith, lookup-delete k j d)

-- After `Remove` the registry knows neither the ID nor, for an upload of several files, the IDs of
-- its children; every other ID gives what it gave before.
pub get-remove :
    (k id : Text) (h : Heap)
    → get k (remove id h) ≡ (if contains (removed_ids id h) k then none else get k h)
unfolding get remove removed_ids
get-remove k id h = elim (Option-cases (lookup id h.uploads)) [
  | inl e ↦ rw (e, remove, removed_ids)
  | inr (single a, e) ↦ rw (e, remove, removed_ids) (ground (arith, lookup-delete k id h.uploads))
  | inr (multi m, e) ↦
      rw (e, remove, removed_ids)
        (lookup-delete_all k (keys (h.multis m).children) (delete id h.uploads)
          ∙ ground (arith, lookup-delete k id h.uploads))
]
