-- ===== src/Uploads/Methods/Ending.antt =====
-- client/uploads.go: what `cancel` and `uploadFailed` share, the closing of files and the removals from
-- the registry.
use file_upload.Prelude.{
  ◌≢◌, ℕ, ◌≡◌, refl, ap, ◌∙◌, Bool, true, false, Option, none, some, List, [], ◌∷◌, ◌++◌, arith,
}
use file_upload.Prelude.Text.{text_beq_ne, Text, text_beq_refl}
use file_upload.Prelude.Dict.{Dict, lookup, keys}
use file_upload.Uploads.Multi.{MultiUpload, Outcome}
use file_upload.Uploads.Heap.{update_self, Upload, single, multi, Heap, update, commit}
use file_upload.Uploads.Registry.{get, remove}
use file_upload.Uploads.Registry.Removal.{contains, removed_ids, get-remove}
use file_upload.Uploads.Methods.{
  without_child, remove_child, internal_cancel, cancel_at, cancel_children, cancel_uploads,
  close_down,
}

abbrev pub is_open : Option Bool → Bool
is_open none = false
is_open (some b) = b

-- `Remove` only changes the registry.
pub remove-frame :
    (id : Text) (h : Heap)
    → ((remove id h).multis ≡ h.multis)
      × ((remove id h).singles ≡ h.singles)
      × ((remove id h).events ≡ h.events)
unfolding remove
remove-frame id h = ground arith

-- `cancelUploads` only changes the files.
pub cancel_children-frame :
    (d : Dict ℕ) (h : Heap)
    → ((cancel_children d h).multis ≡ h.multis)
      × ((cancel_children d h).uploads ≡ h.uploads)
      × ((cancel_children d h).events ≡ h.events)
unfolding cancel_children
cancel_children-frame [] h = (refl, refl, refl)
cancel_children-frame ((id, a) ∷ rest) h = cancel_children-frame rest (cancel_at a h)

-- A file that is closed stays closed, and that of `a` is closed.
cancel_at_closes :
    (a b : ℕ) (h : Heap)
    → ((is_open (h.singles b).file ≡ false) → is_open ((cancel_at a h).singles b).file ≡ false)
      × (is_open ((cancel_at a h).singles a).file ≡ false)
unfolding cancel_at internal_cancel update
cancel_at_closes a b h = (λ e. ground (arith, e), ground arith)

-- None of the children has an open file.
abbrev pub AllClosed : Dict ℕ → Heap → Type 0
AllClosed [] h = Unit
AllClosed ((id, a) ∷ rest) h = (is_open (h.singles a).file ≡ false) × AllClosed rest h

pub cancel_children_keeps :
    (d : Dict ℕ) (b : ℕ) (h : Heap)
    → is_open (h.singles b).file ≡ false
    → is_open ((cancel_children d h).singles b).file ≡ false
unfolding cancel_children
cancel_children_keeps [] b h e = e
cancel_children_keeps ((id, a) ∷ rest) b h e =
    cancel_children_keeps rest b (cancel_at a h) ((cancel_at_closes a b h).0 e)

pub cancel_children-AllClosed : (d : Dict ℕ) (h : Heap) → AllClosed d (cancel_children d h)
unfolding cancel_children
cancel_children-AllClosed [] h = tt
cancel_children-AllClosed ((id, a) ∷ rest) h = (
  cancel_children_keeps rest a (cancel_at a h) (cancel_at_closes a a h).1,
  cancel_children-AllClosed rest (cancel_at a h),
)

-- What remains of an upload after it has been closed down.
pub record ClosedDown (m : ℕ) (o : Outcome) (h g : Heap) : Type 0 where
  pub upload : g.multis m ≡ o.upload
  pub told : g.events ≡ h.events ++ o.events
  pub forgotten : get o.upload.correlation_id g ≡ none
  pub children_forgotten : (k : Text) → contains (keys o.upload.children) k ≡ true → get k g ≡ none
  pub closed : AllClosed o.upload.children g

close_down-eq :
    (m : ℕ) (o : Outcome) (h : Heap)
    → o.done ≡ false
    → close_down m o h
      ≡ remove o.upload.correlation_id (cancel_children o.upload.children (commit m o h))
unfolding close_down cancel_uploads
close_down-eq m o h e = rw e (ap closing (update_self h.multis m o.upload))
  where
    closing : MultiUpload → Heap
    closing u = remove u.correlation_id (cancel_children u.children (commit m o h))

AllClosed-singles :
    (d : Dict ℕ) (h g : Heap) → g.singles ≡ h.singles → AllClosed d h → AllClosed d g
AllClosed-singles [] h g e c = tt
AllClosed-singles ((id, a) ∷ rest) h g e c =
    (ap (λ f. is_open (f a).file) e ∙ c.0, AllClosed-singles rest h g e c.1)

-- After the files are closed, `Remove` takes the upload and its children out of the registry.
removed_ids-close_down :
    (m : ℕ) (o : Outcome) (h : Heap)
    → get o.upload.correlation_id h ≡ some (multi m)
    → removed_ids o.upload.correlation_id (cancel_children o.upload.children (commit m o h))
      ≡ o.upload.correlation_id ∷ keys o.upload.children
unfolding removed_ids get
removed_ids-close_down m o h known =
    ap (λ d. found (lookup id d) c.multis) frame.1
    ∙ ap (λ r. found r c.multis) known
    ∙ ap (λ f. id ∷ keys (f m).children) frame.0
    ∙ ap (λ u. id ∷ keys u.children) (update_self h.multis m o.upload)
  where
    id : Text
    id = o.upload.correlation_id

    c : Heap
    c = cancel_children o.upload.children (commit m o h)

    frame :
        (c.multis ≡ update h.multis m o.upload)
        × (c.uploads ≡ h.uploads)
        × (c.events ≡ h.events ++ o.events)
    frame = cancel_children-frame o.upload.children (commit m o h)

    found : Option Upload → (ℕ → MultiUpload) → List Text
    found r f = elim r [
      | none ↦ []
      | some (single a) ↦ id ∷ []
      | some (multi n) ↦ id ∷ keys (f n).children
    ]

pub close_down-ClosedDown :
    (m : ℕ) (o : Outcome) (h : Heap)
    → o.done ≡ false
    → get o.upload.correlation_id h ≡ some (multi m)
    → ClosedDown m o h (close_down m o h)
close_down-ClosedDown m o h e known = rw (close_down-eq m o h e) (record {
  upload = ap (λ f. f m) ((remove-frame id c).0 ∙ frame.0) ∙ update_self h.multis m o.upload;
  told = (remove-frame id c).2 ∙ frame.2;
  forgotten = gone id (rw text_beq_refl);
  children_forgotten = λ k in_children. gone k (ground (arith, in_children));
  closed =
      AllClosed-singles o.upload.children c _ (remove-frame id c).1
        (cancel_children-AllClosed o.upload.children (commit m o h));
})
  where
    id : Text
    id = o.upload.correlation_id

    c : Heap
    c = cancel_children o.upload.children (commit m o h)

    frame :
        (c.multis ≡ update h.multis m o.upload)
        × (c.uploads ≡ h.uploads)
        × (c.events ≡ h.events ++ o.events)
    frame = cancel_children-frame o.upload.children (commit m o h)

    gone : (k : Text) → contains (id ∷ keys o.upload.children) k ≡ true → get k (remove id c) ≡ none
    gone k e' = get-remove k id c ∙ rw (removed_ids-close_down m o h known, e')

-- The child at `a` has left its upload at `m`, which is still registered.
pub get-remove_child :
    (m : ℕ) (id k : Text) (a : ℕ) (h : Heap)
    → get id h ≡ some (single a)
    → id ≢ k
    → get k (remove_child m id h) ≡ get k h
unfolding get remove_child removed_ids
get-remove_child m id k a h known ne =
    get-remove k id _ ∙ rw (known, removed_ids, text_beq_ne id k ne)

pub multi-remove_child :
    (m : ℕ) (id : Text) (h : Heap)
    → ((remove_child m id h).multis m ≡ without_child id (h.multis m))
      × ((remove_child m id h).events ≡ h.events)
unfolding remove_child
multi-remove_child m id h = (
  ap (λ f. f m) (remove-frame id _).0 ∙ update_self h.multis m (without_child id (h.multis m)),
  (remove-frame id _).2,
)
