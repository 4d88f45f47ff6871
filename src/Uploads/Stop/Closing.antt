-- ===== src/Uploads/Stop/Closing.antt =====
-- client/uploads.go: what `Stop` cancels.
use file_upload.Prelude.{false, ℕ, ◌≡◌, refl, ◌∙◌, sym, some, [], ◌∷◌, arith, Bool-cases, inl, inr}
use mathlib.Core.Path.{subst}
use file_upload.Prelude.Text.{Text, text_beq}
use file_upload.Prelude.Dict.{Dict, lookup}
use file_upload.Uploads.Heap.{Heap, Upload, single, multi}
use file_upload.Uploads.Registry.{get}
use file_upload.Uploads.Methods.{cancel_uploads}
use file_upload.Uploads.Methods.Ending.{
  AllClosed, is_open, cancel_children-frame, cancel_children_keeps, cancel_children-AllClosed,
}
use file_upload.Uploads.Stop.{cancel_all}

cancel_all-frame :
    (us : Dict Upload) (h : Heap)
    → ((cancel_all us h).multis ≡ h.multis)
      × ((cancel_all us h).uploads ≡ h.uploads)
      × ((cancel_all us h).events ≡ h.events)
unfolding cancel_all cancel_uploads
cancel_all-frame [] h = (refl, refl, refl)
cancel_all-frame ((id, single a) ∷ us) h = cancel_all-frame us h
cancel_all-frame ((id, multi m) ∷ us) h =
    let (multis, uploads, events) = cancel_children-frame (h.multis m).children h in
    let (multis', uploads', events') = cancel_all-frame us (cancel_uploads m h) in
    (multis' ∙ multis, uploads' ∙ uploads, events' ∙ events)

-- A file that is closed stays closed.
cancel_all_keeps :
    (us : Dict Upload) (b : ℕ) (h : Heap)
    → is_open (h.singles b).file ≡ false
    → is_open ((cancel_all us h).singles b).file ≡ false
unfolding cancel_all cancel_uploads
cancel_all_keeps [] b h e = e
cancel_all_keeps ((id, single a) ∷ us) b h e = cancel_all_keeps us b h e
cancel_all_keeps ((id, multi m) ∷ us) b h e =
    cancel_all_keeps us b (cancel_uploads m h) (cancel_children_keeps (h.multis m).children b h e)

AllClosed-cancel_all :
    (d : Dict ℕ) (us : Dict Upload) (h : Heap) → AllClosed d h → AllClosed d (cancel_all us h)
AllClosed-cancel_all [] us h c = tt
AllClosed-cancel_all ((id, a) ∷ d) us h (closed, rest) =
    (cancel_all_keeps us a h closed, AllClosed-cancel_all d us h rest)

closes_registered :
    (us : Dict Upload) (id : Text) (m : ℕ) (h : Heap)
    → lookup id us ≡ some (multi m)
    → AllClosed (h.multis m).children (cancel_all us h)
unfolding cancel_all cancel_uploads lookup
closes_registered [] id m h e = cc e
closes_registered ((k, single a) ∷ us) id m h e = closes_registered us id m h (ground (arith, e))
closes_registered ((k, multi n) ∷ us) id m h e = elim (Bool-cases (text_beq k id)) [
  | inl found ↦
      let same : n ≡ m = ground (arith, e, found) in
      rw (sym same) (
        AllClosed-cancel_all (h.multis n).children us (cancel_uploads n h)
          (cancel_children-AllClosed (h.multis n).children h))
  | inr other ↦
      let frame = (cancel_children-frame (h.multis n).children h).0 in
      subst (λ f. AllClosed (f m).children (cancel_all us (cancel_uploads n h))) frame
        (closes_registered us id m (cancel_uploads n h) (ground (arith, e, other)))
]

-- What Stop does when its timeout has passed closes every open file of each registered upload, and
-- changes neither the status of an upload nor the registry; the listener is told nothing.
pub cancel_all-AllClosed :
    (h : Heap)
    → ((id : Text) (m : ℕ)
        → get id h ≡ some (multi m)
        → AllClosed (h.multis m).children (cancel_all h.uploads h))
      × ((cancel_all h.uploads h).multis ≡ h.multis)
      × ((cancel_all h.uploads h).uploads ≡ h.uploads)
      × ((cancel_all h.uploads h).events ≡ h.events)
unfolding get
cancel_all-AllClosed h =
    let (multis, uploads, events) = cancel_all-frame h.uploads h in
    ((λ id m e. closes_registered h.uploads id m h e), multis, uploads, events)
