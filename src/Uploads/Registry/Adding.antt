-- ===== src/Uploads/Registry/Adding.antt =====
-- client/uploads.go: `AddMulti`, as a change of what `Uploads.Get` returns, and the IDs that it makes.
use mathlib.Core.List.{append_cancel_left}
use file_upload.Prelude.{
  sym, refl, Bool, ℕ, suc, ◌+◌, ◌≤◌, ◌<◌, ◌≡◌, ◌≢◌, ap, ◌∙◌, Option, some, List, [], ◌∷◌, ◌++◌,
  length, length-append, arith, false,
}
use file_upload.Prelude.Text.{Text, bytes, text_beq_ne, text_beq_refl}
use file_upload.Prelude.Decimal.{decimal, decimal_injective}
use file_upload.Prelude.Dict.{Dict, insert, lookup, lookup-insert}
use file_upload.Prelude.Int.{ℤ}
use file_upload.Uploads.Heap.{multi, Upload, single, Heap, update}
use file_upload.Uploads.Registry.{
  add_multi, get, child_id, add_single, add_size, measure, add_paths,
}

-- The children of one upload have different IDs.
child_id_injective : (id : Text) (i j : ℕ) → child_id id i ≡ child_id id j → i ≡ j
unfolding child_id
child_id_injective id i j h =
    omega (arith, decimal_injective (i + 1) (j + 1) (cc (append_cancel_left id _ _ h)))

child_id-ne : (id : Text) (i : ℕ) → child_id id i ≢ id
unfolding child_id
child_id-ne id i h = omega (arith, ap length h, length-append {0} id (bytes "#" ++ decimal (i + 1)))

-- The file `path` is registered under `id`, as a child of the upload at `m`, not yet started.
pub record Registered (id path : Text) (m : ℕ) (h : Heap) : Type 0 where
  pub address : ℕ
  pub known : get id h ≡ some (single address)
  pub old : address < h.next
  pub same_id : (h.singles address).correlation_id ≡ id
  pub same_path : (h.singles address).file_path ≡ path
  pub same_parent : (h.singles address).parent ≡ m
  pub not_started : (h.singles address).started ≡ false

-- The IDs of the children, in the order of their files.
abbrev pub child_ids : Text → ℕ → List Text → List Text
child_ids id i [] = []
child_ids id i (path ∷ paths) = child_id id i ∷ child_ids id (suc i) paths

-- Each of the paths is registered, under the IDs from the `i`-th on.
abbrev pub AllRegistered : Text → ℕ → List Text → ℕ → Heap → Type 0
AllRegistered id i [] m h = Unit
AllRegistered id i (path ∷ paths) m h =
    Registered (child_id id i) path m h × AllRegistered id (suc i) paths m h

module _ (stat : Text → Option ℤ) where
  -- What `measure` leaves alone.
  record Framed (h g : Heap) : Type 0 where
    uploads : g.uploads ≡ h.uploads
    next : g.next ≡ h.next
    fields :
        (a : ℕ)
        → ((g.singles a).correlation_id ≡ (h.singles a).correlation_id)
          × ((g.singles a).file_path ≡ (h.singles a).file_path)
          × ((g.singles a).parent ≡ (h.singles a).parent)
          × ((g.singles a).started ≡ (h.singles a).started)

  add_size-Framed : (m : ℕ) (id : Text) (size : ℤ) (h : Heap) → Framed h (add_size m id size h)
  unfolding add_size update
  add_size-Framed m id size h = record {
    uploads = ground arith;
    next = ground arith;
    fields = λ a. ground arith;
  }

  measure-Framed : (m : ℕ) (id path : Text) (h : Heap) → Framed h (measure stat m id path h)
  unfolding measure update
  measure-Framed m id path h = record {
    uploads = ground (arith, add_size-Framed m id);
    next = ground arith;
    fields = λ a. ground arith;
  }

  Framed-Registered :
      {h g : Heap} {k path : Text} {m : ℕ}
      → Framed h g
      → Registered k path m h
      → Registered k path m g
  unfolding get
  Framed-Registered f r = record {
    address = r.address;
    known = rw (f.uploads) r.known;
    old = rw (f.next) r.old;
    same_id = (f.fields r.address).0 ∙ r.same_id;
    same_path = (f.fields r.address).1 ∙ r.same_path;
    same_parent = (f.fields r.address).2 ∙ r.same_parent;
    not_started = (f.fields r.address).3 ∙ r.not_started;
  }

  add_single-Registered :
      (m : ℕ) (id path : Text) (h : Heap) → Registered id path m (add_single m id path h)
  unfolding get add_single update
  add_single-Registered m id path h = record {
    address = h.next;
    known = ground (arith, lookup-insert id id (single h.next) h.uploads, text_beq_refl id);
    old = omega arith;
    same_id = ground arith;
    same_path = ground arith;
    same_parent = ground arith;
    not_started = ground arith;
  }

  add_single_keeps :
      (m : ℕ) (id path : Text) {h : Heap} {k path' : Text}
      → id ≢ k
      → Registered k path' m h
      → Registered k path' m (add_single m id path h)
  unfolding get add_single update
  add_single_keeps m id path {h} {k} ne r = record {
    address = r.address;
    known =
        ground (arith, r.known, lookup-insert k id (single h.next) h.uploads, text_beq_ne id k ne);
    old = omega (arith, r.old);
    same_id = ground (arith, r.same_id, r.old);
    same_path = ground (arith, r.same_path, r.old);
    same_parent = ground (arith, r.same_parent, r.old);
    not_started = ground (arith, r.not_started, r.old);
  }

  add_paths_keeps :
      (m : ℕ) (id : Text) (i : ℕ) (paths : List Text) {h : Heap} {k path' : Text}
      → ((j : ℕ) → i ≤ j → child_id id j ≢ k)
      → Registered k path' m h
      → Registered k path' m (add_paths stat m id i paths h).0
  unfolding add_paths
  add_paths_keeps m id i [] ne r = r
  add_paths_keeps m id i (path ∷ paths) {h} ne r =
      add_paths_keeps m id (suc i) paths (λ j le. ne j (omega arith))
        (Framed-Registered
          (measure-Framed m (child_id id i) path (add_single m (child_id id i) path h))
          (add_single_keeps m (child_id id i) path (ne i (omega arith)) r))

  add_paths-AllRegistered :
      (m : ℕ) (id : Text) (i : ℕ) (paths : List Text) (h : Heap)
      → AllRegistered id i paths m (add_paths stat m id i paths h).0
  unfolding add_paths
  add_paths-AllRegistered m id i [] h = tt
  add_paths-AllRegistered m id i (path ∷ paths) h = (
    add_paths_keeps m id (suc i) paths (λ j le e. omega (arith, child_id_injective id j i e))
        (Framed-Registered
          (measure-Framed m (child_id id i) path (add_single m (child_id id i) path h))
          (add_single-Registered m (child_id id i) path h)),
    add_paths-AllRegistered m id (suc i) paths _,
  )

  get-measure :
      (k : Text) (m : ℕ) (id path : Text) (h : Heap) → get k (measure stat m id path h) ≡ get k h
  unfolding get
  get-measure k m id path h = ap (lookup k) (measure-Framed m id path h).uploads

  get-add_single :
      (k : Text) (m : ℕ) (id path : Text) (h : Heap)
      → id ≢ k
      → get k (add_single m id path h) ≡ get k h
  unfolding get add_single
  get-add_single k m id path h ne =
      ground (arith, lookup-insert k id (single h.next) h.uploads, text_beq_ne id k ne)

  -- Adding files changes no other entry of the registry.
  get-add_paths :
      (k : Text) (m : ℕ) (id : Text) (i : ℕ) (paths : List Text) (h : Heap)
      → ((j : ℕ) → i ≤ j → child_id id j ≢ k)
      → get k (add_paths stat m id i paths h).0 ≡ get k h
  unfolding add_paths
  get-add_paths k m id i [] h ne = refl
  get-add_paths k m id i (path ∷ paths) h ne =
      get-add_paths k m id (suc i) paths _ (λ j le. ne j (omega arith))
      ∙ get-measure k m (child_id id i) path _
      ∙ get-add_single k m (child_id id i) path h (ne i (omega arith))

  add_paths-child_ids :
      (m : ℕ) (id : Text) (i : ℕ) (paths : List Text) (h : Heap)
      → (add_paths stat m id i paths h).1 ≡ child_ids id i paths
  unfolding add_paths
  add_paths-child_ids m id i [] h = refl
  add_paths-child_ids m id i (path ∷ paths) h =
      ap (◌∷◌ (child_id id i)) (add_paths-child_ids m id (suc i) paths _)

  Registered-insert :
      (id : Text) {k path : Text} {m : ℕ} (u : Upload) {h : Heap}
      → id ≢ k
      → Registered k path m h
      → Registered k path m (record h { uploads = insert id u h.uploads })
  unfolding get
  Registered-insert id {k} u {h} ne r = record {
    address = r.address;
    known = ground (arith, r.known, lookup-insert k id u h.uploads, text_beq_ne id k ne);
    old = r.old;
    same_id = r.same_id;
    same_path = r.same_path;
    same_parent = r.same_parent;
    not_started = r.not_started;
  }

  AllRegistered-insert :
      (id : Text) (i : ℕ) (paths : List Text) (m : ℕ) (u : Upload) (h : Heap)
      → AllRegistered id i paths m h
      → AllRegistered id i paths m (record h { uploads = insert id u h.uploads })
  AllRegistered-insert id i [] m u h r = tt
  AllRegistered-insert id i (path ∷ paths) m u h r = (
    Registered-insert id u (λ e. child_id-ne id i (sym e)) r.0,
    AllRegistered-insert id (suc i) paths m u h r.1,
  )

  -- `AddMulti` returns the IDs of the children in the order of their files, and registers the upload
  -- under its ID and each file under its child's ID, not yet started.
  pub add_multi-AllRegistered :
      (id : Text) (paths : List Text) (remove_them checksum : Bool) (cert : Text) (h : Heap)
      → let (g, ids) = add_multi stat id paths remove_them checksum cert h in
        (ids ≡ child_ids id 0 paths)
        × (get id g ≡ some (multi h.next))
        × AllRegistered id 0 paths h.next g
  unfolding get add_multi
  add_multi-AllRegistered id paths remove_them checksum cert h = (
    add_paths-child_ids h.next id 0 paths _,
    insert-lookup id (multi h.next) _,
    AllRegistered-insert id 0 paths h.next (multi h.next) _
        (add_paths-AllRegistered h.next id 0 paths _),
  )
    where
      insert-lookup :
          (id : Text) (u : Upload) (d : Dict Upload) → lookup id (insert id u d) ≡ some u
      insert-lookup id u d = rw (lookup-insert id id u d, text_beq_refl id)

  -- `AddMulti` changes no entry of the registry but those of the upload and of its children.
  pub get-add_multi :
      (k id : Text) (paths : List Text) (remove_them checksum : Bool) (cert : Text) (h : Heap)
      → id ≢ k
      → ((j : ℕ) → child_id id j ≢ k)
      → get k (add_multi stat id paths remove_them checksum cert h).0 ≡ get k h
  unfolding get add_multi
  get-add_multi k id paths remove_them checksum cert h ne ne' =
      lookup-insert k id (multi h.next) _
      ∙ rw (text_beq_ne id k ne) (get-add_paths k h.next id 0 paths _ (λ j le. ne' j))
