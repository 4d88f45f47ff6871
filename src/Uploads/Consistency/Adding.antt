-- ===== src/Uploads/Consistency/Adding.antt =====
-- client/uploads.go: `AddMulti` keeps the names in the registry.
use file_upload.Prelude.{
  length, ℕ, suc, ◌<◌, ◌≡◌, refl, ◌∙◌, Bool, Option, none, some, List, [], ◌∷◌, arith,
}
use file_upload.Prelude.Text.{Text, text_beq_iff}
use file_upload.Prelude.Dict.{lookup, insert, lookup-insert}
use file_upload.Prelude.Int.{pos, ℤ, ◌+ℤ◌, wrap, ℤ_beq}
use file_upload.Uploads.Multi.{MultiUpload, not_supported}
use file_upload.Uploads.Multi.Actions.{with_child}
use file_upload.Uploads.Heap.{Heap, single, multi, update, set_multi, set_single}
use file_upload.Uploads.Registry.{
  get, add_single, add_size, measure, add_paths, add_multi, child_id,
}
use file_upload.Uploads.Consistency.{
  IsRegistry, IsRegistry-Narrowed, Narrowed, Narrowed-refl, Narrowed-trans,
}
use file_upload.Uploads.Consistency.Steps.{set_single-Narrowed, set_multi-Narrowed, if-Narrowed}

-- The registry while files are added to the upload at `m`, whose ID is `id`.
record IsAdding (id : Text) (m : ℕ) (h : Heap) : Type 0 where
  registry : IsRegistry h
  old : m < h.next
  named : (h.multis m).correlation_id ≡ id

IsAdding-Narrowed :
    {id : Text} {m : ℕ} {h g : Heap} → Narrowed h g → IsAdding id m h → IsAdding id m g
IsAdding-Narrowed {m} n i = record {
  registry = IsRegistry-Narrowed n i.registry;
  old = rw (n.same_next) i.old;
  named = n.multi_names m ∙ i.named;
}

add_single-IsRegistry :
    (m : ℕ) (id path : Text) (h : Heap)
    → m < h.next
    → IsRegistry h
    → IsRegistry (add_single m id path h)
unfolding add_single with_child update get
add_single-IsRegistry m id path h old r = record {
  parent_old = λ k a e. ground (
    arith,
    e,
    old,
    r.parent_old k a,
    r.single_old k a,
    lookup-insert k id (single h.next) h.uploads,
  );
  started_old = λ a e. ground (arith, e, r.started_old a);
  started_status = λ a e. ground (arith, e, r.started_status a);
  single_old =
      λ k a e. ground (arith, e, r.single_old k a, lookup-insert k id (single h.next) h.uploads);
  multi_old =
      λ k n e. ground (arith, e, r.multi_old k n, lookup-insert k id (single h.next) h.uploads);
  single_named = λ k a e. ground (
    arith,
    e,
    r.single_named k a,
    r.single_old k a,
    lookup-insert k id (single h.next) h.uploads,
    text_beq_iff id k,
  );
  multi_named = λ k n e.
      ground (
        arith,
        e,
        r.multi_named k n,
        r.multi_old k n,
        lookup-insert k id (single h.next) h.uploads,
      );
}

module _ (stat : Text → Option ℤ) where
  size_known :
      (m : ℕ) (id : Text) (size : ℤ) (g : Heap) (child : Option ℕ)
      → Narrowed g (elim child [
        | none ↦ g
        | some a ↦ set_single a (record (g.singles a) { total_size_bytes = size }) g
      ])
  size_known m id size g none = Narrowed-refl g
  size_known m id size g (some a) = set_single-Narrowed a _ g refl refl refl

  add_size-Narrowed : (m : ℕ) (id : Text) (size : ℤ) (h : Heap) → Narrowed h (add_size m id size h)
  unfolding add_size
  add_size-Narrowed m id size h =
      let u = h.multis m in
      let u' = record u { total_size_bytes = wrap (u.total_size_bytes +ℤ size) } in
      Narrowed-trans (set_multi-Narrowed m u' h refl (λ e. e))
        (size_known m id size (set_multi m u' h) (lookup id u.children))

  measured :
      (m : ℕ) (id : Text) (h : Heap) (size : Option ℤ)
      → Narrowed h (elim size [
        | none ↦ set_multi m (record (h.multis m) { total_size_bytes = not_supported }) h
        | some n ↦ add_size m id n h
      ])
  measured m id h none = set_multi-Narrowed m _ h refl (λ e. e)
  measured m id h (some n) = add_size-Narrowed m id n h

  measure-Narrowed : (m : ℕ) (id path : Text) (h : Heap) → Narrowed h (measure stat m id path h)
  unfolding measure
  measure-Narrowed m id path h =
      if-Narrowed (ℤ_beq (h.multis m).total_size_bytes not_supported) (Narrowed-refl h)
        (measured m id h (stat path))

  add_single-IsAdding :
      (m : ℕ) (id child path : Text) (h : Heap)
      → IsAdding id m h
      → IsAdding id m (add_single m child path h)
  unfolding add_single with_child update
  add_single-IsAdding m id child path h a = record {
    registry = add_single-IsRegistry m child path h a.old a.registry;
    old = omega (arith, a.old);
    named = ground (arith, a.named);
  }

  add_paths-IsAdding :
      (m : ℕ) (id : Text) (i : ℕ) (paths : List Text) (h : Heap)
      → IsAdding id m h
      → IsAdding id m (add_paths stat m id i paths h).0
  unfolding add_paths
  add_paths-IsAdding m id i [] h a = a
  add_paths-IsAdding m id i (path ∷ paths) h a =
      let child = child_id id i in
      add_paths-IsAdding m id (suc i) paths (measure stat m child path (add_single m child path h))
        (IsAdding-Narrowed (measure-Narrowed m child path (add_single m child path h))
          (add_single-IsAdding m id child path h a))

  made :
      (u : MultiUpload) (h : Heap)
      → IsRegistry h
      → IsAdding u.correlation_id h.next (set_multi h.next u (record h { next = suc h.next }))
  unfolding get update
  made u h r = record {
    registry = record {
      single_old = λ k a e. omega (arith, r.single_old k a e);
      multi_old = λ k n e. omega (arith, r.multi_old k n e);
      single_named = λ k a e. r.single_named k a e;
      multi_named = λ k n e. ground (arith, r.multi_named k n e, r.multi_old k n e);
      parent_old = λ k a e. omega (arith, r.parent_old k a e);
      started_old = λ a e. omega (arith, r.started_old a e);
      started_status = λ a e. ground (arith, r.started_old a e, r.started_status a e);
    };
    old = omega arith;
    named = ground arith;
  }

  registered :
      (id : Text) (m : ℕ) (h : Heap)
      → IsAdding id m h
      → IsRegistry (record h { uploads = insert id (multi m) h.uploads })
  unfolding get
  registered id m h a = record {
    parent_old = λ k b e.
        ground (arith, e, a.registry.parent_old k b, lookup-insert k id (multi m) h.uploads);
    started_old = a.registry.started_old;
    started_status = a.registry.started_status;
    single_old = λ k b e.
        ground (arith, e, a.registry.single_old k b, lookup-insert k id (multi m) h.uploads);
    multi_old = λ k n e.
        ground (arith, e, a.registry.multi_old k n, a.old, lookup-insert k id (multi m) h.uploads);
    single_named = λ k b e.
        ground (arith, e, a.registry.single_named k b, lookup-insert k id (multi m) h.uploads);
    multi_named = λ k n e. ground (
      arith,
      e,
      a.registry.multi_named k n,
      a.named,
      lookup-insert k id (multi m) h.uploads,
      text_beq_iff id k,
    );
  }

  pub add_multi-IsRegistry :
      (id : Text) (paths : List Text) (delete_uploaded use_checksum : Bool) (server_cert : Text)
      (h : Heap)
      → IsRegistry h
      → IsRegistry (add_multi stat id paths delete_uploaded use_checksum server_cert h).0
  unfolding add_multi get
  add_multi-IsRegistry id paths delete_uploaded use_checksum server_cert h r =
      let u : MultiUpload = record {
        correlation_id = id;
        children = [];
        total_count = length paths;
        delete_uploaded = delete_uploaded;
        use_checksum = use_checksum;
        server_cert = server_cert;
        status = none;
        total_bytes_transferred = pos 0;
        total_size_bytes = pos 0;
      } in
      registered id h.next _ (add_paths-IsAdding h.next id 0 paths _ (made u h r))
