-- ===== src/Uploads/Consistency.antt =====
-- client/uploads.go: what the methods leave alone, and the names in the registry.
pub mod Steps
pub mod Tasks
pub mod Adding
pub mod Runs
mod Tests
use file_upload.Prelude.{ℕ, ◌<◌, ◌≡◌, ◌⊎◌, refl, sym, ◌∙◌, inl, inr, Bool, true, false, none, some}
use mathlib.Core.Path.{subst}
use file_upload.Uploads.Multi.{MultiUpload}
use file_upload.Prelude.Text.{Text}
use file_upload.Uploads.Heap.{Upload, single, multi, Heap}
use file_upload.Uploads.Registry.{get}

abbrev pub has_status : MultiUpload → Bool
has_status u = elim u.status [ none ↦ false | some s ↦ true ]

-- Under each ID the registry holds an upload that was made and has this ID, and a file's upload was
-- made too. The upload of a file that was started has a status.
pub record IsRegistry (h : Heap) : Type 0 where
  pub single_old : (k : Text) (a : ℕ) → get k h ≡ some (single a) → a < h.next
  pub multi_old : (k : Text) (m : ℕ) → get k h ≡ some (multi m) → m < h.next
  pub single_named :
      (k : Text) (a : ℕ) → get k h ≡ some (single a) → (h.singles a).correlation_id ≡ k
  pub multi_named : (k : Text) (m : ℕ) → get k h ≡ some (multi m) → (h.multis m).correlation_id ≡ k
  pub parent_old : (k : Text) (a : ℕ) → get k h ≡ some (single a) → (h.singles a).parent < h.next
  pub started_old : (a : ℕ) → (h.singles a).started ≡ true → (h.singles a).parent < h.next
  pub started_status :
      (a : ℕ) → (h.singles a).started ≡ true → has_status (h.multis (h.singles a).parent) ≡ true

-- A file that is registered in `h`, and whose upload has a status in `g`.
abbrev pub IsStarting : ℕ → Heap → Heap → Type 0
IsStarting a h g =
    (k : Text) × (get k h ≡ some (single a)) × (has_status (g.multis (g.singles a).parent) ≡ true)

-- From `h` to `g` the registry gets no new entry, no upload gets another ID or another parent or
-- loses its status, and a file that becomes started is registered and its upload has a status.
pub record Narrowed (h g : Heap) : Type 0 where
  pub entries : (k : Text) (u : Upload) → get k g ≡ some u → get k h ≡ some u
  pub same_next : g.next ≡ h.next
  pub single_names : (a : ℕ) → (g.singles a).correlation_id ≡ (h.singles a).correlation_id
  pub multi_names : (m : ℕ) → (g.multis m).correlation_id ≡ (h.multis m).correlation_id
  pub parents : (a : ℕ) → (g.singles a).parent ≡ (h.singles a).parent
  pub statuses : (m : ℕ) → has_status (h.multis m) ≡ true → has_status (g.multis m) ≡ true
  pub begun :
      (a : ℕ) → (g.singles a).started ≡ true → ((h.singles a).started ≡ true) ⊎ IsStarting a h g

pub Narrowed-refl : (h : Heap) → Narrowed h h
Narrowed-refl h = record {
  entries = λ k u e. e;
  same_next = refl;
  single_names = λ a. refl;
  multi_names = λ m. refl;
  parents = λ a. refl;
  statuses = λ m e. e;
  begun = λ a e. inl e;
}

module _ {h g f : Heap} (p : Narrowed h g) (q : Narrowed g f) where
  begun_before :
      (a : ℕ)
      → ((h.singles a).started ≡ true) ⊎ IsStarting a h g
      → ((h.singles a).started ≡ true) ⊎ IsStarting a h f
  begun_before a (inl e) = inl e
  begun_before a (inr (k, e, s)) =
      inr (k, e, subst (λ m. has_status (f.multis m) ≡ true) (sym (q.parents a)) (q.statuses _ s))

  begun_twice :
      (a : ℕ)
      → ((g.singles a).started ≡ true) ⊎ IsStarting a g f
      → ((h.singles a).started ≡ true) ⊎ IsStarting a h f
  begun_twice a (inl e) = begun_before a (p.begun a e)
  begun_twice a (inr (k, e, s)) = inr (k, p.entries k (single a) e, s)

  pub Narrowed-trans : Narrowed h f
  Narrowed-trans = record {
    entries = λ k u e. p.entries k u (q.entries k u e);
    same_next = q.same_next ∙ p.same_next;
    single_names = λ a. q.single_names a ∙ p.single_names a;
    multi_names = λ m. q.multi_names m ∙ p.multi_names m;
    parents = λ a. q.parents a ∙ p.parents a;
    statuses = λ m e. q.statuses m (p.statuses m e);
    begun = λ a e. begun_twice a (q.begun a e);
  }

module _ {h g : Heap} (n : Narrowed h g) (r : IsRegistry h) where
  begun_old :
      (a : ℕ)
      → ((h.singles a).started ≡ true) ⊎ IsStarting a h g
      → ((h.singles a).parent < h.next) × (has_status (g.multis (g.singles a).parent) ≡ true)
  begun_old a (inl e) = (
    r.started_old a e,
    subst (λ m. has_status (g.multis m) ≡ true) (sym (n.parents a))
        (n.statuses _ (r.started_status a e)),
  )
  begun_old a (inr (k, e, s)) = (r.parent_old k a e, s)

  pub IsRegistry-Narrowed : IsRegistry g
  IsRegistry-Narrowed = record {
    single_old = λ k a e. rw (n.same_next) (r.single_old k a (n.entries k (single a) e));
    multi_old = λ k m e. rw (n.same_next) (r.multi_old k m (n.entries k (multi m) e));
    single_named = λ k a e. n.single_names a ∙ r.single_named k a (n.entries k (single a) e);
    multi_named = λ k m e. n.multi_names m ∙ r.multi_named k m (n.entries k (multi m) e);
    parent_old =
        λ k a e. rw (n.same_next, n.parents a) (r.parent_old k a (n.entries k (single a) e));
    started_old = λ a e. rw (n.same_next, n.parents a) (begun_old a (n.begun a e)).0;
    started_status = λ a e. (begun_old a (n.begun a e)).1;
  }
