-- ===== src/RingBuffer/Indices.antt =====
-- client/ring_buffer.go: indices of a slice that go round at its length.
use native.Mathlib.Nat.{mod-eq-sub-mod, mod-eq_of_lt, mod_self}
use file_upload.Prelude.{
  leb, ◌-◌, eqb, if◌then◌else◌, ℕ, suc, ◌+◌, ◌%◌, ◌<◌, ◌≡◌, ◌≢◌, arith, if◌then◌else◌,
}

-- Indices that go round at `m`, without remainders.
abbrev pub next : ℕ → ℕ → ℕ
next m t = (t + 1) % m

pub next_of : (m t : ℕ) → t < m → next m t ≡ (if eqb (t + 1) m then 0 else t + 1)
next_of m t h = grind (arith, mod_self m, mod-eq_of_lt {n = t + 1} {m = m})

pub distance :
    (m s t : ℕ) → s < m → t < m → (t + m - s) % m ≡ (if leb s t then t - s else t + m - s)
distance m s t h k = grind (
  arith,
  mod-eq_of_lt {n = t + m - s} {m = m},
  mod-eq-sub-mod {n = t + m - s} {m = m},
  mod-eq_of_lt {n = t - s} {m = m},
)

pub next-lt : (m t : ℕ) → t < m → next m t < m
next-lt m t h = omega arith

-- One step of the end index that does not meet the start makes the distance one longer.
pub grow :
    (m s t : ℕ)
    → s < m
    → t < m
    → next m t ≢ s
    → ((t + m - s) % m + 1 < m) × ((next m t + m - s) % m ≡ suc ((t + m - s) % m))
grow m s t h k ne =
    rw (distance m s t h k, distance m s (next m t) h (next-lt m t k))
      (ground (arith, next_of m t k))

-- If it meets the start, both indices move on, and the distance stays.
pub stay :
    (m s t : ℕ)
    → s < m
    → t < m
    → next m t ≡ s
    → ((t + m - s) % m + 1 ≡ m) × ((next m t + m - next m s) % m ≡ (t + m - s) % m)
stay m s t h k e =
    rw (distance m s t h k, distance m (next m s) (next m t) (next-lt m s h) (next-lt m t k))
      (ground (arith, next_of m t k, next_of m s h))

-- Taking the first of some elements makes the distance one shorter.
pub shrink : (m s t : ℕ) → s < m → t < m → s ≢ t → (t + m - s) % m ≡ suc ((t + m - next m s) % m)
shrink m s t h k ne =
    rw (distance m s t h k, distance m (next m s) t (next-lt m s h) k)
      (ground (arith, next_of m s h))
