-- ===== src/Pool/Tally.antt =====
-- The states of the workers, by their index, and sums over them.
use aple.Base.{
  ℕ, zero, suc, ◌+◌, ◌≤◌, ◌<◌, ◌≡◌, refl, ◌==◌, if◌then◌else◌, Bool-cases, inl, inr, arith, ap,
}

-- Where a worker stands: at `sem_wait`, behind it, in a task, behind the loop, or at its end.
pub data Worker : Type 0 where
  waiting woken running ending done : Worker

abbrev pub set_worker : (ℕ → Worker) → ℕ → Worker → ℕ → Worker
set_worker f i w k = if k == i then w else f k

module _ (weight : Worker → ℕ) where
  abbrev pub sum : ℕ → (ℕ → Worker) → ℕ
  sum zero f = 0
  sum (suc n) f = sum n f + weight (f n)

  sum-set_beyond :
      (n : ℕ) (f : ℕ → Worker) (i : ℕ) (w : Worker) → n ≤ i → sum n (set_worker f i w) ≡ sum n f
  sum-set_beyond zero f i w h = refl
  sum-set_beyond (suc n) f i w h = ground (arith, sum-set_beyond n f i w)

  -- One worker's weight is exchanged.
  pub sum-set :
      (n : ℕ) (f : ℕ → Worker) (i : ℕ) (w : Worker)
      → i < n
      → sum n (set_worker f i w) + weight (f i) ≡ sum n f + weight w
  sum-set zero f i w h = absurd (omega arith)
  sum-set (suc n) f i w h = elim (Bool-cases (n == i)) [
    | inl t ↦ ground (arith, t, sum-set_beyond n f i w)
    | inr t ↦ ground (arith, t, sum-set n f i w)
  ]

  -- The same, for a worker whose state is known.
  pub exchanged :
      (n : ℕ) (f : ℕ → Worker) (i : ℕ) (old w : Worker)
      → i < n
      → f i ≡ old
      → sum n (set_worker f i w) + weight old ≡ sum n f + weight w
  exchanged n f i old w h e = omega (arith, sum-set n f i w h, ap weight e)

  pub weight-le : (n : ℕ) (f : ℕ → Worker) (i : ℕ) → i < n → weight (f i) ≤ sum n f
  weight-le zero f i h = absurd (omega arith)
  weight-le (suc n) f i h = elim (Bool-cases (n == i)) [
    | inl t ↦ ground (arith, t)
    | inr t ↦ ground (arith, t, weight-le n f i)
  ]

abbrev pub is_woken : Worker → ℕ
is_woken waiting = 0
is_woken woken = 1
is_woken running = 0
is_woken ending = 0
is_woken done = 0

abbrev pub is_over : Worker → ℕ
is_over waiting = 0
is_over woken = 0
is_over running = 0
is_over ending = 1
is_over done = 1
