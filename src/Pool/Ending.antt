-- ===== src/Pool/Ending.antt =====
-- `pool_destroy` and the ends of the workers: that every run of theirs is finite and ends with all of them
-- done.
use aple.Base.{
  ℕ, zero, suc, ◌+◌, ◌*◌, ◌≤◌, ◌<◌, ◌≡◌, refl, ap, ◌∙◌, Option, none, some, length, ◌⊎◌, inl, inr,
  Bool-cases, ◌==◌, ==_iff, arith,
}
use aple.Pool.{Task, Pool, dequeue}
use aple.Pool.Tally.{
  Worker, waiting, woken, running, ending, done, sum, exchanged, weight-le, is_woken, is_over,
}
use aple.Pool.System.{
  stopping, System, takes, Works, wakes, gets, finishes, leaves, working, Reach, later,
}
use aple.Pool.Order.{Dequeues, dequeue-Dequeues}
use aple.Pool.Invariant.{Inv, Reach-Inv, owed, left, budget}
use aple.Pool.Drain.{over_means_drained}

-- The steps that a worker can take, at most, without a further task.
abbrev to_go : Worker → ℕ
to_go waiting = 3
to_go woken = 2
to_go running = 4
to_go ending = 1
to_go done = 0

-- The steps that all workers can take, at most: a task costs three.
abbrev pub measure : ℕ → System → ℕ
measure n s = 3 * length s.pool.head + sum to_go n s.workers

-- A number of steps of the workers.
pub data Runs : ℕ → System → System → Type 0 where
  halt : (s : System) → Runs 0 s s
  step : {k : ℕ} {s t u : System} → Works s t → Runs k t u → Runs (suc k) s u

takes-measure :
    (n : ℕ) (s : System) (i : ℕ) (r : Pool × Option Task)
    → i < n
    → s.workers i ≡ woken
    → Dequeues s.pool r
    → measure n (takes s i r) < measure n s
unfolding Dequeues
takes-measure n s i (p, none) h e (empty, same) =
    omega
      (arith, ap (λ (q : Pool). length q.head) same, exchanged to_go n s.workers i woken ending h e)
takes-measure n s i (p, some t) h e (at, q, value, total) =
    omega (arith, ap length at, exchanged to_go n s.workers i woken running h e)

Works-measure : {n : ℕ} {s t : System} → Inv n s → Works s t → measure n t < measure n s
Works-measure {n} v (wakes s i k h e full) =
    let g : i < n = omega (arith, h, v.size) in
    omega (arith, exchanged to_go n s.workers i waiting woken g e)
Works-measure {n} v (gets s i h e) =
    takes-measure n s i (dequeue s.pool) (omega (arith, h, v.size)) e
      (dequeue-Dequeues s.pool v.queue)
Works-measure {n} v (finishes s i h e) =
    let g : i < n = omega (arith, h, v.size) in
    omega (arith, exchanged to_go n s.workers i running waiting g e)
Works-measure {n} v (leaves s i h e) =
    let g : i < n = omega (arith, h, v.size) in
    omega (arith, exchanged to_go n s.workers i ending done g e)

takes-client : (s : System) (i : ℕ) (r : Pool × Option Task) → (takes s i r).client ≡ s.client
takes-client s i (p, none) = refl
takes-client s i (p, some t) = refl

Works-client : {s t : System} → Works s t → t.client ≡ s.client
Works-client (wakes s i k h e full) = refl
Works-client (gets s i h e) = takes-client s i (dequeue s.pool)
Works-client (finishes s i h e) = refl
Works-client (leaves s i h e) = refl

is_waiting : Worker → ℕ
is_waiting waiting = 1
is_waiting woken = 0
is_waiting running = 0
is_waiting ending = 0
is_waiting done = 0

one_state : (w : Worker) → is_waiting w + is_woken w + is_over w ≤ 1
unfolding is_waiting
one_state waiting = omega arith
one_state woken = omega arith
one_state running = omega arith
one_state ending = omega arith
one_state done = omega arith

states-le : (n : ℕ) (f : ℕ → Worker) → sum is_waiting n f + sum is_woken n f + sum is_over n f ≤ n
states-le zero f = omega arith
states-le (suc n) f = omega (arith, states-le n f, one_state (f n))

-- With `pool_destroy` through its posts, no worker waits on an empty semaphore.
posted :
    (n : ℕ) (s : System) (i : ℕ)
    → Inv n s
    → s.client ≡ stopping 0
    → i < n
    → s.workers i ≡ waiting
    → 1 ≤ s.pool.semaphore
unfolding is_waiting
posted n s i v e h w = omega (
  arith,
  v.balance,
  ap owed e,
  ap left e,
  ap (budget n) e,
  states-le n s.workers,
  weight-le is_waiting n s.workers i h,
  ap is_waiting w,
)

abbrev pub CanWork : System → Type 0
CanWork s = (t : System) × Works s t

moves_on :
    (n : ℕ) (s : System) (i : ℕ)
    → Inv n s
    → s.client ≡ stopping 0
    → i < n
    → (s.workers i ≡ done) ⊎ CanWork s
moves_on n s i v e h = by_state (s.workers i) refl s.pool.semaphore refl
  where
    g : i < s.pool.total_threads
    g = omega (arith, h, v.size)

    by_state :
        (w : Worker)
        → s.workers i ≡ w
        → (c : ℕ) → s.pool.semaphore ≡ c
        → (s.workers i ≡ done) ⊎ ((t : System) × Works s t)
    by_state waiting w zero c = absurd (omega (arith, c, posted n s i v e h w))
    by_state waiting w (suc k) c = inr (_, wakes s i k g w c)
    by_state woken w k c = inr (_, gets s i g w)
    by_state running w k c = inr (_, finishes s i g w)
    by_state ending w k c = inr (_, leaves s i g w)
    by_state done w k c = inl w

abbrev pub AllDone : ℕ → System → Type 0
AllDone m s = (i : ℕ) → i < m → s.workers i ≡ done

scan : (n m : ℕ) (s : System) → Inv n s → s.client ≡ stopping 0 → m ≤ n → AllDone m s ⊎ CanWork s
scan n zero s v e h = inl (λ i g. absurd (omega arith))
scan n (suc m) s v e h = elim (scan n m s v e (omega arith)) [
  | inr w ↦ inr w
  | inl all ↦ elim (moves_on n s m v e (omega arith)) [
    | inr w ↦ inr w
    | inl d ↦ inl (λ i g. elim (Bool-cases (i == m)) [
      | inl t ↦ ap s.workers ((==_iff i m).0 t) ∙ d
      | inr f ↦ all i (grind (arith, g, f))
    ])
  ]
]

-- In a pool with a worker, from every state that the threads reach with `pool_destroy` through its posts,
-- every run of steps of the workers is no longer than three steps for a task in the queue and what each
-- worker has to go; and where no worker can take a further step, all of them are done, and the tasks taken
-- are those submitted, in their order.
pub every_run_ends :
    {n tid k : ℕ} {s t : System}
    → Reach n tid s
    → s.client ≡ stopping 0
    → 1 ≤ n
    → Runs k s t
    → (k + measure n t ≤ measure n s) × ((AllDone n t × (t.taken ≡ t.submitted)) ⊎ CanWork t)
every_run_ends {n} {tid} r e some_worker (halt s) = (
  omega arith,
  elim (scan n n s (Reach-Inv r) e (omega arith)) [
    | inr w ↦ inr w
    | inl all ↦ inl (
      all,
      (over_means_drained 0 r (omega (arith, some_worker))
          (ap is_over (all 0 (omega (arith, some_worker))))).2,
    )
  ],
)
every_run_ends {n} {tid} r e some_worker (step {k} {s} {t} {u} w more) =
    let (short, rest) =
      every_run_ends (later r (working w)) (Works-client w ∙ e) some_worker more in
    (omega (arith, short, Works-measure (Reach-Inv r) w), rest)
