-- ===== src/Pool/Drain.antt =====
-- The end of the pool: when a worker leaves its loop, and that all of them do.
use aple.Base.{ℕ, ◌≤◌, ◌<◌, ◌≡◌, refl, sym, ap, ◌∙◌, [], ◌++◌, length, append-nil, inl, inr, arith}
use aple.Pool.Tally.{sum, weight-le, is_over}
use aple.Pool.System.{Client, serving, owing, stopping, System, Reach}
use aple.Pool.Invariant.{Inv, Reach-Inv, budget}

-- In every state that the threads reach, if a worker has left its loop, then `pool_destroy` has begun, no
-- task waits, and the tasks taken are all those that were submitted, in their order.
pub over_means_drained :
    {n tid : ℕ} {s : System} (i : ℕ)
    → Reach n tid s
    → i < n
    → is_over (s.workers i) ≡ 1
    → ((k : ℕ) × (s.client ≡ stopping k)) × (s.pool.head ≡ []) × (s.taken ≡ s.submitted)
over_means_drained {n} {tid} {s} i r h over = (
  begun s.client refl,
  empty,
  sym (append-nil s.taken) ∙ ap (λ l. s.taken ++ l) (sym empty) ∙ sym v.conserved,
)
  where
    v : Inv n s
    v = Reach-Inv r

    some_over : 1 ≤ sum is_over n s.workers
    some_over = omega (arith, over, weight-le is_over n s.workers i h)

    empty : s.pool.head ≡ []
    empty = elim v.early [ inl g ↦ absurd (omega (arith, g, some_over)) | inr g ↦ g ]

    begun : (c : Client) → s.client ≡ c → (k : ℕ) × (s.client ≡ stopping k)
    begun serving e = absurd (omega (arith, v.balance, ap length empty, ap (budget n) e, some_over))
    begun owing e = absurd (omega (arith, v.balance, ap length empty, ap (budget n) e, some_over))
    begun (stopping k) e = (k, e)
