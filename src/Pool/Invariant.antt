-- ===== src/Pool/Invariant.antt =====
-- What holds whenever no thread is inside a step: the semaphore counts the tasks in the queue, and what was
-- submitted is what was taken and what waits.
use aple.Base.{
  ◌<◌, ℕ, zero, suc, ◌+◌, ◌≡◌, refl, sym, ap, ◌∙◌, Option, none, some, [], ◌∷◌, ◌++◌, length,
  length-append, append_assoc, ◌⊎◌, inl, inr, arith,
}
use aple.Chain.{Apart}
use aple.Pool.{Task, Pool, pool_init, submit, enqueue, dequeue, task_at}
use aple.Pool.Tally.{
  Worker, waiting, woken, running, ending, done, set_worker, sum, exchanged, is_woken, is_over,
}
use aple.Pool.System.{
  Client, serving, owing, stopping, System, submits, moves, takes, Works, wakes, gets, finishes,
  leaves, Step, submitting, posting, destroying, ending_one, working, started, Reach, start, later,
}
use aple.Pool.Order.{addr_of, IsQueue, submit_lem, Dequeues, dequeue-Dequeues}

-- What the main thread still owes the semaphore, for a task and for its `pool_destroy`.
abbrev pub owed : Client → ℕ
owed serving = 0
owed owing = 1
owed (stopping k) = 0

abbrev pub left : Client → ℕ
left serving = 0
left owing = 0
left (stopping k) = k

abbrev pub budget : ℕ → Client → ℕ
budget n serving = 0
budget n owing = 0
budget n (stopping k) = n

pub record Inv (n : ℕ) (s : System) : Type 0 where
  pub size : s.pool.total_threads ≡ n
  pub queue : IsQueue s.pool
  pub balance :
      s.pool.semaphore
        + owed s.client
        + sum is_woken n s.workers
        + sum is_over n s.workers
        + left s.client
      ≡ length s.pool.head + budget n s.client
  pub early : (sum is_over n s.workers ≡ 0) ⊎ (s.pool.head ≡ [])
  pub conserved : s.submitted ≡ s.taken ++ s.pool.head

Inv-start : (n tid : ℕ) → Inv n (started n tid)
unfolding pool_init
Inv-start n tid = record {
  size = refl;
  queue = inl refl;
  balance = omega (arith, all_waiting is_woken n refl, all_waiting is_over n refl);
  early = inr refl;
  conserved = refl;
}
  where
    all_waiting :
        (weight : Worker → ℕ) (n : ℕ) → weight waiting ≡ 0 → sum weight n (λ i. waiting) ≡ 0
    all_waiting weight zero h = refl
    all_waiting weight (suc n) h = omega (arith, h, all_waiting weight n h)

-- While the main thread serves, no worker is over.
none_over : (n : ℕ) (s : System) → Inv n s → s.client ≡ serving → sum is_over n s.workers ≡ 0
none_over n s v e = elim v.early [
  | inl h ↦ h
  | inr h ↦ omega (arith, v.balance, ap length h, ap (budget n) e)
]

-- A dequeue of a worker that was woken.
takes-Inv :
    (n : ℕ) (s : System) (i : ℕ) (r : Pool × Option Task)
    → Inv n s
    → i < n
    → s.workers i ≡ woken
    → Dequeues s.pool r
    → Inv n (takes s i r)
unfolding Dequeues
takes-Inv n s i (p, none) v h e (empty, same) = record {
  size = ap (λ (q : Pool). q.total_threads) same ∙ v.size;
  queue = inl (ap (λ (q : Pool). q.head) same ∙ empty);
  balance = omega (
    arith,
    v.balance,
    ap (λ (q : Pool). q.semaphore) same,
    ap (λ (q : Pool). length q.head) same,
    exchanged is_woken n s.workers i woken ending h e,
    exchanged is_over n s.workers i woken ending h e,
  );
  early = inr (ap (λ (q : Pool). q.head) same ∙ empty);
  conserved = v.conserved ∙ ap (λ (q : Pool). s.taken ++ q.head) (sym same);
}
takes-Inv n s i (p, some t) v h e (at, q, value, total) = record {
  size = total ∙ v.size;
  queue = q;
  balance = omega (
    arith,
    v.balance,
    value,
    ap length at,
    exchanged is_woken n s.workers i woken running h e,
    exchanged is_over n s.workers i woken running h e,
  );
  early = inl (elim v.early [
    | inl g ↦ omega (arith, g, exchanged is_over n s.workers i woken running h e)
    | inr g ↦ absurd (omega (arith, ap length g, ap length at))
  ]);
  conserved = v.conserved ∙ ap (λ l. s.taken ++ l) at ∙ sym (append_assoc s.taken (t ∷ []) p.head);
}

-- A worker that moves between states which count the same.
moves-Inv :
    (n : ℕ) (s : System) (i : ℕ) (old w : Worker)
    → i < n
    → s.workers i ≡ old
    → is_woken w ≡ is_woken old
    → is_over w ≡ is_over old
    → Inv n s
    → Inv n (moves s i w)
moves-Inv n s i old w h e same_woken same_over v =
    let same : sum is_over n (set_worker s.workers i w) ≡ sum is_over n s.workers =
      omega (arith, same_over, exchanged is_over n s.workers i old w h e) in
    record {
      size = v.size;
      queue = v.queue;
      balance =
          omega (arith, v.balance, same, same_woken, exchanged is_woken n s.workers i old w h e);
      early = elim v.early [ inl g ↦ inl (same ∙ g) | inr g ↦ inr g ];
      conserved = v.conserved;
    }

Works-Inv : (n : ℕ) {s t : System} → Works s t → Inv n s → Inv n t
Works-Inv n (wakes s i k h e full) v =
    let h : i < n = omega (arith, h, v.size) in
    record {
      size = v.size;
      queue = v.queue;
      balance = omega (
        arith,
        v.balance,
        full,
        exchanged is_woken n s.workers i waiting woken h e,
        exchanged is_over n s.workers i waiting woken h e,
      );
      early = elim v.early [
        | inl g ↦ inl (omega (arith, g, exchanged is_over n s.workers i waiting woken h e))
        | inr g ↦ inr g
      ];
      conserved = v.conserved;
    }
Works-Inv n (gets s i h e) v =
    takes-Inv n s i (dequeue s.pool) v (omega (arith, h, v.size)) e
      (dequeue-Dequeues s.pool v.queue)
Works-Inv n (finishes s i h e) v =
    moves-Inv n s i running waiting (omega (arith, h, v.size)) e refl refl v
Works-Inv n (leaves s i h e) v =
    moves-Inv n s i ending done (omega (arith, h, v.size)) e refl refl v

submits-Inv :
    (n : ℕ) (s : System) (addr fn_pt param : ℕ)
    → s.client ≡ serving
    → Apart addr_of addr s.pool.head
    → Inv n s
    → Inv n (submits s addr fn_pt param)
unfolding submit enqueue
submits-Inv n s addr fn_pt param e fresh v =
    let (at, q) = submit_lem s.pool addr fn_pt param v.queue fresh in
    record {
      size = v.size;
      queue = q;
      balance = omega (
        arith,
        v.balance,
        ap length at,
        length-append s.pool.head (task_at s.pool addr fn_pt param ∷ []),
        ap owed e,
        ap left e,
        ap (budget n) e,
      );
      early = inl (none_over n s v e);
      conserved =
          ap (λ l. l ++ (task_at s.pool addr fn_pt param ∷ [])) v.conserved
          ∙ append_assoc s.taken s.pool.head (task_at s.pool addr fn_pt param ∷ [])
          ∙ ap (λ l. s.taken ++ l) (sym at);
    }

Step-Inv : (n : ℕ) {s t : System} → Step s t → Inv n s → Inv n t
Step-Inv n (submitting s addr fn_pt param e fresh) v = submits-Inv n s addr fn_pt param e fresh v
Step-Inv n (posting s e) v = record {
  size = v.size;
  queue = v.queue;
  balance = omega (arith, v.balance, ap owed e, ap left e, ap (budget n) e);
  early = v.early;
  conserved = v.conserved;
}
Step-Inv n (destroying s e) v = record {
  size = v.size;
  queue = v.queue;
  balance = omega (arith, v.balance, v.size, ap owed e, ap left e, ap (budget n) e);
  early = v.early;
  conserved = v.conserved;
}
Step-Inv n (ending_one s k e) v = record {
  size = v.size;
  queue = v.queue;
  balance = omega (arith, v.balance, ap owed e, ap left e, ap (budget n) e);
  early = v.early;
  conserved = v.conserved;
}
Step-Inv n (working w) v = Works-Inv n w v

pub Reach-Inv : {n tid : ℕ} {s : System} → Reach n tid s → Inv n s
Reach-Inv {n} {tid} start = Inv-start n tid
Reach-Inv {n} {tid} (later r x) = Step-Inv n x (Reach-Inv r)
