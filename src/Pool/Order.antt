-- ===== src/Pool/Order.antt =====
-- The queue of the pool as the list of the tasks that wait.
use aple.Base.{ℕ, ◌≡◌, refl, sym, ap, subst, Option, none, some, List, [], ◌∷◌, ◌++◌, ◌⊎◌, inl, inr}
use aple.Chain.{Apart}
use aple.Chain.Fifo.{IsChain, append_node, append_node_lem, append-IsChain}
use aple.Pool.{Task, Pool, submit, enqueue, dequeue, dequeue_from, task_at}

abbrev pub addr_of : Task → ℕ
addr_of t = t.addr

-- The queue is empty, with any last pointer, or its last pointer is right.
abbrev pub IsQueue : Pool → Type 0
IsQueue p = (p.head ≡ []) ⊎ IsChain addr_of p.head p.tail

enqueue-IsChain :
    (xs : List Task) (last : Option ℕ) (t : Task)
    → (xs ≡ []) ⊎ IsChain addr_of xs last
    → Apart addr_of t.addr xs
    → ((append_node addr_of xs last t).0 ≡ xs ++ (t ∷ []))
      × IsChain addr_of (append_node addr_of xs last t).0 (append_node addr_of xs last t).1
unfolding append_node
enqueue-IsChain [] last t h fresh = (refl, record { at_last = refl; distinct = (tt, tt) })
enqueue-IsChain (x ∷ xs) last t (inl h) fresh = absurd cc
enqueue-IsChain (x ∷ xs) last t (inr h) fresh =
    let e = append_node_lem addr_of (x ∷ xs) last t h in
    (
      ap (λ r. r.0) e,
      subst (λ r. IsChain addr_of r.0 r.1) (sym e) (append-IsChain addr_of (x ∷ xs) last t h fresh),
    )

-- A submission puts its task, with the next number, behind the tasks that wait, and the next submission or
-- `dequeue` finds the pointers right, also where the last pointer is that of a task taken before.
pub submit_lem :
    (p : Pool) (addr fn_pt param : ℕ)
    → IsQueue p
    → Apart addr_of addr p.head
    → ((submit p addr fn_pt param).head ≡ p.head ++ (task_at p addr fn_pt param ∷ []))
      × IsQueue (submit p addr fn_pt param)
unfolding submit enqueue
submit_lem p addr fn_pt param q fresh =
    let (e, c) = enqueue-IsChain p.head p.tail (task_at p addr fn_pt param) q fresh in (e, inr c)

-- What `dequeue` does: nothing on an empty queue, else it takes the first task.
unfoldable pub Dequeues : Pool → Pool × Option Task → Type 0
Dequeues p (q, none) = (p.head ≡ []) × (q ≡ p)
Dequeues p (q, some t) =
    (p.head ≡ t ∷ q.head)
    × IsQueue q
    × (q.semaphore ≡ p.semaphore)
    × (q.total_threads ≡ p.total_threads)

rest-IsChain :
    (x : Task) (xs : List Task) (last : Option ℕ)
    → IsChain addr_of (x ∷ xs) last
    → (xs ≡ []) ⊎ IsChain addr_of xs last
rest-IsChain x [] last v = inl refl
rest-IsChain x (y ∷ ys) last v = inr (record { at_last = v.at_last; distinct = v.distinct.1 })

dequeue_from-Dequeues :
    (p : Pool) (xs : List Task)
    → p.head ≡ xs
    → (xs ≡ []) ⊎ IsChain addr_of xs p.tail
    → Dequeues p (dequeue_from p xs)
unfolding Dequeues
dequeue_from-Dequeues p [] e q = (e, refl)
dequeue_from-Dequeues p (t ∷ ts) e (inl h) = absurd cc
dequeue_from-Dequeues p (t ∷ ts) e (inr h) = (e, rest-IsChain t ts p.tail h, refl, refl)

pub dequeue-Dequeues : (p : Pool) → IsQueue p → Dequeues p (dequeue p)
unfolding dequeue
dequeue-Dequeues p q = dequeue_from-Dequeues p p.head refl q
