-- ===== src/Pool.antt =====
-- The thread pool of source/aple/homework/po/lecture-4/exercise_1/thread/threadpool.c: its queue of tasks,
-- and the functions on it.
pub mod Tally
pub mod System
pub mod Order
pub mod Invariant
pub mod Drain
pub mod Ending
use aple.Base.{ℕ, suc, Option, none, some, List, [], ◌∷◌}
use aple.Chain.Fifo.{append_node}

-- `struct Task`, at its address; `next` is the node behind it in a list.
pub record Task : Type 0 where
  pub addr : ℕ
  pub tid : ℕ
  pub fn_pt : ℕ
  pub param : ℕ

-- `struct ThreadPool`, with `tid` of the file: `head` is the list that the pointer reaches, and `semaphore`
-- the count of the semaphore.
pub record Pool : Type 0 where
  pub head : List Task
  pub tail : Option ℕ
  pub semaphore : ℕ
  pub total_threads : ℕ
  pub tid : ℕ

-- `pool_init`, with the count that `tid` has; the threads are those of the step relation.
unfoldable pub pool_init : ℕ → ℕ → Pool
pool_init num_threads tid = record {
  head = [];
  tail = none;
  semaphore = 0;
  total_threads = num_threads;
  tid = tid;
}

abbrev pub with_nodes : Pool → List Task × Option ℕ → Pool
with_nodes p c = record p { head = c.0; tail = c.1 }

-- `enqueue`
unfoldable pub enqueue : Pool → Task → Pool
enqueue p t = with_nodes p (append_node (λ (x : Task). x.addr) p.head p.tail t)

abbrev pub dequeue_from : Pool → List Task → Pool × Option Task
dequeue_from p [] = (p, none)
dequeue_from p (t ∷ ts) = (record p { head = ts }, some t)

-- `dequeue`, which leaves `tail` as it is.
unfoldable pub dequeue : Pool → Pool × Option Task
dequeue p = dequeue_from p p.head

-- The node that `pool_submit` fills, in the block at `addr`.
abbrev pub task_at : Pool → ℕ → ℕ → ℕ → Task
task_at p addr fn_pt param = record { addr = addr; tid = p.tid; fn_pt = fn_pt; param = param }

-- The part of `pool_submit` under the mutex.
unfoldable pub submit : Pool → ℕ → ℕ → ℕ → Pool
unfolding enqueue
submit p addr fn_pt param = enqueue (record p { tid = suc p.tid }) (task_at p addr fn_pt param)

-- `sem_post`
abbrev pub post : Pool → Pool
post p = record p { semaphore = suc p.semaphore }
