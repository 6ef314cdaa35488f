-- ===== src/Pool/System.antt =====
-- The threads of source/aple/homework/po/lecture-4/exercise_1/thread/threadpool.c, interleaved: the main
-- thread, which submits tasks and then destroys the pool, and the workers. What runs under the mutex is one
-- step. A task does not submit tasks, as `worker_fn` of client.c does not.
use aple.Base.{ℕ, suc, ◌<◌, ◌≡◌, Option, none, some, List, [], ◌∷◌, ◌++◌}
use aple.Chain.{Apart}
use aple.Pool.{Task, Pool, pool_init, submit, dequeue, post, task_at}
use aple.Pool.Tally.{Worker, waiting, woken, running, ending, done, set_worker}

-- The main thread: between two calls, before the `sem_post` of `pool_submit`, or in `pool_destroy` with a
-- number of posts left; with none left it joins the workers.
pub data Client : Type 0 where
  serving owing : Client
  stopping : ℕ → Client

-- All threads; `submitted` and `taken` are the tasks that were put into the queue and taken out so far.
pub record System : Type 0 where
  pub pool : Pool
  pub workers : ℕ → Worker
  pub client : Client
  pub submitted : List Task
  pub taken : List Task

abbrev pub submits : System → ℕ → ℕ → ℕ → System
submits s addr fn_pt param = record s {
  pool = submit s.pool addr fn_pt param;
  client = owing;
  submitted = s.submitted ++ (task_at s.pool addr fn_pt param ∷ []);
}

abbrev pub moves : System → ℕ → Worker → System
moves s i w = record s { workers = set_worker s.workers i w }

-- A worker behind `dequeue`: it leaves its loop where there is no task.
abbrev pub takes : System → ℕ → Pool × Option Task → System
takes s i (p, none) = record (moves s i ending) { pool = p }
takes s i (p, some t) = record (moves s i running) { pool = p; taken = s.taken ++ (t ∷ []) }

abbrev pub with_semaphore : Pool → ℕ → Pool
with_semaphore p v = record p { semaphore = v }

-- A step of one of the workers.
pub data Works : System → System → Type 0 where
  wakes :
      (s : System) (i v : ℕ)
      → i < s.pool.total_threads
      → s.workers i ≡ waiting
      → s.pool.semaphore ≡ suc v
      → Works s (record (moves s i woken) { pool = with_semaphore s.pool v })
  gets :
      (s : System) (i : ℕ)
      → i < s.pool.total_threads
      → s.workers i ≡ woken
      → Works s (takes s i (dequeue s.pool))
  finishes :
      (s : System) (i : ℕ)
      → i < s.pool.total_threads
      → s.workers i ≡ running
      → Works s (moves s i waiting)
  leaves :
      (s : System) (i : ℕ)
      → i < s.pool.total_threads
      → s.workers i ≡ ending
      → Works s (moves s i done)

-- A step of any thread; the block of a new task is not in the queue.
pub data Step : System → System → Type 0 where
  submitting :
      (s : System) (addr fn_pt param : ℕ)
      → s.client ≡ serving
      → Apart (λ (x : Task). x.addr) addr s.pool.head
      → Step s (submits s addr fn_pt param)
  posting :
      (s : System) → s.client ≡ owing → Step s (record s { pool = post s.pool; client = serving })
  destroying :
      (s : System)
      → s.client ≡ serving
      → Step s (record s { client = stopping s.pool.total_threads })
  ending_one :
      (s : System) (k : ℕ)
      → s.client ≡ stopping (suc k)
      → Step s (record s { pool = post s.pool; client = stopping k })
  working : {s t : System} → Works s t → Step s t

abbrev pub started : ℕ → ℕ → System
started n tid = record {
  pool = pool_init n tid;
  workers = λ i. waiting;
  client = serving;
  submitted = [];
  taken = [];
}

-- The states that the threads of a pool of `n` workers reach.
pub data Reach (n tid : ℕ) : System → Type 0 where
  start : Reach n tid (started n tid)
  later : {s t : System} → Reach n tid s → Step s t → Reach n tid t
