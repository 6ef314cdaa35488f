-- ===== src/Tests/Pools.antt =====
-- A pool with one worker, and a task that is submitted before it is destroyed.
use aple.Base.{arith, ℕ, ◌≡◌, ◌≤◌, ◌<◌, ◌⊎◌, ◌+◌, refl, some, [], ◌∷◌}
use aple.Chain.Fifo.{append_node}
use aple.Pool.{Pool, Task, pool_init, submit, enqueue, dequeue}
use aple.Pool.Tally.{set_worker, waiting, woken, running, ending, done}
use aple.Pool.System.{
  stopping, System, wakes, gets, finishes, leaves, submitting, posting, destroying, ending_one,
  working, Reach, start, later,
}
use aple.Pool.Drain.{over_means_drained}
use aple.Pool.Ending.{Runs, halt, step, measure, AllDone, CanWork, every_run_ends}

abbrev first_task : Task
first_task = record { addr = 9; tid = 0; fn_pt = 5; param = 6 }

-- `pool_destroy` is through its posts.
abbrev closing : System
closing = record {
  pool = record {
    head = first_task ∷ [];
    tail = some 9;
    semaphore = 2;
    total_threads = 1;
    tid = 1;
  };
  workers = λ i. waiting;
  client = stopping 0;
  submitted = first_task ∷ [];
  taken = [];
}

closing-Reach : Reach 1 0 closing
unfolding pool_init submit enqueue append_node
closing-Reach =
    later
      (later (later (later start (submitting _ 9 5 6 refl tt)) (posting _ refl))
        (destroying _ refl))
      (ending_one _ 0 refl)

-- The worker has run the task, and has found the queue empty.
abbrev finished : System
finished = record {
  pool = record { head = []; tail = some 9; semaphore = 0; total_threads = 1; tid = 1 };
  workers =
      set_worker
        (set_worker
          (set_worker
            (set_worker (set_worker (set_worker (λ i. waiting) 0 woken) 0 running) 0 waiting) 0
            woken)
          0 ending)
        0 done;
  client = stopping 0;
  submitted = first_task ∷ [];
  taken = first_task ∷ [];
}

worker_0 : 0 < 1
worker_0 = omega arith

finished-Runs : Runs 6 closing finished
unfolding dequeue
finished-Runs = step (wakes _ 0 1 worker_0 refl refl) (
    step (gets _ 0 worker_0 refl) (
      step (finishes _ 0 worker_0 refl) (
        step (wakes _ 0 0 worker_0 refl refl)
          (step (gets _ 0 worker_0 refl) (step (leaves _ 0 worker_0 refl) (halt _))))))

finished-Reach : Reach 1 0 finished
unfolding dequeue
finished-Reach =
    later
      (later
        (later
          (later
            (later (later closing-Reach (working (wakes _ 0 1 worker_0 refl refl)))
              (working (gets _ 0 worker_0 refl)))
            (working (finishes _ 0 worker_0 refl)))
          (working (wakes _ 0 0 worker_0 refl refl)))
        (working (gets _ 0 worker_0 refl)))
      (working (leaves _ 0 worker_0 refl))

over_means_drained_example :
    ((k : ℕ) × (finished.client ≡ stopping k))
    × (finished.pool.head ≡ [])
    × (finished.taken ≡ finished.submitted)
over_means_drained_example = over_means_drained 0 finished-Reach worker_0 refl

every_run_ends_example :
    (6 + measure 1 finished ≤ measure 1 closing)
    × ((AllDone 1 finished × (finished.taken ≡ finished.submitted)) ⊎ CanWork finished)
every_run_ends_example = every_run_ends closing-Reach refl worker_0 finished-Runs

-- The pool when the worker has taken the only task, and `tail` is the address of that task.
abbrev drained : Pool
drained = record { head = []; tail = some 9; semaphore = 0; total_threads = 1; tid = 1 }
