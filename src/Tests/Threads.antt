-- ===== src/Tests/Threads.antt =====
-- Runs of the threads, on a table with one thread.
use aple.Base.{
  ℕ, zero, suc, ◌≡◌, ◌≢◌, ◌≤◌, refl, ap, true, false, Option, none, some, [], ◌∷◌, arith, replicate,
  get_or, length,
}
use aple.Base.Int.{pos}
use aple.Thread.{Consts, success, running, exited, Attr, Info, Threads, info_id}
use aple.Thread.Attrs.{default_sched}
use aple.Thread.Reap.{reap_threads, dead}
use aple.Thread.Reap.Sweep.{swept, reap_threads-swept}
use aple.Thread.Create.{Env, create_at}
use aple.Thread.Create.Ids.{create_at-info_id}
use aple.Thread.Exit.{finish_exit}
use aple.Thread.Join.{returned, join_thread, check_for_cancel}
use aple.Thread.Join.Result.{join_thread-finish_exit}
use aple.Thread.Keys.{key_create, lsbit_index}
use aple.Thread.Keys.Values.{Held, key_create-Held}

abbrev consts : Consts
consts = record {
  joinable = 1;
  detached = 2;
  scope_system = 1;
  scope_process = 2;
  inherit_sched = 1;
  explicit_sched = 2;
  sched_fifo = 1;
  sched_rr = 2;
  sched_other = 3;
  cancel_enable = 1;
  cancel_disable = 2;
  cancel_deferred = 1;
  cancel_asynchronous = 2;
  canceled = 99;
  stack_min = 1024;
  keys_max = 2;
  iterations = 4;
  ptr_size = 4;
}

abbrev plain : Attr
plain = record {
  detachstate = 1;
  scope = 1;
  inheritsched = 1;
  schedpolicy = 1;
  schedparam = default_sched;
  stackaddr = some 9000;
  stacksize = none;
}

abbrev info : Info
info = record {
  task_id = 70;
  joiner = 71;
  state = running;
  cancelstate = 1;
  canceltype = 2;
  cancelpending = false;
  freestack = false;
  id = 1024;
  attr = plain;
  retval = 0;
  start_routine = 5;
  start_arg = 6;
  stackmem = 4904;
  buffers = [];
  values = 8 ∷ 9 ∷ [];
}

-- The thread at the address 1000 has the slot 0; the key 1 is free.
abbrev threads : Threads
threads = record {
  table = some 1000 ∷ replicate 63 none;
  infos = λ k. info;
  count = pos 1;
  exited = pos 0;
  tobejoined = pos 0;
  keys = (false ∷ true ∷ []) ∷ [];
  destructors = 0 ∷ 0 ∷ [];
  next = 1;
  cookie = 1024;
  names = 1;
  calls = [];
}

abbrev env : Env
env = record {
  status = λ t. dead;
  malloc = λ n. none;
  info_at = λ base size. 2000;
  task_of = λ a. 72;
  junk = 5 ∷ 5 ∷ [];
  joiner = 73;
  init_ok = true;
  beyond = some 1;
}

or_zero : Option ℕ → ℕ
or_zero none = 0
or_zero (some k) = k

none-replicate : (n j : ℕ) → get_or {A = Option ℕ} (replicate n none) j none ≢ some 2000
none-replicate zero j e = cc
none-replicate (suc n) zero e = cc
none-replicate (suc n) (suc j) e = none-replicate n j e

threads-fresh : (j : ℕ) → get_or threads.table j none ≢ some 2000
unfolding or_zero
threads-fresh zero e = omega (arith, ap or_zero e)
threads-fresh (suc j) e = none-replicate 63 j e

create_at-info_id_example :
    info_id (create_at consts env threads plain 5 6 4904 false 1).0 2049 ≡ some 2000
create_at-info_id_example =
    create_at-info_id consts env threads plain 5 6 4904 false 1 2049 refl (omega arith) refl refl
      threads-fresh

join_thread-finish_exit_example :
    (w : Threads) × (join_thread consts (λ t. dead) (finish_exit threads 1000 9) 3000 1024
      ≡ returned w success (some 9))
    × (info_id w 1024 ≡ none)
unfolding info_id check_for_cancel
join_thread-finish_exit_example =
    join_thread-finish_exit consts (λ t. dead) threads 3000 1024 1000 9 refl (λ e. omega (arith, e))
      refl refl refl (λ b h e. cc) (λ e. cc)

words_short : (i : ℕ) → length (get_or threads.keys i []) ≤ 32
words_short zero = omega arith
words_short (suc i) = omega arith

key_create-Held_example : Held threads (key_create threads 0).0 1000 1 0 17
unfolding key_create lsbit_index
key_create-Held_example =
    key_create-Held threads 0 1 1000 0 0 17 words_short refl refl (omega arith)
      (λ e. omega (arith, e))

abbrev full : Threads
full = record threads { table = replicate 64 (some 1000); next = 64 }

-- The thread has exited.
abbrev gone : Threads
gone = record threads { infos = λ k. record info { state = exited }; exited = pos 1 }

reap_threads-swept_example : reap_threads (λ t. dead) gone ≡ some (swept (λ t. dead) gone)
reap_threads-swept_example = reap_threads-swept (λ t. dead) gone (λ b h e. cc) refl refl
