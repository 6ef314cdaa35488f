-- ===== src/Thread.antt =====
-- The threads of source/aple/lecture-5/minigui-vxworks_pthread.c: the structures of
-- minigui-vxworks_pprivate.h, the statics of the module, and the lookup of a thread by its id.
pub mod Attrs
pub mod Reap
pub mod Start
pub mod Create
pub mod Exit
pub mod Join
pub mod Keys
pub mod Cancel
use aple.Base.{
  ℕ, Bool, ◌+◌, ◌%◌, ◌^◌, Option, none, some, List, [], ◌∷◌, ◌++◌, ◌==◌, if◌then◌else◌, get_or,
  true, false,
}
use aple.Base.Int.{ℤ}

-- The values of <pthread.h>, which the sources only name; `ptr_size` is the size of a pointer in bytes and
-- `iterations` is PTHREAD_DESTRUCTOR_ITERATIONS. A `pthread_t` has 32 bits.
pub record Consts : Type 0 where
  pub joinable : ℕ
  pub detached : ℕ
  pub scope_system : ℕ
  pub scope_process : ℕ
  pub inherit_sched : ℕ
  pub explicit_sched : ℕ
  pub sched_fifo : ℕ
  pub sched_rr : ℕ
  pub sched_other : ℕ
  pub cancel_enable : ℕ
  pub cancel_disable : ℕ
  pub cancel_deferred : ℕ
  pub cancel_asynchronous : ℕ
  pub canceled : ℕ
  pub stack_min : ℕ
  pub keys_max : ℕ
  pub iterations : ℕ
  pub ptr_size : ℕ

-- What the functions return: 0 or an error.
pub data Err : Type 0 where
  success einval esrch edeadlk enotsup eagain enomem : Err

-- `struct sched_param`
pub record SchedParam : Type 0 where
  pub priority : ℕ
  pub preempt_threshold : ℕ
  pub time_slice : ℕ

-- `pthread_attr_t`; the address and the size of the stack are none where their flag is 0.
pub record Attr : Type 0 where
  pub detachstate : ℕ
  pub scope : ℕ
  pub inheritsched : ℕ
  pub schedpolicy : ℕ
  pub schedparam : SchedParam
  pub stackaddr : Option ℕ
  pub stacksize : Option ℕ

-- PTHREAD_STATE_FREE to PTHREAD_STATE_EXITED
pub data State : Type 0 where
  free detached running join exited : State

-- `struct pthread_cleanup_buffer`, at its address; `prev` is the buffer behind it.
pub record Cleanup : Type 0 where
  pub addr : ℕ
  pub routine : ℕ
  pub arg : ℕ

-- `pthread_info`; NULL is 0. `buffers` is what `cancelbuffer` reaches and `values` is `thread_data`.
pub record Info : Type 0 where
  pub task_id : ℕ
  pub joiner : ℕ
  pub state : State
  pub cancelstate : ℕ
  pub canceltype : ℕ
  pub cancelpending : Bool
  pub freestack : Bool
  pub id : ℕ
  pub attr : Attr
  pub retval : ℕ
  pub start_routine : ℕ
  pub start_arg : ℕ
  pub stackmem : ℕ
  pub buffers : List Cleanup
  pub values : List ℕ

-- The calls of the kernel, the heap and the callbacks, in their order.
pub data Call : Type 0 where
  give : ℕ → Call
  delete_task : ℕ → Call
  delete_sem : ℕ → Call
  free_block : ℕ → Call
  activate : ℕ → Call
  set_priority : ℕ → ℕ → Call

-- The statics of the module. `table` holds the addresses in `thread_table` and `infos` is the memory
-- there. A bit of `thread_key` is an item of a word of `keys`, lowest first, and true where the key is
-- free.
pub record Threads : Type 0 where
  pub table : List (Option ℕ)
  pub infos : ℕ → Info
  pub count : ℤ
  pub exited : ℤ
  pub tobejoined : ℤ
  pub keys : List (List Bool)
  pub destructors : List ℕ
  pub next : ℕ
  pub cookie : ℕ
  pub names : ℕ
  pub calls : List Call

-- VXPTHNUM_POSIX_PTHREAD_THREADS_MAX and THREAD_ID_COOKIE_INC
abbrev pub threads_max : ℕ
threads_max = 64

abbrev pub cookie_inc : ℕ
cookie_inc = 0x400

-- A store into the structure at an address.
abbrev pub update_info : Threads → ℕ → (Info → Info) → Threads
update_info v a f = record v { infos = λ k. if k == a then f (v.infos a) else v.infos k }

abbrev pub logged : Threads → List Call → Threads
logged v cs = record v { calls = v.calls ++ cs }

-- `state == PTHREAD_STATE_FREE || state == PTHREAD_STATE_EXITED`
abbrev pub is_gone : State → Bool
is_gone free = true
is_gone detached = false
is_gone running = false
is_gone join = false
is_gone exited = true

abbrev pub is_exited : State → Bool
is_exited free = false
is_exited detached = false
is_exited running = false
is_exited join = false
is_exited exited = true

unfoldable pub valid_info : Threads → ℕ → Option ℕ → Option ℕ
valid_info v id none = none
valid_info v id (some a) =
    if is_gone (v.infos a).state then none else if (v.infos a).id == id then some a else none

-- `pthread_info_id`. An index beyond the table, where C reads out of bounds, finds NULL.
unfoldable pub info_id : Threads → ℕ → Option ℕ
unfolding valid_info
info_id v id = valid_info v id (get_or v.table (id % cookie_inc) none)
