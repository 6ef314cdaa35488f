-- ===== src/Thread/Create.antt =====
-- `pthread_create` of source/aple/lecture-5/minigui-vxworks_pthread.c.
pub mod Search
pub mod Ids
use aple.Base.{
  ℕ, zero, suc, ◌+◌, ◌-◌, ◌/◌, ◌%◌, ◌^◌, Bool, true, false, Option, none, some, List, [], ◌∷◌, ◌==◌,
  if◌then◌else◌, leb, ltb, get_or, set, length,
}
use aple.Base.Int.{ℤ, inc}
use aple.Thread.{
  Consts, Err, success, einval, eagain, enomem, Attr, State, detached, running, Call, give,
  free_block, activate, Info, Threads, threads_max, cookie_inc, update_info, logged,
}
use aple.Thread.Attrs.{attr_default}
use aple.Thread.Reap.{TaskStatus, reap_threads}

-- The search for a free slot: `thread_table[i]`, where `beyond` is what C reads behind the table.
abbrev pub slot_at : List (Option ℕ) → Option ℕ → ℕ → Option ℕ
slot_at table beyond i = if ltb i (length table) then get_or table i none else beyond

-- `thread_next++; if (thread_next >= VXPTHNUM_POSIX_PTHREAD_THREADS_MAX) thread_next = 0;`
abbrev pub next_slot : ℕ → ℕ
next_slot i = if leb threads_max (i + 1) then 0 else i + 1

pub data Found : Type 0 where
  slot : ℕ → Found
  no_slot : Found

-- The loop, on fuel; `start` is `thread_info_next`.
module _ (table : List (Option ℕ)) (beyond : Option ℕ) (start : ℕ) where
  unfoldable pub find_free : ℕ → ℕ → Option Found
  find_free zero i = none
  find_free (suc fuel) i = elim (slot_at table beyond i) [
    | none ↦ some (slot i)
    | some a ↦ elim (next_slot i == start) [
      | true ↦ some no_slot
      | false ↦ find_free fuel (next_slot i)
    ]
  ]

-- What a creation takes from elsewhere: the task states, the block for the stack, the place of the control
-- structure in a stack from its base and size, what the memory for `thread_data` holds, the new
-- semaphore, whether `taskInit` succeeds, and what stands behind the table.
pub record Env : Type 0 where
  pub status : ℕ → TaskStatus
  pub malloc : ℕ → Option ℕ
  pub info_at : ℕ → ℕ → ℕ
  pub task_of : ℕ → ℕ
  pub junk : List ℕ
  pub joiner : ℕ
  pub init_ok : Bool
  pub beyond : Option ℕ

-- PTHREAD_STACK_DEFAULT
abbrev pub stack_default : ℕ
stack_default = 4096

abbrev pub stacksize_of : Attr → ℕ
stacksize_of a = elim a.stacksize [ none ↦ stack_default | some n ↦ n ]

-- `memset` of the first bytes of an array of pointers, as whole items.
abbrev pub zeros : ℕ → List ℕ → List ℕ
zeros zero xs = xs
zeros (suc n) [] = []
zeros (suc n) (x ∷ xs) = 0 ∷ zeros n xs

abbrev pub state_of : Consts → Attr → State
state_of c a = if a.detachstate == c.joinable then running else detached

-- The control structure that is written, for a thread in a slot.
abbrev pub new_info : Consts → Env → Attr → ℕ → ℕ → ℕ → ℕ → ℕ → Bool → Info
new_info c e a address id routine arg stackmem freestack = record {
  task_id = e.task_of address;
  joiner = e.joiner;
  state = state_of c a;
  cancelstate = c.cancel_enable;
  canceltype = c.cancel_deferred;
  cancelpending = false;
  freestack = freestack;
  id = id;
  attr = a;
  retval = 0;
  start_routine = routine;
  start_arg = arg;
  stackmem = stackmem;
  buffers = [];
  values = zeros (c.keys_max / c.ptr_size) e.junk;
}

-- `thread_next + thread_id_cookie`, behind the step of the cookie.
abbrev pub next_cookie : Threads → ℕ
next_cookie v = (v.cookie + cookie_inc) % 2 ^ 32

abbrev pub new_id : Threads → ℕ → ℕ
new_id v i = (i + next_cookie v) % 2 ^ 32

-- The stores of a creation in the slot `i`.
unfoldable pub occupied : Threads → ℕ → ℕ → Info → Threads
occupied v i address info = record v {
  table = set v.table i (some address);
  infos = λ k. if k == address then info else v.infos k;
  next = i + 1;
  cookie = next_cookie v;
  names = suc v.names;
}

-- What a call returns: the id that it stores, or an error.
pub data Created : Type 0 where
  created : ℕ → Created
  failed : Err → Created

abbrev pub free_if : Bool → ℕ → List Call
free_if freestack stackmem = if freestack then free_block stackmem ∷ [] else []

-- The part behind the search.
unfoldable pub create_at : Consts → Env → Threads → Attr → ℕ → ℕ → ℕ → Bool → ℕ → Threads × Created
unfolding occupied
create_at c e v a routine arg stackmem freestack i =
    let address = e.info_at stackmem (stacksize_of a) in
    let info = new_info c e a address (new_id v i) routine arg stackmem freestack in
    if e.init_ok
    then (
      logged (record (occupied v i address info) { count = inc v.count })
          (activate info.task_id ∷ []),
      created (new_id v i),
    )
    else (logged (occupied v i address info) (free_if freestack stackmem), failed einval)

abbrev pub create_found :
    Consts → Env → Threads → Attr → ℕ → ℕ → ℕ → Bool → Option Found → Option (Threads × Created)
create_found c e v a routine arg stackmem freestack none = none
create_found c e v a routine arg stackmem freestack (some no_slot) =
    some (logged v (free_if freestack stackmem), failed enomem)
create_found c e v a routine arg stackmem freestack (some (slot i)) =
    some (create_at c e v a routine arg stackmem freestack i)

-- The part under the mutex, with a stack, behind the reaper and with it.
abbrev pub after_reap :
    Consts
    → ℕ
    → Env
    → Threads
    → Attr
    → ℕ
    → ℕ
    → ℕ
    → Bool
    → Option Threads
    → Option (Threads × Created)
after_reap c fuel e v a routine arg stackmem freestack none = none
after_reap c fuel e v a routine arg stackmem freestack (some w) =
    create_found c e w a routine arg stackmem freestack
      (find_free w.table e.beyond v.next fuel v.next)

abbrev pub create_on :
    Consts → ℕ → Env → Threads → Attr → ℕ → ℕ → ℕ → Bool → Option (Threads × Created)
create_on c fuel e v a routine arg stackmem freestack =
    after_reap c fuel e v a routine arg stackmem freestack (reap_threads e.status v)

abbrev pub on_block :
    Consts → ℕ → Env → Threads → Attr → ℕ → ℕ → Option ℕ → Option (Threads × Created)
on_block c fuel e v a routine arg none = some (v, failed eagain)
on_block c fuel e v a routine arg (some block) = create_on c fuel e v a routine arg block true

-- The stack that the attributes give, or a new one.
abbrev pub create_with :
    Consts → ℕ → Env → Threads → Attr → ℕ → ℕ → Option ℕ → Option (Threads × Created)
create_with c fuel e v a routine arg (some top) =
    create_on c fuel e v a routine arg (top - stacksize_of a) false
create_with c fuel e v a routine arg none =
    on_block c fuel e v a routine arg (e.malloc (stacksize_of a))

-- `pthread_create`; `routine` is none where `start_routine` is NULL, and `attr` where it is NULL. `none`
-- says that the fuel of the search ran out, or that the reaper hangs.
unfoldable pub create :
    Consts → ℕ → Env → Threads → Option Attr → Option ℕ → ℕ → Option (Threads × Created)
unfolding create_at attr_default find_free reap_threads
create c fuel e v o none arg = some (v, failed einval)
create c fuel e v none (some routine) arg =
    create_with c fuel e v (attr_default c) routine arg (attr_default c).stackaddr
create c fuel e v (some a) (some routine) arg = create_with c fuel e v a routine arg a.stackaddr
