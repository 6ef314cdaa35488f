-- ===== src/Thread/Exit.antt =====
-- How a thread ends, in source/aple/lecture-5/minigui-vxworks_pthread.c: the cleanup handlers, the
-- destructors of its values, and `vxpth_pthread_exit`.
pub mod Rounds
use aple.Base.{
  ℕ, zero, suc, ◌+◌, ◌/◌, ◌%◌, Bool, true, false, ◌||◌, Option, none, some, List, [], ◌∷◌, ◌==◌,
  if◌then◌else◌, get_or, set,
}
use aple.Base.Int.{inc}
use aple.Thread.{
  Consts, State, detached, join, exited, free, running, Call, give, delete_task, Info, Threads,
  update_info, logged,
}

-- `thread_key [key/KEY_MAP_TYPE_SIZE] & 1<<(key%KEY_MAP_TYPE_SIZE)`; a word has 32 bits. What stands
-- behind the words is not read as a free key.
unfoldable pub key_free : Threads → ℕ → Bool
key_free v key = get_or (get_or v.keys (key / 32) []) (key % 32) false

abbrev pub value_of : Threads → ℕ → ℕ → ℕ
value_of v a key = get_or (v.infos a).values key 0

abbrev pub store_value : Threads → ℕ → ℕ → ℕ → Threads
store_value v a key x = update_info v a (λ i. record i { values = set i.values key x })

-- `invoke` runs a handler or a destructor with its argument.
module _ (invoke : ℕ → ℕ → Threads → Threads) (a : ℕ) where
  -- The loop over the cleanup buffers, on fuel, since a handler may push more.
  unfoldable pub run_cleanups : ℕ → Threads → Option Threads
  run_cleanups zero v = none
  run_cleanups (suc fuel) v = elim (v.infos a).buffers [
    | [] ↦ some v
    | b ∷ rest ↦
        run_cleanups fuel
          (invoke b.routine b.arg (update_info v a (λ i. record i { buffers = rest })))
  ]

  -- The loop over the keys, at one key, and whether a destructor was called.
  unfoldable pub visit_key : ℕ → Threads → Threads × Bool
  unfolding key_free
  visit_key key v =
      if key_free v key
      then (v, false)
      else if get_or v.destructors key 0 == 0
      then (v, false)
      else if value_of v a key == 0
      then (v, false)
      else (invoke (get_or v.destructors key 0) (value_of v a key) (store_value v a key 0), true)

  unfoldable pub visit_keys : ℕ → ℕ → Threads → Bool → Threads × Bool
  unfolding visit_key
  visit_keys zero key v called = (v, called)
  visit_keys (suc n) key v called =
      visit_keys n (key + 1) (visit_key key v).0 (called || (visit_key key v).1)

  -- The `do … while`, where `left` is how often the test on the count of the rounds still holds.
  unfoldable pub rounds : ℕ → ℕ → Threads → Threads
  unfolding visit_keys
  rounds keys_max zero v = (visit_keys keys_max 0 v false).0
  rounds keys_max (suc left) v = elim (visit_keys keys_max 0 v false).1 [
    | false ↦ (visit_keys keys_max 0 v false).0
    | true ↦ rounds keys_max left (visit_keys keys_max 0 v false).0
  ]

abbrev pub is_detached : State → Bool
is_detached free = false
is_detached detached = true
is_detached running = false
is_detached join = false
is_detached exited = false

-- The part under the mutex, and the deletion of the task.
unfoldable pub finish_exit : Threads → ℕ → ℕ → Threads
finish_exit v a retval =
    logged
      (if is_detached (v.infos a).state
        then record (update_info v a (λ i. record i { retval = retval; state = exited })) {
          exited = inc v.exited;
        }
        else record (update_info v a (λ i. record i { retval = retval; state = join })) {
          tobejoined = inc v.tobejoined;
        })
      (give (v.infos a).joiner ∷ delete_task (v.infos a).task_id ∷ [])

-- `vxpth_pthread_exit`, for the thread at `a`; the test of the count of the destructors' rounds holds
-- PTHREAD_DESTRUCTOR_ITERATIONS times. `none` says that the fuel of the cleanup handlers ran out.
unfoldable pub exit_thread :
    Consts → (ℕ → ℕ → Threads → Threads) → ℕ → Threads → ℕ → ℕ → Option Threads
unfolding run_cleanups rounds finish_exit
exit_thread c invoke fuel v a retval = elim (run_cleanups invoke a fuel v) [
  | none ↦ none
  | some w ↦ some (finish_exit (rounds invoke a c.keys_max c.iterations w) a retval)
]
