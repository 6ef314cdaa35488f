-- ===== src/Thread/Cancel.antt =====
-- Cancellation, cleanup buffers, scheduling and `pthread_once` of
-- source/aple/lecture-5/minigui-vxworks_pthread.c.
pub mod Deadlock
use aple.Base.{
  ℕ, Bool, true, false, ◌&&◌, ◌||◌, not, Option, none, some, List, [], ◌∷◌, ◌==◌, if◌then◌else◌,
}
use aple.Thread.{
  Consts, Err, success, einval, esrch, SchedParam, Cleanup, Info, Threads, set_priority,
  update_info, logged, info_id,
}
use aple.Thread.Exit.{exit_thread}
use aple.Thread.Join.{check_for_cancel}

-- `pthread_setcancelstate` of the thread at `self`, with the old state.
unfoldable pub setcancelstate : Consts → Threads → ℕ → ℕ → Threads × Err × Option ℕ
setcancelstate c v self state =
    if not (state == c.cancel_enable) && not (state == c.cancel_disable)
    then (v, einval, none)
    else (
      update_info v self (λ i. record i { cancelstate = state }),
      success,
      some (v.infos self).cancelstate,
    )

-- `pthread_setcanceltype`
unfoldable pub setcanceltype : Consts → Threads → ℕ → ℕ → Threads × Err × Option ℕ
setcanceltype c v self type =
    if not (type == c.cancel_asynchronous) && not (type == c.cancel_deferred)
    then (v, einval, none)
    else (
      update_info v self (λ i. record i { canceltype = type }),
      success,
      some (v.infos self).canceltype,
    )

-- How a cancellation ends: it returns, with the mutex given back, or it goes into `vxpth_pthread_exit` for
-- the thread at an address, with the mutex taken.
pub data Canceled : Type 0 where
  returned : Threads → Err → Canceled
  exits : Threads → ℕ → Canceled

abbrev pub pending : Threads → ℕ → Threads
pending v a = update_info v a (λ i. record i { cancelpending = true })

abbrev pub cancel_found : Consts → Threads → Option ℕ → Canceled
cancel_found c v none = returned v esrch
cancel_found c v (some a) =
    if (v.infos a).cancelstate == c.cancel_enable
    then if (v.infos a).canceltype == c.cancel_asynchronous
      then exits (pending v a) a
      else returned (pending v a) success
    else returned (pending v a) success

-- `pthread_cancel`
unfoldable pub cancel : Consts → Threads → ℕ → Canceled
cancel c v id = cancel_found c v (info_id v id)

-- The mutex of the module, a binary semaphore that is full or not: `none` where a `semTake` that waits for
-- ever blocks.
abbrev pub take_mutex : Bool → Option Bool
take_mutex true = some false
take_mutex false = none

-- Where a call that takes the mutex stands: it has returned, and the mutex is full or not, or it has gone
-- through `vxpth_pthread_exit`, behind which it loops, or it waits at the mutex.
pub data Outcome : Type 0 where
  back : Threads → Err → Bool → Outcome
  loops : Threads → Outcome
  blocked : Outcome
  out_of_fuel : Outcome

abbrev pub behind_exit : Option Bool → Option Threads → Outcome
behind_exit mutex none = out_of_fuel
behind_exit none (some w) = blocked
behind_exit (some full) (some w) = loops w

-- `vxpth_pthread_exit`, with the mutex full or not: it takes the mutex behind the handlers and destructors.
abbrev pub exit_under :
    Consts → (ℕ → ℕ → Threads → Threads) → ℕ → Threads → ℕ → ℕ → Option Bool → Outcome
exit_under c invoke fuel v a retval mutex = behind_exit mutex (exit_thread c invoke fuel v a retval)

abbrev pub cancel_end : Consts → (ℕ → ℕ → Threads → Threads) → ℕ → Bool → Canceled → Outcome
cancel_end c invoke fuel full (returned v err) = back v err true
cancel_end c invoke fuel full (exits v a) =
    exit_under c invoke fuel v a c.canceled (take_mutex full)

-- `pthread_cancel` with its calls on the mutex.
unfoldable pub cancel_call : Consts → (ℕ → ℕ → Threads → Threads) → ℕ → Threads → ℕ → Bool → Outcome
unfolding cancel
cancel_call c invoke fuel v id mutex = elim (take_mutex mutex) [
  | none ↦ blocked
  | some full ↦ cancel_end c invoke fuel full (cancel c v id)
]

-- `pthread_testcancel`: whether the thread at `self` goes into `pthread_exit (PTHREAD_CANCELED)`.
unfoldable pub testcancel : Consts → Threads → ℕ → Bool
unfolding check_for_cancel
testcancel c v self = check_for_cancel c (v.infos self)

-- `pthread_cleanup_push_inner`
unfoldable pub cleanup_push : Threads → ℕ → Cleanup → Threads
cleanup_push v self b = update_info v self (λ i. record i { buffers = b ∷ i.buffers })

abbrev pub pop_buffers : Threads → ℕ → ℕ → Bool → List Cleanup → Threads × Option Cleanup
pop_buffers v self addr execute [] = (v, none)
pop_buffers v self addr execute (b ∷ rest) =
    if b.addr == addr
    then (update_info v self (λ i. record i { buffers = rest }), if execute then some b else none)
    else (v, none)

-- `pthread_cleanup_pop_inner`, for the buffer at an address, with the buffer whose routine is run.
unfoldable pub cleanup_pop : Threads → ℕ → ℕ → Bool → Threads × Option Cleanup
cleanup_pop v self addr execute = pop_buffers v self addr execute (v.infos self).buffers

abbrev pub scheduled : Threads → ℕ → SchedParam → Option ℕ → Threads × Err
scheduled v policy p none = (v, esrch)
scheduled v policy p (some a) = (
  logged
      (update_info v a
        (λ i. record i { attr = record (i.attr) { schedpolicy = policy; schedparam = p } }))
      (set_priority (v.infos a).task_id p.priority ∷ []),
  success,
)

-- `pthread_setschedparam`, with parameters that are not NULL.
unfoldable pub setschedparam : Consts → Threads → ℕ → ℕ → SchedParam → Threads × Err
setschedparam c v id policy p =
    if not (policy == c.sched_other) && not (policy == c.sched_fifo) && not (policy == c.sched_rr)
    then (v, einval)
    else scheduled v policy p (info_id v id)

abbrev pub schedule_of : Threads → Option ℕ → Err × Option (ℕ × SchedParam)
schedule_of v none = (esrch, none)
schedule_of v (some a) = (success, some ((v.infos a).attr.schedpolicy, (v.infos a).attr.schedparam))

-- `pthread_getschedparam`
unfoldable pub getschedparam : Threads → ℕ → Err × Option (ℕ × SchedParam)
getschedparam v id = schedule_of v (info_id v id)

-- `pthread_once`: the control variable afterwards, and whether this call runs the routine.
unfoldable pub once : ℕ → ℕ × Bool
once old = (1, old == 0)
