-- ===== src/Thread/Join.antt =====
-- `pthread_join` and `pthread_detach` of source/aple/lecture-5/minigui-vxworks_pthread.c.
pub mod Result
use aple.Base.{
  ℕ, Bool, true, false, ◌&&◌, not, Option, none, some, List, [], ◌∷◌, ◌==◌, if◌then◌else◌,
}
use aple.Base.Int.{inc, dec}
use aple.Thread.{
  Consts, Err, success, einval, esrch, edeadlk, eagain, State, free, detached, running, join,
  exited, give, Info, Threads, update_info, logged, info_id,
}
use aple.Thread.Reap.{TaskStatus, reap_threads}
use aple.Thread.Exit.{is_detached}

-- `checkforcancel`, for a thread that is known.
unfoldable pub check_for_cancel : Consts → Info → Bool
check_for_cancel c i = i.cancelpending && i.cancelstate == c.cancel_enable

-- How far a call goes: it ends the caller, which is cancelled; it waits at the semaphore of the joinee;
-- it returns, with the value that it stores through a pointer that is not NULL; or the reaper hangs.
pub data Joined : Type 0 where
  cancels : Joined
  waits : Threads → ℕ → Joined
  returned : Threads → Err → Option ℕ → Joined
  hangs : Joined

abbrev pub return_in : Err → Option ℕ → Option Threads → Joined
return_in err value none = hangs
return_in err value (some v) = returned v err value

-- The joinee at `a` has exited and is ready to be joined.
unfoldable pub joined : (ℕ → TaskStatus) → Threads → ℕ → Joined
joined status v a = return_in success (some (v.infos a).retval) (
    reap_threads status (record (update_info v a (λ i. record i { state = exited })) {
      exited = inc v.exited;
      tobejoined = dec v.tobejoined;
    }))

-- The `switch` over the state of the joinee.
unfoldable pub join_state : (ℕ → TaskStatus) → Threads → ℕ → State → Joined
unfolding joined
join_state status v a free = returned v einval none
join_state status v a detached = returned v einval none
join_state status v a running = waits v a
join_state status v a join = joined status v a
join_state status v a exited = returned v einval none

abbrev pub join_found : (ℕ → TaskStatus) → Threads → ℕ → Option ℕ → Joined
join_found status v self none = returned v esrch none
join_found status v self (some a) =
    if a == self then returned v edeadlk none else join_state status v a (v.infos a).state

abbrev pub join_in : (ℕ → TaskStatus) → ℕ → ℕ → Option Threads → Joined
join_in status self id none = hangs
join_in status self id (some v) = join_found status v self (info_id v id)

-- `pthread_join`, up to the first wait or the last test for cancellation.
unfoldable pub join_thread : Consts → (ℕ → TaskStatus) → Threads → ℕ → ℕ → Joined
unfolding check_for_cancel join_state
join_thread c status v self id =
    if check_for_cancel c (v.infos self)
    then cancels
    else join_in status self id (reap_threads status v)

abbrev pub is_join : State → Bool
is_join free = false
is_join detached = false
is_join running = false
is_join join = true
is_join exited = false

-- Behind the wait, with the mutex taken again; `ok` says whether `semTake` gave OK.
unfoldable pub join_resume : Consts → (ℕ → TaskStatus) → Threads → ℕ → ℕ → Bool → Joined
unfolding check_for_cancel join_state
join_resume c status v self a ok =
    if not ok && check_for_cancel c (v.infos self)
    then returned v (if is_join (v.infos a).state then eagain else einval) none
    else join_state status v a (v.infos a).state

abbrev pub detach_at : Threads → ℕ → Threads × Err
detach_at v a = if is_detached (v.infos a).state then (v, einval) else (
  logged (update_info v a (λ i. record i { state = detached })) (give (v.infos a).joiner ∷ []),
  success,
)

abbrev pub detach_found : Threads → Option ℕ → Threads × Err
detach_found v none = (v, esrch)
detach_found v (some a) = detach_at v a

abbrev pub with_err : Err → Option Threads → Option (Threads × Err)
with_err err none = none
with_err err (some v) = some (v, err)

-- `pthread_detach`
unfoldable pub detach : (ℕ → TaskStatus) → Threads → ℕ → Option (Threads × Err)
detach status v id =
    let (w, err) = detach_found v (info_id v id) in with_err err (reap_threads status w)
