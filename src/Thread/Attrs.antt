-- ===== src/Thread/Attrs.antt =====
-- The attributes of threads, of source/aple/lecture-5/minigui-vxworks_pthread.c. Attributes that are NULL
-- are `none`; the results of the second kind are stored through a pointer that is not NULL.
pub mod Errors
use aple.Base.{ℕ, Bool, true, false, ◌||◌, Option, none, some, ◌==◌, if◌then◌else◌, ltb}
use aple.Thread.{Consts, Err, success, einval, enotsup, SchedParam, Attr}

-- VXPTH_THREAD_DEF_PRIORITY, VXPTH_THREAD_DEF_PREEMPT_THRESHOLD and VXPTH_THREAD_DEF_TIME_SLICE
abbrev pub default_sched : SchedParam
default_sched = record { priority = 20; preempt_threshold = 20; time_slice = 10 }

-- `PTHREAD_CHECK (attr)` before a setter or a getter.
abbrev pub checked : Option Attr → (Attr → Attr × Err) → Option Attr × Err
checked none f = (none, einval)
checked (some a) f = (some (f a).0, (f a).1)

abbrev pub read {ℓ} : {A : Type ℓ} → Option Attr → (Attr → Err × Option A) → Err × Option A
read none f = (einval, none)
read (some a) f = f a

module _ (c : Consts) where
  -- What `pthread_attr_init` stores.
  unfoldable pub attr_default : Attr
  attr_default = record {
    detachstate = c.joinable;
    scope = c.scope_system;
    inheritsched = c.inherit_sched;
    schedpolicy = c.sched_fifo;
    schedparam = default_sched;
    stackaddr = none;
    stacksize = none;
  }

  unfoldable pub attr_init : Option Attr → Option Attr × Err
  unfolding attr_default
  attr_init o = checked o (λ a. (attr_default, success))

  unfoldable pub attr_setdetachstate : Option Attr → ℕ → Option Attr × Err
  attr_setdetachstate o n = checked o (λ a.
      if n == c.joinable || n == c.detached
      then (record a { detachstate = n }, success)
      else (a, einval))

  unfoldable pub attr_setscope : Option Attr → ℕ → Option Attr × Err
  attr_setscope o n = checked o (λ a.
      if n == c.scope_system
      then (record a { scope = n }, success)
      else if n == c.scope_process
      then (a, enotsup)
      else (a, einval))

  unfoldable pub attr_setinheritsched : Option Attr → ℕ → Option Attr × Err
  attr_setinheritsched o n = checked o (λ a.
      if n == c.inherit_sched || n == c.explicit_sched
      then (record a { inheritsched = n }, success)
      else (a, einval))

  unfoldable pub attr_setschedpolicy : Option Attr → ℕ → Option Attr × Err
  attr_setschedpolicy o n = checked o (λ a.
      if n == c.sched_fifo
      then (record a { schedpolicy = n }, success)
      else if n == c.sched_other || n == c.sched_rr
      then (a, enotsup)
      else (a, einval))

  unfoldable pub attr_setstacksize : Option Attr → ℕ → Option Attr × Err
  attr_setstacksize o n =
      checked o
        (λ a. if ltb n c.stack_min then (a, einval) else (record a { stacksize = some n }, success))

-- The parameters are none where `param` is NULL.
abbrev pub with_schedparam : Option SchedParam → Attr → Attr × Err
with_schedparam none a = (a, einval)
with_schedparam (some p) a = (record a { schedparam = p }, success)

unfoldable pub attr_setschedparam : Option Attr → Option SchedParam → Option Attr × Err
attr_setschedparam o p = checked o (with_schedparam p)

unfoldable pub attr_setstackaddr : Option Attr → ℕ → Option Attr × Err
attr_setstackaddr o n = checked o (λ a. (record a { stackaddr = some n }, success))

unfoldable pub attr_getdetachstate : Option Attr → Err × Option ℕ
attr_getdetachstate o = read o (λ a. (success, some a.detachstate))

unfoldable pub attr_getscope : Option Attr → Err × Option ℕ
attr_getscope o = read o (λ a. (success, some a.scope))

unfoldable pub attr_getinheritsched : Option Attr → Err × Option ℕ
attr_getinheritsched o = read o (λ a. (success, some a.inheritsched))

unfoldable pub attr_getschedpolicy : Option Attr → Err × Option ℕ
attr_getschedpolicy o = read o (λ a. (success, some a.schedpolicy))

unfoldable pub attr_getschedparam : Option Attr → Err × Option SchedParam
attr_getschedparam o = read o (λ a. (success, some a.schedparam))

-- What was set, or EINVAL.
abbrev pub if_set : Option ℕ → Err × Option ℕ
if_set none = (einval, none)
if_set (some n) = (success, some n)

unfoldable pub attr_getstackaddr : Option Attr → Err × Option ℕ
attr_getstackaddr o = read o (λ a. if_set a.stackaddr)

unfoldable pub attr_getstacksize : Option Attr → Err × Option ℕ
attr_getstacksize o = read o (λ a. if_set a.stacksize)
