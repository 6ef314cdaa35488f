-- ===== src/Sem.antt =====
-- The counting semaphores of source/aple/lecture-5/minigui-vxworks_sem.c, on the semaphores of the
-- VxWorks kernel.
pub mod Count
use aple.Base.{
  ℕ, suc, ◌+◌, ◌-◌, ◌%◌, ◌^◌, Bool, true, false, Option, none, some, if◌then◌else◌, ltb, ◌≡◌, ◌≢◌,
  ◌<◌, List, [], ◌∷◌, ◌==◌,
}

-- What the functions leave in `errno` where they return -1, or success.
pub data Ret : Type 0 where
  done einval enosys enomem eagain : Ret

-- How `semTake` ends: with OK, or with ERROR and one of the two errors that say that the semaphore was
-- not to be had, or with ERROR and another one.
pub data Taken : Type 0 where
  ok timeout unavailable failed : Taken

-- `sem_t`
pub record Sem : Type 0 where
  pub semid : ℕ
  pub value : ℕ

-- The calls of the kernel, on its state: `semCCreate`, whose id is 0 where it fails, `semDelete`,
-- `semTake`, whose flag says whether to wait, and `semGive`. A `semTake` that waits returns when it has
-- the semaphore; the steps of others in between are part of the call.
pub record Kernel (K : Type 0) : Type 0 where
  pub create : K → ℕ → K × ℕ
  pub delete : K → ℕ → K × Bool
  pub take : K → ℕ → Bool → K × Taken
  pub give : K → ℕ → K × Bool

module _ {K : Type 0} (kernel : Kernel K) where
  -- `sem_init`; `sem_value_max` is SEM_VALUE_MAX.
  unfoldable pub sem_init : ℕ → K → Option Sem → Bool → ℕ → K × Option Sem × Ret
  sem_init sem_value_max k none pshared value = (k, none, einval)
  sem_init sem_value_max k (some s) pshared value =
      if pshared
      then (k, some s, enosys)
      else if ltb sem_value_max value
      then (k, some s, einval)
      else if (kernel.create k value).1 == 0
      then ((kernel.create k value).0, some (record s { semid = 0 }), enomem)
      else (
        (kernel.create k value).0,
        some (record { semid = (kernel.create k value).1; value = value }),
        done,
      )

  unfoldable pub sem_destroy : K → Option Sem → K × Ret
  sem_destroy k none = (k, einval)
  sem_destroy k (some s) =
      ((kernel.delete k s.semid).0, if (kernel.delete k s.semid).1 then done else einval)

  -- `if (sem->value > 0) sem->value --`
  abbrev pub lowered : Sem → Sem
  lowered s = record s { value = if ltb 0 s.value then s.value - 1 else s.value }

  abbrev pub wait_end : K → Sem → Taken → K × Sem × Ret
  wait_end k s ok = (k, lowered s, done)
  wait_end k s timeout = (k, s, einval)
  wait_end k s unavailable = (k, s, einval)
  wait_end k s failed = (k, s, einval)

  -- `sem_wait`, in a thread that is not cancelled, at a semaphore that is not NULL.
  unfoldable pub sem_wait : K → Sem → K × Sem × Ret
  sem_wait k s = wait_end (kernel.take k s.semid true).0 s (kernel.take k s.semid true).1

  abbrev pub trywait_end : K → Sem → Taken → K × Sem × Ret
  trywait_end k s ok = (k, lowered s, done)
  trywait_end k s timeout = (k, s, eagain)
  trywait_end k s unavailable = (k, s, eagain)
  trywait_end k s failed = (k, s, einval)

  unfoldable pub sem_trywait : K → Sem → K × Sem × Ret
  sem_trywait k s = trywait_end (kernel.take k s.semid false).0 s (kernel.take k s.semid false).1

  -- `sem_post`; the field `value` has `bits` bits.
  unfoldable pub sem_post : ℕ → K → Sem → K × Sem × Ret
  sem_post bits k s =
      if (kernel.give k s.semid).1
      then ((kernel.give k s.semid).0, record s { value = (s.value + 1) % 2 ^ bits }, done)
      else ((kernel.give k s.semid).0, s, einval)

-- `sem_getvalue`
unfoldable pub sem_getvalue : Sem → ℕ
sem_getvalue s = s.value
