-- ===== src/Mutex.antt =====
-- The mutexes of source/aple/lecture-5/minigui-vxworks_mutex.c, on the binary semaphores of the VxWorks
-- kernel. A pointer that is NULL is `none`.
pub mod Exclusion
use aple.Base.{ℕ, Bool, true, false, ◌&&◌, not, Option, none, some, ◌==◌, if◌then◌else◌}
use aple.Sem.{Taken, ok, timeout, unavailable, failed}

-- What the functions return: 0 or an error.
pub data Status : Type 0 where
  success einval ebusy : Status

-- `pthread_mutexattr_t`: whether `protocol` is VX_INHERIT, which is 0, or VX_NO_INHERIT, which is 1.
abbrev pub vx_inherit : ℕ
vx_inherit = 0

abbrev pub vx_no_inherit : ℕ
vx_no_inherit = 1

-- `pthread_mutexattr_init`: the protocol afterwards.
unfoldable pub mutexattr_init : Option ℕ → Option ℕ × Status
mutexattr_init none = (none, einval)
mutexattr_init (some protocol) = (some vx_no_inherit, success)

unfoldable pub mutexattr_setprotocol : Option ℕ → ℕ → Option ℕ × Status
mutexattr_setprotocol none protocol = (none, einval)
mutexattr_setprotocol (some old) protocol =
    if not (protocol == vx_no_inherit) && not (protocol == vx_inherit)
    then (some old, einval)
    else (some protocol, success)

unfoldable pub mutexattr_getprotocol : Option ℕ → Option ℕ × Status
mutexattr_getprotocol none = (none, einval)
mutexattr_getprotocol (some protocol) = (some protocol, success)

-- The calls of the kernel, on its state: `semBCreate`, full, whose id is 0 where it fails, `semDelete`,
-- `semTake`, whose flag says whether to wait, and `semGive`.
pub record Binary (K : Type 0) : Type 0 where
  pub create : K → K × ℕ
  pub delete : K → ℕ → K × Bool
  pub take : K → ℕ → Bool → K × Taken
  pub give : K → ℕ → K × Bool

abbrev pub status_of : Bool → Status
status_of true = success
status_of false = einval

abbrev pub lock_status : Taken → Status
lock_status ok = success
lock_status timeout = einval
lock_status unavailable = einval
lock_status failed = einval

abbrev pub trylock_status : Taken → Status
trylock_status ok = success
trylock_status timeout = ebusy
trylock_status unavailable = ebusy
trylock_status failed = einval

module _ {K : Type 0} (kernel : Binary K) where
  -- `pthread_mutex_init`: the id that is stored in `vx_mutex`. The attributes are read and not used.
  unfoldable pub mutex_init : K → K × ℕ × Status
  mutex_init k = (
    (kernel.create k).0,
    (kernel.create k).1,
    if (kernel.create k).1 == 0 then einval else success,
  )

  unfoldable pub mutex_destroy : K → Option ℕ → K × Status
  mutex_destroy k none = (k, einval)
  mutex_destroy k (some id) = ((kernel.delete k id).0, status_of (kernel.delete k id).1)

  unfoldable pub mutex_lock : K → Option ℕ → K × Status
  mutex_lock k none = (k, einval)
  mutex_lock k (some id) = ((kernel.take k id true).0, lock_status (kernel.take k id true).1)

  unfoldable pub mutex_trylock : K → Option ℕ → K × Status
  mutex_trylock k none = (k, einval)
  mutex_trylock k (some id) =
      ((kernel.take k id false).0, trylock_status (kernel.take k id false).1)

  unfoldable pub mutex_unlock : K → Option ℕ → K × Status
  mutex_unlock k none = (k, einval)
  mutex_unlock k (some id) = ((kernel.give k id).0, status_of (kernel.give k id).1)
