-- ===== src/Thread/Start.antt =====
-- The start of the threads, in source/aple/lecture-5/minigui-vxworks_pthread.c: `start_minigui_pthread`, and
-- the ids and names of threads.
use aple.Base.{
  ℕ, zero, suc, ◌+◌, ◌/◌, ◌%◌, Bool, true, false, Option, none, some, List, [], ◌∷◌, ◌==◌,
  if◌then◌else◌, ltb, replicate, set,
}
use aple.Thread.{Consts, SchedParam, Attr, Threads}
use aple.Thread.Attrs.{
  attr_init, attr_setdetachstate, attr_setinheritsched, attr_setstackaddr, attr_setstacksize,
  attr_setschedpolicy, attr_setschedparam,
}
use aple.Thread.Create.{Env, Created, create}

-- VXPTH_POSIX_MAIN_DEF_PRIORITY, VXPTH_POSIX_MAIN_DEF_PREEMPT_THRESHOLD and VXPTH_POSIX_MAIN_DEF_TIME_SLICE
abbrev pub main_sched : SchedParam
main_sched = record { priority = 21; preempt_threshold = 21; time_slice = 10 }

-- The attributes of the main thread, on a stack from `base` on, from the memory of the variable `attr`.
unfoldable pub main_attr : Consts → Attr → ℕ → ℕ → Option Attr
unfolding attr_init attr_setdetachstate attr_setinheritsched attr_setstackaddr attr_setstacksize
    attr_setschedpolicy attr_setschedparam
main_attr c junk base size =
    let a = (attr_init c (some junk)).0 in
    let a = (attr_setdetachstate c a c.detached).0 in
    let a = (attr_setinheritsched c a c.explicit_sched).0 in
    let a = (attr_setstackaddr a (base + size)).0 in
    let a = (attr_setstacksize c a size).0 in
    let a = (attr_setschedpolicy c a c.sched_fifo).0 in (attr_setschedparam a (some main_sched)).0

-- The loop over the words of the keys, where every bit is set.
abbrev pub with_keys : Consts → Threads → Threads
with_keys c v = record v { keys = replicate (c.keys_max / 32) (replicate 32 true) }

abbrev pub started : Option (Threads × Created) → Option (Threads × ℕ)
started none = none
started (some r) = some (r.0, 0)

abbrev pub start_main :
    Consts → ℕ → Env → Threads → Attr → ℕ → ℕ → ℕ → ℕ → Option ℕ → Option (Threads × ℕ)
start_main c fuel e v junk min_size arg base size none = some (v, 0)
start_main c fuel e v junk min_size arg base size (some main_entry) =
    if ltb size min_size
    then some (v, 2)
    else started (create c fuel e v (main_attr c junk base size) (some main_entry) arg)

-- `start_minigui_pthread`, where `mutex` says whether there is a mutex, `min_size` is
-- MAIN_PTH_MIN_STACK_SIZE, and `main_entry` is the function `main_pthread_entry` if `pth_entry` is not NULL.
unfoldable pub start_minigui_pthread :
    Consts → ℕ → Env → Threads → Attr → Bool → ℕ → ℕ → ℕ → ℕ → Option ℕ → Option (Threads × ℕ)
unfolding create main_attr
start_minigui_pthread c fuel e v junk false min_size arg base size main_entry = some (v, 1)
start_minigui_pthread c fuel e v junk true min_size arg base size main_entry =
    start_main c fuel e (with_keys c v) junk min_size arg base size main_entry

-- `pthread_self`
unfoldable pub self_id : Threads → ℕ → ℕ
self_id v self = (v.infos self).id

-- `pthread_equal`
unfoldable pub equal : ℕ → ℕ → Bool
equal a b = a == b

-- "0123456789ABCDEF" [n]
abbrev pub digit : ℕ → ℕ
digit n = if ltb n 10 then 48 + n else 55 + n

-- The loop over the places 2 + n to 3 of a name.
unfoldable pub write_digits : ℕ → ℕ → List ℕ → List ℕ
write_digits zero k name = name
write_digits (suc n) k name = write_digits n (k / 16) (set name (suc n + 2) (digit (k % 16)))

abbrev pub with_front : List ℕ → List ℕ → List ℕ
with_front [] ys = ys
with_front (x ∷ xs) [] = []
with_front (x ∷ xs) (y ∷ ys) = x ∷ with_front xs ys

-- "fm-00000000", without the byte behind it, which is not copied.
abbrev pub name_template : List ℕ
name_template = 102 ∷ 109 ∷ 45 ∷ 48 ∷ 48 ∷ 48 ∷ 48 ∷ 48 ∷ 48 ∷ 48 ∷ 48 ∷ []

-- `__vxpth_get_name`, for a counter that is not negative.
unfoldable pub get_name : Threads → ℕ → List ℕ → Threads × List ℕ
unfolding write_digits
get_name v type name = (
  record v { names = suc v.names },
  write_digits 8 v.names (set (with_front name_template name) 2 type),
)
