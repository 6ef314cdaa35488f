-- ===== src/Thread/Reap.antt =====
-- The reaper of source/aple/lecture-5/minigui-vxworks_pthread.c, which takes threads that have exited
-- out of the table.
pub mod Ends
pub mod Sweep
use aple.Base.{ℕ, Bool, true, false, Option, none, some, List, [], ◌∷◌, ◌++◌, if◌then◌else◌}
use aple.Base.Int.{ℤ, pos, negsuc, dec}
use aple.Thread.{State, Call, delete_task, delete_sem, free_block, Info, Threads, is_exited}

-- What `taskStatusString` says of a task: an error, "DEAD", or something else.
pub data TaskStatus : Type 0 where
  invalid dead alive : TaskStatus

-- `i > 0`
abbrev pub is_pos : ℤ → Bool
is_pos (pos ℕ.zero) = false
is_pos (pos (ℕ.suc n)) = true
is_pos (negsuc n) = false

-- What the loop does with a slot: it goes on, it reaps the thread, or it never leaves the slot, since it
-- does not ask for the status again.
pub data Verdict : Type 0 where
  skip reap hang : Verdict

abbrev pub by_status : TaskStatus → Verdict
by_status invalid = skip
by_status dead = reap
by_status alive = hang

-- What the loop leaves: the slots, the two counters and the calls made.
pub record Reaped : Type 0 where
  pub slots : List (Option ℕ)
  pub count : ℤ
  pub exited : ℤ
  pub calls : List Call

abbrev pub reap_calls : Info → List Call
reap_calls i =
    delete_task i.task_id
    ∷ delete_sem i.joiner
    ∷ (if i.freestack then free_block i.stackmem ∷ [] else [])

abbrev pub behind : Option ℕ → Option Reaped → Option Reaped
behind s none = none
behind s (some r) = some (record r { slots = s ∷ r.slots })

module _ (status : ℕ → TaskStatus) (infos : ℕ → Info) where
  abbrev pub verdict : Option ℕ → Verdict
  verdict none = skip
  verdict (some a) =
      if is_exited (infos a).state then by_status (status (infos a).task_id) else skip

  abbrev pub calls_at : Option ℕ → List Call
  calls_at none = []
  calls_at (some a) = reap_calls (infos a)

  -- `none` says that the loop does not end.
  unfoldable pub reap_slots : List (Option ℕ) → ℤ → ℤ → List Call → Option Reaped
  reap_slots [] count exited calls =
      some (record { slots = []; count = count; exited = exited; calls = calls })
  reap_slots (s ∷ ss) count exited calls = elim (is_pos exited) [
    | false ↦ some (record { slots = s ∷ ss; count = count; exited = exited; calls = calls })
    | true ↦ elim (verdict s) [
      | skip ↦ behind s (reap_slots ss count exited calls)
      | reap ↦ behind none (reap_slots ss (dec count) (dec exited) (calls ++ calls_at s))
      | hang ↦ none
    ]
  ]

abbrev pub with_reaped : Threads → Option Reaped → Option Threads
with_reaped v none = none
with_reaped v (some r) =
    some (record v { table = r.slots; count = r.count; exited = r.exited; calls = r.calls })

-- `pthread_reap`
unfoldable pub reap_threads : (ℕ → TaskStatus) → Threads → Option Threads
unfolding reap_slots
reap_threads status v = with_reaped v (reap_slots status v.infos v.table v.count v.exited v.calls)
