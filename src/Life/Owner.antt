-- ===== src/Life/Owner.antt =====
-- The queue of a thread: `mg_AllocMsgQueueForThisThread` and `mg_FreeMsgQueueForThisThread` of
-- source/aple/lecture-5/minigui-message.c.
use aple.Base.{
  ℕ, suc, ◌-◌, ◌≡◌, refl, Bool, true, false, Option, none, some, List, [], ◌∷◌, ◌++◌, if◌then◌else◌,
  ◌⊎◌, inl, inr, arith, append_assoc,
}
use aple.Base.Int.{pos}
use aple.Msg.{MsgQueue}
use aple.Life.{Calls, init_msg_queue}

-- `MSGTHREAD_SIGNIN` and `MSGTHREAD_SIGNOUT`, as the desktop gets them.
pub data Sign : Type 0 where
  sign_in sign_out : Sign

-- What the thread has: the queue under its key, the blocks of queues that are allocated, and what it has told
-- the desktop.
pub record Thread : Type 0 where
  pub this_queue : Option MsgQueue
  pub blocks : ℕ
  pub told : List Sign

abbrev pub tells : Bool → Sign → Thread → Thread
tells false x t = t
tells true x t = record t { told = t.told ++ (x ∷ []) }

abbrev pub with_queue : Bool → ℕ → Thread → Option MsgQueue → Thread × Bool
with_queue signs self t none = (t, false)
with_queue signs self t (some q) = (
  tells signs sign_in
      (record t { this_queue = some (record q { th = self }); blocks = suc t.blocks }),
  true,
)

-- `mg_AllocMsgQueueForThisThread`, with the success of `malloc`, and whether there is a queue in the end.
unfoldable pub alloc_msg_queue_for_this_thread :
    Calls → ℕ → ℕ → ℕ → ℕ → Bool → Bool → Thread → Thread × Bool
alloc_msg_queue_for_this_thread c def_len nr_timers tick self malloc signs t =
    if malloc
    then with_queue signs self t (init_msg_queue c def_len nr_timers tick (pos 0)).0
    else (t, false)

abbrev pub freed_queue : Bool → Thread → Option MsgQueue → Thread
freed_queue signs t none = t
freed_queue signs t (some q) = record (tells signs sign_out t) {
  this_queue = none;
  blocks = t.blocks - 1;
}

-- `mg_FreeMsgQueueForThisThread`; what `mg_DestroyMsgQueue` gives back is lost with the queue.
unfoldable pub free_msg_queue_for_this_thread : Bool → Thread → Thread
free_msg_queue_for_this_thread signs t = freed_queue signs t t.this_queue

-- What the thread leaves behind: as many blocks as before, no queue, and what it told the desktop.
abbrev pub Leaves : Bool → Thread → Thread → Type 0
Leaves signs t u =
    (u.this_queue ≡ none)
    × (u.blocks ≡ t.blocks)
    × (u.told ≡ (if signs then t.told ++ (sign_in ∷ sign_out ∷ []) else t.told))

-- A thread without a queue that allocates one and frees it in the end leaves no block and no queue, and has
-- signed in and out at the desktop, or neither; and where the allocation fails, it is as before.
pub alloc-free_msg_queue :
    (c : Calls) (def_len nr_timers tick self : ℕ) (malloc signs : Bool) (t : Thread)
    → t.this_queue ≡ none
    → (alloc_msg_queue_for_this_thread c def_len nr_timers tick self malloc signs t ≡ (t, false))
      ⊎ Leaves signs t (
          free_msg_queue_for_this_thread signs
            (alloc_msg_queue_for_this_thread c def_len nr_timers tick self malloc signs t).0)
unfolding alloc_msg_queue_for_this_thread free_msg_queue_for_this_thread
alloc-free_msg_queue c def_len nr_timers tick self malloc signs t e =
    allocated malloc (init_msg_queue c def_len nr_timers tick (pos 0)).0
  where
    told_both :
        (b : Bool) (q : MsgQueue)
        → Leaves b t (
            freed_queue b
              (with_queue b self t (some q)).0
              (with_queue b self t (some q)).0.this_queue)
    told_both true q = (refl, omega arith, append_assoc t.told (sign_in ∷ []) (sign_out ∷ []))
    told_both false q = (refl, omega arith, refl)

    allocated :
        (m : Bool) (o : Option MsgQueue)
        → ((if m then with_queue signs self t o else (t, false)) ≡ (t, false))
          ⊎ Leaves signs t (
              freed_queue signs
                (if m then with_queue signs self t o else (t, false)).0
                (if m then with_queue signs self t o else (t, false)).0.this_queue)
    allocated false o = inl refl
    allocated true none = inl refl
    allocated true (some q) = inr (told_both signs q)
