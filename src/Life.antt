-- ===== src/Life.antt =====
-- A queue's beginning and end, and the idle handlers: `mg_InitMsgQueue`, `mg_DestroyMsgQueue`,
-- `handle_idle_message` and `std_idle_handler` of source/aple/lecture-5/minigui-message.c.
pub mod Ready
pub mod Owner
use aple.Base.{
  ℕ, zero, suc, ◌+◌, ◌-◌, ◌%◌, ◌^◌, Bool, true, false, not, Option, none, some, List, [], ◌∷◌, leb,
  ltb, if◌then◌else◌, replicate,
}
use aple.Base.Int.{ℤ, pos, negsuc}
use aple.Msg.{Msg, null_msg, MsgQueue, QMsg, qs_empty, hwnd_null, msg_idle}
use aple.Paint.{Main}
use aple.World.{World, update_queue}
use aple.Post.{broadcast_message}

-- What the calls of an initialisation return, in their order, each as whether it succeeds; `malloc` is
-- the block for so many messages, with what it holds.
pub record Calls : Type 0 where
  pub attr_init : Bool
  pub set_type : Bool
  pub lock_init : Bool
  pub attr_destroy : Bool
  pub wait_init : Bool
  pub malloc : ℕ → Option (List Msg)

-- Whether the lock and the semaphore of the queue are initialised and not destroyed.
pub record Held : Type 0 where
  pub lock : Bool
  pub wait : Bool

-- `if (iBufferLen <= 0) iBufferLen = DEF_MSGQUEUE_LEN`
unfoldable pub buffer_len : ℕ → ℤ → ℕ
buffer_len def_len (pos zero) = def_len
buffer_len def_len (pos (suc n)) = suc n
buffer_len def_len (negsuc n) = def_len

-- The queue with its fields cleared, the buffer and its length, the idle handler and the tick counter.
abbrev pub fresh : ℕ → ℕ → ℕ → List Msg → MsgQueue
fresh nr_timers tick len block = record {
  th = 0;
  sem_value = 0;
  state = qs_empty;
  notify = [];
  last_notify = none;
  sync = [];
  last_sync = none;
  on_idle = true;
  ring = record { msg = block; len = len; readpos = 0; writepos = 0 };
  loop_depth = pos 0;
  idle_counter = 0;
  first_timer_slot = 0;
  timer_slots = replicate nr_timers none;
  old_tick_count = tick;
  expired = replicate nr_timers false;
}

abbrev pub with_block : ℕ → ℕ → ℕ → Option (List Msg) → Option MsgQueue × Held
with_block nr_timers tick len none = (none, record { lock = false; wait = false })
with_block nr_timers tick len (some block) =
    (some (fresh nr_timers tick len block), record { lock = true; wait = true })

-- `mg_InitMsgQueue`, with DEF_MSGQUEUE_LEN and DEF_NR_TIMERS; `none` is FALSE.
unfoldable pub init_msg_queue : Calls → ℕ → ℕ → ℕ → ℤ → Option MsgQueue × Held
unfolding buffer_len
init_msg_queue c def_len nr_timers tick buf_len =
    if not c.attr_init
    then (none, record { lock = false; wait = false })
    else if not c.set_type
    then (none, record { lock = false; wait = false })
    else if not c.lock_init
    then (none, record { lock = false; wait = false })
    else if not c.attr_destroy
    then (none, record { lock = true; wait = false })
    else if not c.wait_init
    then (none, record { lock = true; wait = false })
    else with_block nr_timers tick (buffer_len def_len buf_len)
        (c.malloc (buffer_len def_len buf_len))

-- The loop that gives the notification messages back, by their addresses.
unfoldable pub free_all : List QMsg → List ℕ
free_all [] = []
free_all (head ∷ rest) = head.addr ∷ free_all rest

-- `mg_DestroyMsgQueue`; `remove_timers` is `__mg_remove_timers_by_msg_queue`. The pointers to the
-- notification messages stay as they are.
unfoldable pub destroy_msg_queue : (MsgQueue → MsgQueue) → MsgQueue → MsgQueue × List ℕ × Held
unfolding free_all
destroy_msg_queue remove_timers q = (
  record (remove_timers q) { ring = record ((remove_timers q).ring) { msg = [] } },
  free_all q.notify,
  record { lock = false; wait = false },
)

abbrev pub idle_msg : World → Msg
idle_msg w = record null_msg { hwnd = hwnd_null; message = msg_idle; w_param = w.tick }

abbrev pub count_idle : World → ℕ → World
count_idle w q = update_queue w q (λ k. record k { idle_counter = suc k.idle_counter })

-- `handle_idle_message`, with MAX_IDLE_COUNTER; `root` is the root window of the queue at `q`.
unfoldable pub handle_idle_message : ℕ → ℕ → World → ℕ → Option Main → World × ℕ
handle_idle_message bits max_idle w q root =
    if leb max_idle (suc (w.queues q).idle_counter)
    then (
      update_queue (broadcast_message bits (count_idle w q) root (idle_msg w)).0 q
          (λ k. record k { idle_counter = 0 }),
      (broadcast_message bits (count_idle w q) root (idle_msg w)).1.time,
    )
    else (count_idle w q, 0)

-- `std_idle_handler` in a build without `select`; `check_timers` is `__mg_check_expired_timers`, with
-- the ticks since it was called last. A tick counter has `bits` bits.
unfoldable pub std_idle_handler : (World → ℕ → ℕ → World × ℕ) → ℕ → World → ℕ → World × Bool
std_idle_handler check_timers bits w q =
    let (w', n) =
      check_timers w q ((w.tick + (2 ^ bits - (w.queues q).old_tick_count)) % 2 ^ bits) in
    (update_queue w' q (λ k. record k { old_tick_count = w'.tick }), ltb 0 n)
