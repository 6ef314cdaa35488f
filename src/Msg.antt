-- ===== src/Msg.antt =====
-- The types of the message module: messages, the two linked lists' nodes, the state word, timers and
-- the message queue (source/aple/lecture-5/minigui-internals.h, minigui-window.h).
use aple.Base.{ℕ, Bool, false, Option, none, List, ◌^◌, ◌-◌}
use aple.Base.Int.{ℤ}

-- `MSG`. `sync` is `pSyncMsg`: the address of the synchronous message that this is a copy of.
pub record Msg : Type 0 where
  pub hwnd : ℕ
  pub message : ℕ
  pub w_param : ℕ
  pub l_param : ℕ
  pub time : ℕ
  pub sync : Option ℕ

-- `memset (pMsg, 0, sizeof(MSG))`
abbrev pub null_msg : Msg
null_msg = record { hwnd = 0; message = 0; w_param = 0; l_param = 0; time = 0; sync = none }

-- `HWND_NULL` and `HWND_INVALID`, which is `(HWND)-1`; handles have 64 bits.
abbrev pub hwnd_null : ℕ
hwnd_null = 0

abbrev pub hwnd_invalid : ℕ
hwnd_invalid = 2 ^ 64 - 1

abbrev pub msg_mousemove : ℕ
msg_mousemove = 0x0004

abbrev pub msg_ncmousemove : ℕ
msg_ncmousemove = 0x000E

abbrev pub msg_paint : ℕ
msg_paint = 0x00B1

abbrev pub msg_dt_mousemove : ℕ
msg_dt_mousemove = 0x00D4

abbrev pub msg_command : ℕ
msg_command = 0x0120

abbrev pub msg_notification : ℕ
msg_notification = 0x0136

abbrev pub msg_quit : ℕ
msg_quit = 0x0140

abbrev pub msg_idle : ℕ
msg_idle = 0x0142

abbrev pub msg_timeout : ℕ
msg_timeout = 0x0143

abbrev pub msg_timer : ℕ
msg_timer = 0x0144

abbrev pub msg_caretblink : ℕ
msg_caretblink = 0x0145

-- `QMSG`, with the address of the block. Its `next` is the node that follows it in its list.
pub record QMsg : Type 0 where
  pub addr : ℕ
  pub body : Msg

-- `SYNCMSG`, which lies on the sender's stack at `addr`, with its semaphore.
pub record SyncMsg : Type 0 where
  pub addr : ℕ
  pub body : Msg
  pub retval : ℤ

-- `dwState`: the bits `QS_NOTIFYMSG` to `QS_DESKTIMER`, each a power of two of its own.
pub record QState : Type 0 where
  pub notify_msg : Bool
  pub sync_msg : Bool
  pub post_msg : Bool
  pub quit : Bool
  pub paint : Bool
  pub desk_timer : Bool

-- `QS_EMPTY`
abbrev pub qs_empty : QState
qs_empty = record {
  notify_msg = false;
  sync_msg = false;
  post_msg = false;
  quit = false;
  paint = false;
  desk_timer = false;
}

-- What the message module reads of a `TIMER`; `proc` says whether it has a callback.
pub record Timer : Type 0 where
  pub hwnd : ℕ
  pub id : ℕ
  pub ticks_fired : ℕ
  pub proc : Bool

-- The buffer for posted messages: `msg`, `len`, `readpos` and `writepos` of `MSGQUEUE`.
pub record Ring : Type 0 where
  pub msg : List Msg
  pub len : ℕ
  pub readpos : ℕ
  pub writepos : ℕ

-- `MSGQUEUE`. `notify` and `sync` are the nodes that `pFirstNotifyMsg` and `pFirstSyncMsg` reach,
-- `last_notify` and `last_sync` the addresses that `pLastNotifyMsg` and `pLastSyncMsg` hold.
-- `sem_value` is the count of the semaphore `wait`, `on_idle` says whether `OnIdle` is set, and bit
-- `k` of `expired_timer_mask` is item `k` of `expired`.
pub record MsgQueue : Type 0 where
  pub th : ℕ
  pub sem_value : ℕ
  pub state : QState
  pub notify : List QMsg
  pub last_notify : Option ℕ
  pub sync : List SyncMsg
  pub last_sync : Option ℕ
  pub on_idle : Bool
  pub ring : Ring
  pub loop_depth : ℤ
  pub idle_counter : ℕ
  pub first_timer_slot : ℕ
  pub timer_slots : List (Option Timer)
  pub old_tick_count : ℕ
  pub expired : List Bool
