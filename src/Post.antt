-- ===== src/Post.antt =====
-- Posting to a queue: `kernel_QueueMessage`, `PostMessage`, `PostQuitMessage` and the broadcast of
-- source/aple/lecture-5/minigui-message.c.
pub mod Delivery
pub mod Broadcast
use aple.Base.{
  ℕ, Bool, true, false, ◌+◌, ◌%◌, ◌^◌, ◌&&◌, ◌||◌, Option, none, some, List, [], ◌∷◌, ◌++◌, ◌==◌,
  if◌then◌else◌,
}
use aple.Base.Int.{inc}
use aple.Msg.{Msg, MsgQueue, msg_paint, hwnd_null}
use aple.Paint.{Main, main, handle, travel}
use aple.Ring.{queue}
use aple.World.{World, update_queue, wake, get_msg_queue, is_handle, type_hwnd, type_wintodel}

-- `ERR_OK`, `ERR_INV_HWND` and `ERR_QUEUE_FULL`.
pub data Code : Type 0 where
  ok inv_hwnd queue_full : Code

-- The message with the time that `kernel_QueueMessage` writes into it.
abbrev pub stamped : World → Msg → Msg
stamped w m = record m { time = w.tick }

-- The stores of `kernel_QueueMessage` for a message that is taken, all under the lock of the queue.
abbrev pub put_message : Msg → MsgQueue → MsgQueue
put_message m q = record q {
  ring = (queue q.ring m).0;
  state = record (q.state) { post_msg = true };
}

-- These stores and, behind the lock, `POST_MSGQ`.
unfoldable pub taken : World → Msg → MsgQueue → MsgQueue
taken w m q = wake w m.hwnd (put_message m q)

-- `kernel_QueueMessage`, with the message as the caller finds it afterwards. No caller passes a NULL
-- message; a queue may be NULL.
unfoldable pub kernel_queue_message : World → Option ℕ → Msg → World × Msg × Bool
unfolding taken
kernel_queue_message w none m = (w, m, false)
kernel_queue_message w (some q) m =
    if (queue (w.queues q).ring (stamped w m)).1
    then (update_queue w q (taken w (stamped w m)), stamped w m, true)
    else (w, stamped w m, false)

-- `pMsgQueue->dwState |= QS_PAINT`
abbrev pub set_paint : MsgQueue → MsgQueue
set_paint q = record q { state = record (q.state) { paint = true } }

-- `PostMessage`. `junk` is what the field `pSyncMsg` of the local `msg`, which is not set, holds.
unfoldable pub post_to : World → ℕ → Msg → Option ℕ → World × Code
unfolding kernel_queue_message
post_to w hwnd m none = (w, inv_hwnd)
post_to w hwnd m (some q) =
    if m.message == msg_paint then (update_queue w q (λ k. wake w hwnd (set_paint k)), ok) else (
      (kernel_queue_message w (some q) m).0,
      if (kernel_queue_message w (some q) m).2 then ok else queue_full,
    )

unfoldable pub post_message : World → Option ℕ → ℕ → ℕ → ℕ → ℕ → World × Code
unfolding post_to
post_message w junk hwnd message w_param l_param =
    post_to w hwnd
      (record {
        hwnd = hwnd;
        message = message;
        w_param = w_param;
        l_param = l_param;
        time = 0;
        sync = junk;
      })
      (get_msg_queue w hwnd)

-- The queue that `PostQuitMessage` and `ThrowAwayMessages` take, also for a window to be deleted.
unfoldable pub live_queue : World → ℕ → Option ℕ
live_queue w hwnd =
    if is_handle hwnd
      && ((w.windows hwnd).data_type == type_hwnd || (w.windows hwnd).data_type == type_wintodel)
    then (w.windows (w.windows hwnd).main_win).queue
    else none

abbrev pub set_quit : MsgQueue → MsgQueue
set_quit q =
    if q.state.quit
    then q
    else record q { loop_depth = inc q.loop_depth; state = record (q.state) { quit = true } }

unfoldable pub post_quit_message : World → ℕ → World × Code
unfolding live_queue
post_quit_message w hwnd = elim (live_queue w hwnd) [
  | none ↦ (w, inv_hwnd)
  | some q ↦ (update_queue w q (λ k. wake w hwnd (set_quit k)), ok)
]

-- `_my_travel_cb`: the message goes to one window, and counts in its `time` if it was taken. A DWORD
-- has `bits` bits.
unfoldable pub my_travel_cb : ℕ → World × Msg → ℕ → World × Msg
unfolding kernel_queue_message
my_travel_cb bits (w, m) win =
    let (w', m', done) = kernel_queue_message w (w.windows win).queue (record m { hwnd = win }) in
    (w', if done then record m' { time = (m'.time + 1) % 2 ^ bits } else m')

-- `__mg_broadcast_message` over the windows in the order in which `travel_all_hosted` and the last
-- call visit them.
unfoldable pub broadcast_from : ℕ → World × Msg → List ℕ → World × Msg
unfolding my_travel_cb
broadcast_from bits s [] = s
broadcast_from bits s (win ∷ wins) = broadcast_from bits (my_travel_cb bits s win) wins

abbrev pub root_handle : Main → ℕ
root_handle (main c hosted) = handle c

-- `__mg_broadcast_message` from the root window of a queue, if it has one: the hosted windows, then the
-- root itself. The message comes back with its `time`, which is the result.
unfoldable pub broadcast_message : ℕ → World → Option Main → Msg → World × Msg
unfolding broadcast_from
broadcast_message bits w none m = (w, record m { time = 0 })
broadcast_message bits w (some root) m =
    broadcast_from bits (w, record m { time = 0 }) (travel root ++ (root_handle root ∷ []))
