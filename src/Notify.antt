-- ===== src/Notify.antt =====
-- Notification messages: `SendNotifyMessage`, `SendPriorNotifyMessage` and `NotifyWindow` of
-- source/aple/lecture-5/minigui-message.c.
pub mod Order
use aple.Base.{ℕ, Bool, true, false, not, Option, none, some, if◌then◌else◌, List}
use aple.Msg.{Msg, QMsg, MsgQueue, msg_notification}
use aple.Chain.Fifo.{append_node, push_node}
use aple.World.{World, update_queue, wake, get_msg_queue, is_window}
use aple.Post.{Code, ok, inv_hwnd}

-- The list with its two pointers, and the flag QS_NOTIFYMSG.
abbrev pub with_notify : MsgQueue → List QMsg × Option ℕ → MsgQueue
with_notify q c = record q {
  notify = c.0;
  last_notify = c.1;
  state = record (q.state) { notify_msg = true };
}

-- The block that `ALLOCQMSG ()` returned, at `addr`, with its fields set. The block heap is not part of
-- the sources; `junk` is what the field `pSyncMsg`, which is not set, holds.
abbrev pub node_at : ℕ → Option ℕ → ℕ → ℕ → ℕ → ℕ → ℕ → QMsg
node_at addr junk hwnd message w_param l_param time = record {
  addr = addr;
  body = record {
    hwnd = hwnd;
    message = message;
    w_param = w_param;
    l_param = l_param;
    time = time;
    sync = junk;
  };
}

-- The part of the three functions behind the checks of the window.
unfoldable pub enqueue_notify : World → ℕ → (MsgQueue → MsgQueue) → World × Code
enqueue_notify w hwnd f =
    if not (is_window w hwnd) then (w, inv_hwnd) else elim (get_msg_queue w hwnd) [
      | none ↦ (w, inv_hwnd)
      | some q ↦ (update_queue w q (λ k. wake w hwnd (f k)), ok)
    ]

abbrev pub append_notify : QMsg → MsgQueue → MsgQueue
append_notify x q = with_notify q (append_node (λ n. n.addr) q.notify q.last_notify x)

abbrev pub push_notify : QMsg → MsgQueue → MsgQueue
push_notify x q = with_notify q (push_node (λ n. n.addr) q.notify q.last_notify x)

unfoldable pub send_notify_message : World → ℕ → Option ℕ → ℕ → ℕ → ℕ → ℕ → World × Code
unfolding enqueue_notify
send_notify_message w addr junk hwnd message w_param l_param =
    enqueue_notify w hwnd (append_notify (node_at addr junk hwnd message w_param l_param w.tick))

unfoldable pub send_prior_notify_message : World → ℕ → Option ℕ → ℕ → ℕ → ℕ → ℕ → World × Code
unfolding enqueue_notify
send_prior_notify_message w addr junk hwnd message w_param l_param =
    enqueue_notify w hwnd (push_notify (node_at addr junk hwnd message w_param l_param w.tick))

-- `time` carries the additional data.
unfoldable pub notify_window : World → ℕ → Option ℕ → ℕ → ℕ → ℕ → ℕ → World × Code
unfolding enqueue_notify
notify_window w addr junk hwnd id code add_data =
    enqueue_notify w hwnd (append_notify (node_at addr junk hwnd msg_notification id code add_data))
