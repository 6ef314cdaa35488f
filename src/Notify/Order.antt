-- ===== src/Notify/Order.antt =====
-- Notifications wait in the order in which they were sent, a prior one before all others.
use aple.Base.{
  ℕ, ◌≡◌, refl, ap, sym, subst, true, Option, some, List, [], ◌∷◌, ◌++◌, ◌==◌, ==_refl, Bool-cases,
  inl, inr,
}
use aple.Msg.{QMsg, MsgQueue, msg_notification}
use aple.Chain.{Apart}
use aple.Chain.Fifo.{IsChain, append_node, append_node_lem, append-IsChain, push_node_lem}
use aple.World.{World, wake, in_this_thread, get_msg_queue, is_window}
use aple.Post.{ok}
use aple.Notify.{
  node_at, enqueue_notify, append_notify, push_notify, send_notify_message,
  send_prior_notify_message, notify_window,
}

abbrev pub addr_of : QMsg → ℕ
addr_of n = n.addr

-- The two pointers to the list of notifications are right.
abbrev pub IsLinked : MsgQueue → Type 0
IsLinked q = IsChain addr_of q.notify q.last_notify

-- What a queue holds after a notification: the nodes `xs`, rightly linked, and QS_NOTIFYMSG set.
pub record Holds (q : MsgQueue) (xs : List QMsg) : Type 0 where
  pub nodes : q.notify ≡ xs
  pub linked : IsLinked q
  pub flagged : q.state.notify_msg ≡ true

wake-Holds :
    (w : World) (hwnd : ℕ) (q : MsgQueue) (xs : List QMsg) → Holds q xs → Holds (wake w hwnd q) xs
unfolding wake
wake-Holds w hwnd q xs h = elim (Bool-cases (in_this_thread w hwnd)) [
  | inl t ↦ rw t h
  | inr t ↦ rw t (elim (Bool-cases (q.sem_value == 0)) [
    | inl u ↦ rw u (record { nodes = h.nodes; linked = h.linked; flagged = h.flagged })
    | inr u ↦ rw u h
  ])
]

append-Holds :
    (q : MsgQueue) (x : QMsg)
    → IsLinked q
    → Apart addr_of x.addr q.notify
    → Holds (append_notify x q) (q.notify ++ (x ∷ []))
append-Holds q x v fresh = record {
  nodes = ap (λ c. c.0) e;
  linked =
      subst (λ (c : List QMsg × Option ℕ). IsChain addr_of c.0 c.1) (sym e)
        (append-IsChain addr_of q.notify q.last_notify x v fresh);
  flagged = refl;
}
  where
    e : append_node addr_of q.notify q.last_notify x ≡ (q.notify ++ (x ∷ []), some x.addr)
    e = append_node_lem addr_of q.notify q.last_notify x v

push-Holds :
    (q : MsgQueue) (x : QMsg)
    → IsLinked q
    → Apart addr_of x.addr q.notify
    → Holds (push_notify x q) (x ∷ q.notify)
push-Holds q x v fresh = record {
  nodes = (push_node_lem addr_of q.notify q.last_notify x v fresh).0;
  linked = (push_node_lem addr_of q.notify q.last_notify x v fresh).1;
  flagged = refl;
}

enqueue_notify-Holds :
    (w : World) (hwnd q : ℕ) (f : MsgQueue → MsgQueue) (xs : List QMsg)
    → is_window w hwnd ≡ true
    → get_msg_queue w hwnd ≡ some q
    → Holds (f (w.queues q)) xs
    → ((enqueue_notify w hwnd f).1 ≡ ok) × Holds ((enqueue_notify w hwnd f).0.queues q) xs
unfolding enqueue_notify
enqueue_notify-Holds w hwnd q f xs win e h =
    rw (win, e, ==_refl q) (refl, wake-Holds w hwnd (f (w.queues q)) xs h)

-- A notification to a window that has a queue whose pointers are right, in a block that is not one of the
-- list's, is accepted and waits behind all those sent before it; the pointers stay right and the flag
-- QS_NOTIFYMSG is set.
pub send_notify_message-Holds :
    (w : World) (addr : ℕ) (junk : Option ℕ) (hwnd message w_param l_param q : ℕ)
    → is_window w hwnd ≡ true
    → get_msg_queue w hwnd ≡ some q
    → IsLinked (w.queues q)
    → Apart addr_of addr (w.queues q).notify
    → let (w', code) = send_notify_message w addr junk hwnd message w_param l_param in
      (code ≡ ok)
      × Holds
          (w'.queues q)
          ((w.queues q).notify ++ (node_at addr junk hwnd message w_param l_param w.tick ∷ []))
unfolding send_notify_message
send_notify_message-Holds w addr junk hwnd message w_param l_param q win e v fresh =
    enqueue_notify-Holds w hwnd q
      (append_notify (node_at addr junk hwnd message w_param l_param w.tick)) _ win e
      (append-Holds (w.queues q) (node_at addr junk hwnd message w_param l_param w.tick) v fresh)

-- At a window that has a queue whose pointers are right, and with a block that is not one of the list's, a
-- prior notification waits before all others, and one of `NotifyWindow` behind them, with the additional
-- data for its time; both leave the pointers right.
pub prior_and_window-Holds :
    (w : World) (addr : ℕ) (junk : Option ℕ) (hwnd message w_param l_param add_data q : ℕ)
    → is_window w hwnd ≡ true
    → get_msg_queue w hwnd ≡ some q
    → IsLinked (w.queues q)
    → Apart addr_of addr (w.queues q).notify
    → Holds
        ((send_prior_notify_message w addr junk hwnd message w_param l_param).0.queues q)
        (node_at addr junk hwnd message w_param l_param w.tick ∷ (w.queues q).notify)
      × Holds ((notify_window w addr junk hwnd w_param l_param add_data).0.queues q) (
          (w.queues q).notify
          ++ (node_at addr junk hwnd msg_notification w_param l_param add_data ∷ []))
unfolding send_prior_notify_message notify_window
prior_and_window-Holds w addr junk hwnd message w_param l_param add_data q win e v fresh = (
  (enqueue_notify-Holds w hwnd q
      (push_notify (node_at addr junk hwnd message w_param l_param w.tick)) _ win e
      (push-Holds (w.queues q) (node_at addr junk hwnd message w_param l_param w.tick) v fresh)).1,
  (enqueue_notify-Holds w hwnd q
      (append_notify (node_at addr junk hwnd msg_notification w_param l_param add_data)) _ win e
      (append-Holds (w.queues q) (node_at addr junk hwnd msg_notification w_param l_param add_data)
        v fresh)).1,
)
