-- ===== src/Post/Delivery.antt =====
-- What `PostMessage` and `PostQuitMessage` do to the queue of their window.
use aple.Base.{
  ℕ, ◌<◌, ◌≡◌, refl, ap, sym, ◌∙◌, ◌≢◌, Bool, true, false, Option, some, List, ◌==◌, if◌then◌else◌,
  arith, Bool-cases, inl, inr, ==_refl, ==_false,
}
use aple.Msg.{Msg, MsgQueue, Ring, msg_paint}
use aple.Ring.{queue}
use aple.Ring.Contents.{IsValid, contents, enqueue, queue_refines, queue_refused}
use aple.World.{World, wake, post_msgq, in_this_thread, get_msg_queue}
use aple.Post.{Code, ok, queue_full, stamped, kernel_queue_message, post_to, post_message, set_quit}

-- The message that `PostMessage` queues.
abbrev pub posted : World → Option ℕ → ℕ → ℕ → ℕ → ℕ → Msg
posted w junk hwnd message w_param l_param = record {
  hwnd = hwnd;
  message = message;
  w_param = w_param;
  l_param = l_param;
  time = w.tick;
  sync = junk;
}

wake-ring : (w : World) (h : ℕ) (q : MsgQueue) → (wake w h q).ring ≡ q.ring
unfolding wake
wake-ring w h q = ground arith

wake-state : (w : World) (h : ℕ) (q : MsgQueue) → (wake w h q).state ≡ q.state
unfolding wake
wake-state w h q = ground arith

wake-sem_value :
    (w : World) (h : ℕ) (q : MsgQueue) → in_this_thread w h ≡ false → 0 < (wake w h q).sem_value
unfolding wake
wake-sem_value w h q away = rw away (unfold post_msgq in ground arith)

-- The buffer and the answer of `kernel_QueueMessage` are those of `queue` at the stamped message.
pub kernel_queue_message-ring :
    (w : World) (q : ℕ) (m : Msg)
    → (((kernel_queue_message w (some q) m).0.queues q).ring, (kernel_queue_message w (some q) m).2)
      ≡ queue (w.queues q).ring (stamped w m)
unfolding kernel_queue_message
kernel_queue_message-ring w q m = elim (Bool-cases (queue (w.queues q).ring (stamped w m)).1) [
  | inl t ↦ rw (t, ==_refl q, wake-ring)
  | inr t ↦
      rw t (ap (λ (r : Ring). (r, false)) (sym (queue_refused (w.queues q).ring (stamped w m) t)))
]

-- The result of a post as a client of the list of waiting messages sees it.
abbrev pub outcome : List Msg × Bool → List Msg × Code
outcome x = (x.0, if x.1 then ok else queue_full)

-- A post of a message other than MSG_PAINT to a window that has a queue with a valid buffer does to
-- the list of waiting messages what `enqueue` does, at the current tick, and answers ERR_QUEUE_FULL
-- exactly where `enqueue` refuses.
pub post_message_enqueues :
    (w : World) (junk : Option ℕ) (hwnd message w_param l_param q : ℕ)
    → get_msg_queue w hwnd ≡ some q
    → message ≢ msg_paint
    → IsValid (w.queues q).ring
    → (
      contents ((post_message w junk hwnd message w_param l_param).0.queues q).ring,
      (post_message w junk hwnd message w_param l_param).1,
    )
      ≡ outcome (
          enqueue
            (w.queues q).ring.len
            (posted w junk hwnd message w_param l_param)
            (contents (w.queues q).ring))
unfolding post_message
post_message_enqueues w junk hwnd message w_param l_param q e ne v =
    rw (e, post_to, ==_false message msg_paint ne)
      (ap (λ x. outcome (contents x.0, x.1))
          (kernel_queue_message-ring w q
            (record (posted w junk hwnd message w_param l_param) { time = 0 }))
        ∙ ap outcome
            (queue_refines (w.queues q).ring (posted w junk hwnd message w_param l_param) v))

-- Every other queue stays as it was.
pub post_message_elsewhere :
    (w : World) (junk : Option ℕ) (hwnd message w_param l_param q k : ℕ)
    → get_msg_queue w hwnd ≡ some q
    → k ≢ q
    → (post_message w junk hwnd message w_param l_param).0.queues k ≡ w.queues k
unfolding post_message
post_message_elsewhere w junk hwnd message w_param l_param q k e ne =
    rw (e, post_to) (ground (arith, ==_false k q ne))

-- What a queue shows once a message was put into it for a window of another thread.
abbrev pub Announced : ℕ → MsgQueue → Type 0
Announced message q =
    ((if message == msg_paint then q.state.paint else q.state.post_msg) ≡ true) × (0 < q.sem_value)

post_to-Announced :
    (w : World) (hwnd q : ℕ) (m : Msg)
    → m.hwnd ≡ hwnd
    → in_this_thread w hwnd ≡ false
    → (post_to w hwnd m (some q)).1 ≡ ok
    → Announced m.message ((post_to w hwnd m (some q)).0.queues q)
unfolding post_to
post_to-Announced w hwnd q m same away sent = elim (Bool-cases (m.message == msg_paint)) [
  | inl t ↦ rw (t, ==_refl q) (rw wake-state refl, wake-sem_value w hwnd _ away)
  | inr t ↦ elim (Bool-cases (queue (w.queues q).ring (stamped w m)).1) [
    | inl d ↦ rw (t, d, ==_refl q, wake-state) (refl, wake-sem_value w m.hwnd _ (rw same away))
    | inr d ↦ ground arith
  ]
]

-- A message that was taken for a window of another thread is announced: its queue has QS_POSTMSG set,
-- or QS_PAINT for MSG_PAINT, and the semaphore on which that thread waits is above 0.
pub post_message-Announced :
    (w : World) (junk : Option ℕ) (hwnd message w_param l_param q : ℕ)
    → get_msg_queue w hwnd ≡ some q
    → in_this_thread w hwnd ≡ false
    → (post_message w junk hwnd message w_param l_param).1 ≡ ok
    → Announced message ((post_message w junk hwnd message w_param l_param).0.queues q)
unfolding post_message
post_message-Announced w junk hwnd message w_param l_param q e away sent = rw e (
    post_to-Announced w hwnd q (record (posted w junk hwnd message w_param l_param) { time = 0 })
      refl away (rw e at sent))

-- Asking twice to quit is asking once: the depth of the message loops counts one request.
pub set_quit_twice : (q : MsgQueue) → set_quit (set_quit q) ≡ set_quit q
set_quit_twice q = ground arith
