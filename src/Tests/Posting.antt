-- ===== src/Tests/Posting.antt =====
-- Runs of the operations that put messages into a queue.
use aple.Base.{◌≡◌, refl, true, false, none, some, [], ◌∷◌, ◌++◌, head?, arith}
use aple.Msg.{msg_mousemove, msg_notification}
use aple.Ring.{queue, next, write, is_move, is_repeated}
use aple.Ring.Contents.{IsValid, contents, enqueue, queue_refines}
use aple.World.{is_window, get_msg_queue, get_main_window_ptr, in_this_thread}
use aple.Paint.{check_hosted_tree}
use aple.Post.{ok, post_message, kernel_queue_message}
use aple.Post.Delivery.{outcome, posted, Announced, post_message_enqueues, post_message-Announced}
use aple.Paint.Order.{tree_to_paint, check_hosted_tree-head?}
use aple.Notify.{send_notify_message, send_prior_notify_message, notify_window, node_at}
use aple.Notify.Order.{Holds, IsLinked, send_notify_message-Holds, prior_and_window-Holds}
use aple.Tests.{msg_of, ring_two, busy_queue, world, root_tree}

ring_two-IsValid : IsValid ring_two
ring_two-IsValid = record { room = omega arith; read_in = omega arith; write_in = omega arith }

queue_refines_example :
    (
      contents (queue ring_two (msg_of 100 msg_mousemove 9)).0,
      (queue ring_two (msg_of 100 msg_mousemove 9)).1,
    )
    ≡ enqueue 4 (msg_of 100 msg_mousemove 9) (contents ring_two)
queue_refines_example = queue_refines ring_two (msg_of 100 msg_mousemove 9) ring_two-IsValid

queue_of_100 : get_msg_queue world 100 ≡ some 1
unfolding get_msg_queue get_main_window_ptr is_window
queue_of_100 = refl

window_100 : is_window world 100 ≡ true
unfolding is_window
window_100 = refl

away_100 : in_this_thread world 100 ≡ false
unfolding in_this_thread get_msg_queue get_main_window_ptr is_window
away_100 = refl

post_message_enqueues_example :
    (
      contents ((post_message world none 100 16 1 2).0.queues 1).ring,
      (post_message world none 100 16 1 2).1,
    )
    ≡ outcome (enqueue 4 (posted world none 100 16 1 2) (contents ring_two))
post_message_enqueues_example =
    post_message_enqueues world none 100 16 1 2 1 queue_of_100 (λ e. omega (arith, e))
      ring_two-IsValid

posted_ok : (post_message world none 100 16 1 2).1 ≡ ok
unfolding post_message kernel_queue_message get_msg_queue get_main_window_ptr is_window queue
    is_move is_repeated write next
posted_ok = refl

post_message-Announced_example : Announced 16 ((post_message world none 100 16 1 2).0.queues 1)
post_message-Announced_example =
    post_message-Announced world none 100 16 1 2 1 queue_of_100 away_100 posted_ok

busy-IsLinked : IsLinked busy_queue
busy-IsLinked = record { at_last = refl; distinct = (((λ e. omega (arith, e)), tt), (tt, tt)) }

send_notify_message-Holds_example :
    ((send_notify_message world 13 none 100 16 1 2).1 ≡ ok)
    × Holds
        ((send_notify_message world 13 none 100 16 1 2).0.queues 1)
        (busy_queue.notify ++ (node_at 13 none 100 16 1 2 1000 ∷ []))
send_notify_message-Holds_example =
    send_notify_message-Holds world 13 none 100 16 1 2 1 window_100 queue_of_100 busy-IsLinked
      ((λ e. omega (arith, e)), ((λ e. omega (arith, e)), tt))

prior_and_window-Holds_example :
    Holds
      ((send_prior_notify_message world 13 none 100 16 1 2).0.queues 1)
      (node_at 13 none 100 16 1 2 1000 ∷ busy_queue.notify)
    × Holds
        ((notify_window world 13 none 100 1 2 77).0.queues 1)
        (busy_queue.notify ++ (node_at 13 none 100 msg_notification 1 2 77 ∷ []))
prior_and_window-Holds_example =
    prior_and_window-Holds world 13 none 100 16 1 2 77 1 window_100 queue_of_100 busy-IsLinked
      ((λ e. omega (arith, e)), ((λ e. omega (arith, e)), tt))

check_hosted_tree-head?_example :
    check_hosted_tree 200 root_tree ≡ head? (tree_to_paint 200 root_tree)
check_hosted_tree-head?_example = check_hosted_tree-head? 200 root_tree

broadcast_taken : (kernel_queue_message world (some 1) (msg_of 100 16 0)).2 ≡ true
unfolding kernel_queue_message queue is_move is_repeated write next
broadcast_taken = refl
