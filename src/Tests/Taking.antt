-- ===== src/Tests/Taking.antt =====
-- Runs of the operations that look into a queue and take messages out of it.
use aple.Base.{
  ◌&&◌, ◌==◌, ◌≡◌, ◌≢◌, refl, Bool, true, false, not, inl, inr, none, some, List, [], ◌∷◌, arith,
}
use aple.Msg.{Msg, MsgQueue, null_msg}
use aple.World.{World, is_window, is_main_virt_window}
use aple.Peek.Restart.{peek_message_returns}
use aple.Peek.Entry.{peek_message_ex, peek_message_ex-Takes}
use aple.Peek.{Ask, is_wanted, peek_pass, peek_message, wait_done}
use aple.Peek.Waiting.{IsReady, TakesAll, Takes, waiting, peek_pass-Takes}
use aple.Chain.Fifo.{append_node}
use aple.Ring.Contents.{contents}
use aple.Send.{put_sync}
use aple.Peek.Wait.{
  Waiter, asleep, sleeps, sends, storing, owning, Reach, start, later, Woken, no_message_is_missed,
}
use aple.Tests.{world, busy_queue, empty_queue, take_all, no_capture, scene, sync_node}

busy-IsReady : IsReady busy_queue
busy-IsReady = record {
  ring_valid = record { room = omega arith; read_in = omega arith; write_in = omega arith };
  linked = record { at_last = refl; distinct = (((λ e. omega (arith, e)), tt), (tt, tt)) };
  sync_flag = inr refl;
  notify_flag = inr refl;
  post_flag = inr refl;
}

take_all-TakesAll : TakesAll take_all
unfolding is_wanted
take_all-TakesAll = ((λ n. refl), refl)

busy_waits : waiting no_capture busy_queue ≢ []
busy_waits = λ e. cc

peek_pass-Takes_example :
    Takes no_capture (waiting no_capture busy_queue) (peek_pass scene take_all busy_queue null_msg)
peek_pass-Takes_example =
    peek_pass-Takes take_all take_all-TakesAll scene busy_queue null_msg busy-IsReady refl
      busy_waits

-- The owner of an empty queue sleeps, and a thread has put a message into it, but not yet posted the semaphore.
abbrev sleeping_queue : MsgQueue
sleeping_queue = record empty_queue { on_idle = false }

abbrev late : Waiter
late = record {
  queue = put_sync (sync_node 21 100) sleeping_queue;
  owner = asleep;
  posting = 1;
  raising = 0;
}

late-Reach : Reach (λ q. q) false sleeping_queue late
unfolding wait_done
late-Reach =
    later (later start (owning (sleeps _ refl refl refl))) (storing _ (sends (sync_node 21 100)))

late-IsReady : IsReady late.queue
unfolding append_node contents
late-IsReady = record {
  ring_valid = record { room = omega arith; read_in = omega arith; write_in = omega arith };
  linked = record { at_last = refl; distinct = tt };
  sync_flag = inr refl;
  notify_flag = inl refl;
  post_flag = inl refl;
}

late_waits : waiting no_capture late.queue ≢ []
unfolding append_node contents
late_waits = λ e. cc

no_message_is_missed_example : Woken (λ q. q) false late
no_message_is_missed_example =
    no_message_is_missed no_capture late-Reach refl late-IsReady late_waits

-- Slots 0 and 1 of 3 have expired, and the search starts at slot 2.
abbrev flags : List Bool
flags = true ∷ true ∷ false ∷ []

-- The queue of the desktop, with a synchronous message that a call for 16 to 20 does not want.
abbrev desktop_queue : MsgQueue
desktop_queue = record empty_queue {
  state = record (empty_queue.state) { sync_msg = true; desk_timer = true };
  sync = sync_node 21 100 ∷ [];
  last_sync = some 21;
}

abbrev look : Ask
look = record { hwnd = 0; filter_min = 16; filter_max = 20; remove = false }

unwanted : is_wanted look 400 ≡ false
unfolding is_wanted
unwanted = refl

-- The world as the thread 50 sees it, which owns the queue 1.
abbrev own_world : World
own_world = record world { self = 50; this_queue = some 1 }

may_ask : (not (100 == own_world.desktop) && not (is_main_virt_window own_world 100)) ≡ false
unfolding is_main_virt_window is_window
may_ask = refl

abbrev ask_100 : Ask
ask_100 = record take_all { hwnd = 100 }

ask_100-TakesAll : TakesAll ask_100
unfolding is_wanted
ask_100-TakesAll = ((λ n. refl), refl)

peek_message_ex-Takes_example :
    (w' : World) × (m : Msg) × (peek_message_ex (λ q slot t. q) 1 scene own_world ask_100
      ≡ some (w', some m, true))
    × (waiting no_capture busy_queue ≡ m ∷ waiting no_capture (w'.queues 1))
peek_message_ex-Takes_example =
    peek_message_ex-Takes (λ q slot t. q) 0 scene own_world ask_100 1 may_ask refl ask_100-TakesAll
      busy-IsReady refl busy_waits

-- A slot with a callback, which changes nothing, has expired.
abbrev timer_queue : MsgQueue
timer_queue = record empty_queue {
  timer_slots = some (record { hwnd = 100; id = 7; ticks_fired = 3; proc = true }) ∷ none ∷ [];
  expired = true ∷ false ∷ [];
}

peek_message_returns_example :
    (r : MsgQueue × Msg × Bool) × (peek_message
        (λ q slot t. q)
        2
        scene
        take_all
        timer_queue
        null_msg
      ≡ some r)
peek_message_returns_example =
    peek_message_returns (λ q slot t. q) (λ q slot t. omega arith) 1 scene take_all timer_queue
      null_msg (omega arith)
