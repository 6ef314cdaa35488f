-- ===== src/Peek/Entry.antt =====
-- The calls that look at the queue of the calling thread: `PeekMessageEx` without waiting, with the
-- checks before its passes, `HavePendingMessageEx` and `PeekPostMessage` of
-- source/aple/lecture-5/minigui-message.c, and the broadcast to the windows of the calling thread.
use aple.Base.{
  ℕ, suc, ◌≡◌, ◌≢◌, refl, ap, sym, ◌∙◌, Bool, true, false, not, ◌&&◌, Option, none, some, [], ◌∷◌,
  ◌==◌, if◌then◌else◌, ==_refl, Bool-cases, inl, inr,
}
use aple.Msg.{Msg, null_msg, MsgQueue, Timer, hwnd_null}
use aple.Paint.{Main}
use aple.World.{World, update_queue, is_main_virt_window, get_msg_queue_if_window_in_this_thread}
use aple.Post.{broadcast_message}
use aple.Peek.{
  Ask, Scene, Step, quit, got, go_on, call, peek_pass, got_ret, peek_message, peek_post_message,
  have_pending,
}
use aple.Peek.Waiting.{IsReady, TakesAll, Takes, waiting, peek_pass-Takes}

-- `memset (pMsg, 0, sizeof(MSG)); pMsg->time = __mg_tick_counter`
abbrev pub first_msg : World → Msg
first_msg w = record null_msg { time = w.tick }

-- What the passes read, at the queue of address `q`.
abbrev pub scene_at : World → ℕ → Scene → Scene
scene_at w q e = record e { desktop = w.desktop; is_desktop_queue = q == w.dsk_queue }

abbrev pub stored : World → ℕ → Option (MsgQueue × Msg × Bool) → Option (World × Option Msg × Bool)
stored w q none = none
stored w q (some (k, m, found)) = some (update_queue w q (λ _. k), some m, found)

-- The passes at the queue of the calling thread, if it has one.
unfoldable pub peek_queue :
    (MsgQueue → ℕ → Timer → MsgQueue)
    → ℕ
    → Scene
    → World
    → Ask
    → Option ℕ
    → Option (World × Option Msg × Bool)
unfolding peek_message
peek_queue proc fuel e w a none = some (w, none, false)
peek_queue proc fuel e w a (some q) =
    stored w q (peek_message proc fuel (scene_at w q e) a (w.queues q) (first_msg w))

-- `PeekMessageEx`, called without waiting: the world afterwards, what `*pMsg` holds, where it was written,
-- and the result.
unfoldable pub peek_message_ex :
    (MsgQueue → ℕ → Timer → MsgQueue) → ℕ → Scene → World → Ask → Option (World × Option Msg × Bool)
unfolding peek_queue
peek_message_ex proc fuel e w a =
    if not (a.hwnd == w.desktop) && not (is_main_virt_window w a.hwnd)
    then some (w, none, false)
    else peek_queue proc fuel e w a w.this_queue

unfoldable pub pending_queue : World → ℕ → Option ℕ
pending_queue w hwnd =
    if hwnd == hwnd_null then w.this_queue else get_msg_queue_if_window_in_this_thread w hwnd

-- `HavePendingMessageEx`; `idle` is the idle handler of a queue, called without waiting.
unfoldable pub have_pending_message_ex :
    (World → ℕ → World × Bool) → World → ℕ → Bool → World × Bool
unfolding pending_queue
have_pending_message_ex idle w hwnd no_desk_timer = elim (pending_queue w hwnd) [
  | none ↦ (w, false)
  | some q ↦
      if have_pending no_desk_timer (q == w.dsk_queue) (w.queues q)
      then (w, true)
      else if (w.queues q).on_idle
      then idle w q
      else (w, false)
]

-- `PeekPostMessage`; the message is none where the result is FALSE.
unfoldable pub peek_post_message_at : World → Ask → World × Option Msg
unfolding peek_post_message
peek_post_message_at w a = elim (get_msg_queue_if_window_in_this_thread w a.hwnd) [
  | none ↦ (w, none)
  | some q ↦
      (update_queue w q (λ k. (peek_post_message a k).0), (peek_post_message a (w.queues q)).1)
]

-- `BroadcastMessageInThisThread`; `root` finds the root window of a queue, and `none` is -1.
unfoldable pub broadcast_message_in_this_thread :
    ℕ → (ℕ → Option Main) → World → ℕ → ℕ → ℕ → World × Option ℕ
broadcast_message_in_this_thread bits root w message w_param l_param = elim w.this_queue [
  | none ↦ (w, none)
  | some q ↦
      let (w', m) = broadcast_message bits w (root q) (record null_msg {
        hwnd = hwnd_null;
        message = message;
        w_param = w_param;
        l_param = l_param;
      }) in
      (w', some m.time)
]

got_ret-waiting :
    (e : Scene) (q : MsgQueue) (m : Msg) → waiting e.capture (got_ret e q m) ≡ waiting e.capture q
unfolding got_ret
got_ret-waiting e q m = elim (Bool-cases (m.hwnd == e.desktop)) [
  | inl t ↦ rw t refl
  | inr t ↦ rw t refl
]

peek_message-Takes :
    (proc : MsgQueue → ℕ → Timer → MsgQueue) (fuel : ℕ) (e : Scene) (a : Ask) (q : MsgQueue)
    (m : Msg) (s : Step)
    → peek_pass e a q m ≡ s
    → Takes e.capture (waiting e.capture q) s
    → (k : MsgQueue) × (x : Msg) × (peek_message proc (suc fuel) e a q m ≡ some (k, x, true))
      × (waiting e.capture q ≡ x ∷ waiting e.capture k)
unfolding peek_message
peek_message-Takes proc fuel e a q m (got k x) p t = (
  got_ret e k x,
  x,
  rw (p, peek_message) refl,
  t.0 ∙ ap (λ l. x ∷ l) (sym (got_ret-waiting e k x)),
)
peek_message-Takes proc fuel e a q m (quit k x) p t = absurd t
peek_message-Takes proc fuel e a q m (go_on k x) p t = absurd t
peek_message-Takes proc fuel e a q m (call k x slot timer) p t = absurd t

entered :
    (proc : MsgQueue → ℕ → Timer → MsgQueue) (fuel : ℕ) (e : Scene) (w : World) (a : Ask) (q : ℕ)
    → (not (a.hwnd == w.desktop) && not (is_main_virt_window w a.hwnd)) ≡ false
    → w.this_queue ≡ some q
    → peek_message_ex proc fuel e w a
      ≡ stored w q (peek_message proc fuel (scene_at w q e) a (w.queues q) (first_msg w))
unfolding peek_message_ex peek_queue
entered proc fuel e w a q may own = rw may (ap (peek_queue proc fuel e w a) own)

-- Where the calling thread has a queue that is ready and is not asked to quit, and a message waits there,
-- `PeekMessageEx` for the desktop or a main or virtual window that takes whatever comes returns TRUE, in
-- its first pass, with the first message that waits, and the others wait in the queue afterwards.
pub peek_message_ex-Takes :
    (proc : MsgQueue → ℕ → Timer → MsgQueue) (fuel : ℕ) (e : Scene) (w : World) (a : Ask) (q : ℕ)
    → (not (a.hwnd == w.desktop) && not (is_main_virt_window w a.hwnd)) ≡ false
    → w.this_queue ≡ some q
    → TakesAll a
    → IsReady (w.queues q)
    → (w.queues q).state.quit ≡ false
    → waiting e.capture (w.queues q) ≢ []
    → (w' : World) × (m : Msg) × (peek_message_ex proc (suc fuel) e w a ≡ some (w', some m, true))
      × (waiting e.capture (w.queues q) ≡ m ∷ waiting e.capture (w'.queues q))
peek_message_ex-Takes proc fuel e w a q may own all ready no_quit some_wait =
    let (k, x, p, r) =
      peek_message-Takes proc fuel (scene_at w q e) a (w.queues q) (first_msg w)
        (peek_pass (scene_at w q e) a (w.queues q) (first_msg w)) refl
        (peek_pass-Takes a all (scene_at w q e) (w.queues q) (first_msg w) ready no_quit
          some_wait) in
    (
      update_queue w q (λ _. k),
      x,
      entered proc (suc fuel) e w a q may own ∙ ap (stored w q) p,
      rw (==_refl q) r,
    )
