-- ===== src/Peek.antt =====
-- Taking a message from the queue: `PeekMessageEx`, `PeekPostMessage`, `HavePendingMessageEx` and the
-- test of `WaitMessage` of source/aple/lecture-5/minigui-message.c. One pass of `PeekMessageEx` is a
-- row of checks; each looks at one kind of message.
pub mod Waiting
pub mod Pending
pub mod Wait
pub mod Slots
pub mod Stale
pub mod Entry
pub mod Restart
use aple.Base.{
  ℕ, zero, suc, ◌+◌, ◌%◌, Bool, true, false, ◌&&◌, ◌||◌, not, Option, none, some, List, [], ◌∷◌,
  ltb, leb, ◌==◌, if◌then◌else◌, length, get_or, set,
}
use aple.Base.Int.{dec, is_zero}
use aple.Msg.{
  Msg, null_msg, QMsg, SyncMsg, QState, Timer, Ring, MsgQueue, msg_paint, msg_quit, msg_timeout,
  msg_timer,
}
use aple.Ring.{next, front, advance}
use aple.Chain.Fifo.{pop_node}
use aple.Paint.{Main, check_hosted_tree}

-- `MSG_FIRSTMOUSEMSG` and `MSG_LASTMOUSEMSG`
abbrev pub msg_firstmousemsg : ℕ
msg_firstmousemsg = 0x0001

abbrev pub msg_lastmousemsg : ℕ
msg_lastmousemsg = 0x0014

-- What `CheckCapturedMouseMessage` takes from elsewhere: the window that has captured the mouse, the
-- conversion of the position in `lParam` by `ClientToScreen`, and the flag KS_CAPTURED.
pub record Capture : Type 0 where
  pub wnd : ℕ
  pub to_screen : ℕ → ℕ → ℕ
  pub has_flag : ℕ → Bool
  pub set_flag : ℕ → ℕ

unfoldable pub check_captured : Capture → Msg → Msg
check_captured c m =
    if c.wnd == m.hwnd
      && leb msg_firstmousemsg m.message
      && leb m.message msg_lastmousemsg
      && not (c.has_flag m.w_param)
    then record m { w_param = c.set_flag m.w_param; l_param = c.to_screen m.hwnd m.l_param }
    else m

-- The arguments of a call: the window, the two ends of the filter, and whether `uRemoveMsg` is PM_REMOVE.
pub record Ask : Type 0 where
  pub hwnd : ℕ
  pub filter_min : ℕ
  pub filter_max : ℕ
  pub remove : Bool

-- `IS_MSG_WANTED`
unfoldable pub is_wanted : Ask → ℕ → Bool
is_wanted a n =
    (a.filter_min == 0 && a.filter_max == 0)
    || (ltb 0 a.filter_min
        && leb a.filter_min a.filter_max
        && leb a.filter_min n
        && leb n a.filter_max)

-- What the pass reads beside the queue: the capture, the window tree of the queue, the desktop window,
-- whether this is the queue of the desktop, and the address of a window's invalid region.
pub record Scene : Type 0 where
  pub capture : Capture
  pub root : Main
  pub desktop : ℕ
  pub is_desktop_queue : Bool
  pub region : ℕ → ℕ

-- How a check ends: with MSG_QUIT and FALSE, with a message and TRUE, with a callback of a timer after
-- which the pass starts again, or with the next check. The message is what `*pMsg` holds.
pub data Step : Type 0 where
  quit got go_on : MsgQueue → Msg → Step
  call : MsgQueue → Msg → ℕ → Timer → Step

infixl 5 ◌>>=◌
abbrev pub ◌>>=◌ : Step → (MsgQueue → Msg → Step) → Step
quit q m >>= f = quit q m
got q m >>= f = got q m
go_on q m >>= f = f q m
call q m slot t >>= f = call q m slot t

abbrev pub leave_loop : MsgQueue → MsgQueue
leave_loop q = record q {
  loop_depth = dec q.loop_depth;
  state = record (q.state) { quit = not (is_zero (dec q.loop_depth)) };
}

unfoldable pub peek_quit : Ask → MsgQueue → Msg → Step
peek_quit a q m =
    if q.state.quit
    then quit (if a.remove then leave_loop q else q)
        (record m { hwnd = a.hwnd; message = msg_quit; w_param = 0; l_param = 0; sync = none })
    else go_on q m

unfoldable pub peek_sync_at : Ask → MsgQueue → Msg → List SyncMsg → Step
peek_sync_at a q m [] = go_on (record q { state = record (q.state) { sync_msg = false } }) m
peek_sync_at a q m (x ∷ rest) =
    if is_wanted a x.body.message
    then got (if a.remove then record q { sync = rest } else q)
        (record (x.body) { sync = some x.addr })
    else go_on q (record (x.body) { sync = some x.addr })

unfoldable pub peek_sync : Ask → MsgQueue → Msg → Step
unfolding peek_sync_at
peek_sync a q m = if q.state.sync_msg then peek_sync_at a q m q.sync else go_on q m

abbrev pub with_popped : MsgQueue → List QMsg × Option ℕ → MsgQueue
with_popped q c = record q { notify = c.0; last_notify = c.1 }

unfoldable pub peek_notify_at : Ask → MsgQueue → Msg → List QMsg → Step
peek_notify_at a q m [] = go_on (record q { state = record (q.state) { notify_msg = false } }) m
peek_notify_at a q m (x ∷ rest) =
    if is_wanted a x.body.message
    then got
        (if a.remove then with_popped q (pop_node (λ n. n.addr) (x ∷ rest) q.last_notify) else q)
        (record (x.body) { sync = none })
    else go_on q (record (x.body) { sync = none })

unfoldable pub peek_notify : Ask → MsgQueue → Msg → Step
unfolding peek_notify_at
peek_notify a q m = if q.state.notify_msg then peek_notify_at a q m q.notify else go_on q m

unfoldable pub peek_post : Capture → Ask → MsgQueue → Msg → Step
peek_post c a q m =
    if q.state.post_msg
    then if q.ring.readpos == q.ring.writepos
      then go_on (record q { state = record (q.state) { post_msg = false } }) m
      else if is_wanted a (front q.ring).message
      then got (if a.remove then record q { ring = advance q.ring } else q)
          (check_captured c (record (front q.ring) { sync = none }))
      else go_on q (record (front q.ring) { sync = none })
    else go_on q m

unfoldable pub peek_paint : Scene → Ask → MsgQueue → Msg → Step
peek_paint e a q m =
    if q.state.paint && is_wanted a msg_paint
    then elim (check_hosted_tree e.desktop e.root) [
      | some h ↦ got q (record m {
        hwnd = h;
        message = msg_paint;
        w_param = 0;
        l_param = e.region h;
        sync = none;
      })
      | none ↦
          go_on (record q { state = record (q.state) { paint = false } })
            (record m { message = msg_paint; w_param = 0; l_param = 0; sync = none })
    ]
    else go_on q m

-- The field `pSyncMsg` is not set here.
unfoldable pub peek_desktop_timer : Scene → Ask → MsgQueue → Msg → Step
peek_desktop_timer e a q m =
    if e.is_desktop_queue && q.state.desk_timer
    then got (if a.remove then record q { state = record (q.state) { desk_timer = false } } else q)
        (record m { hwnd = e.desktop; message = msg_timeout; w_param = 0; l_param = 0 })
    else go_on q m

-- `expired_timer_mask`, as a test.
abbrev pub any : List Bool → Bool
any [] = false
any (b ∷ bs) = b || any bs

-- The loop for the first expired slot from `first_timer_slot` on, round all `count` slots; `none` is the
-- slot -1. As many rounds as there are slots are enough.
module _ (expired : List Bool) (count first : ℕ) where
  pub find_slot : ℕ → ℕ → Option ℕ
  find_slot zero slot = none
  find_slot (suc fuel) slot = elim (get_or expired slot false) [
    | true ↦ some slot
    | false ↦ elim (next count slot == first) [
      | true ↦ none
      | false ↦ find_slot fuel (next count slot)
    ]
  ]

abbrev pub first_slot : MsgQueue → Option ℕ
first_slot q =
    find_slot q.expired (length q.timer_slots) q.first_timer_slot (length q.timer_slots)
      q.first_timer_slot

unfoldable pub fire : MsgQueue → Msg → ℕ → Option Timer → Step
fire q m slot none = go_on q m
fire q m slot (some t) =
    let q' = record q { expired = set q.expired slot false } in
    if t.proc
    then call q' m slot t
    else got q' (record m {
      hwnd = t.hwnd;
      message = msg_timer;
      w_param = t.id;
      l_param = t.ticks_fired;
      sync = none;
    })

unfoldable pub fire_at : MsgQueue → Msg → Option ℕ → Step
unfolding fire
fire_at q m none = go_on q m
fire_at q m (some slot) = fire q m slot (get_or q.timer_slots slot none)

unfoldable pub peek_timer : Ask → MsgQueue → Msg → Step
unfolding fire_at find_slot
peek_timer a q m =
    if any q.expired && is_wanted a msg_timer
    then fire_at (record q { first_timer_slot = next (length q.timer_slots) q.first_timer_slot }) m
        (first_slot q)
    else go_on q m

-- The checks of a pass behind the one for posted messages.
unfoldable pub peek_rest : Scene → Ask → MsgQueue → Msg → Step
unfolding peek_paint peek_desktop_timer peek_timer
peek_rest e a q m =
    peek_paint e a q m >>= λ q₁ m₁. peek_desktop_timer e a q₁ m₁ >>= λ q₂ m₂. peek_timer a q₂ m₂

-- One pass, from the label `checkagain` to the unlocking behind the timers.
unfoldable pub peek_pass : Scene → Ask → MsgQueue → Msg → Step
unfolding peek_quit peek_sync peek_notify peek_post peek_rest
peek_pass e a q m = peek_quit a q m >>= λ q₁ m₁. peek_sync a q₁ m₁ >>= λ q₂ m₂.
    peek_notify a q₂ m₂ >>= λ q₃ m₃. peek_post e.capture a q₃ m₃ >>= λ q₄ m₄. peek_rest e a q₄ m₄

-- The label `got_ret`.
unfoldable pub got_ret : Scene → MsgQueue → Msg → MsgQueue
got_ret e q m = if m.hwnd == e.desktop then q else record q { idle_counter = 0 }

-- `PeekMessageEx` without waiting, on fuel: `proc` runs the callback of a timer and, if that says so,
-- removes the timer; then the pass starts again. `none` says that the fuel ran out.
module _ (proc : MsgQueue → ℕ → Timer → MsgQueue) where
  unfoldable pub peek_message : ℕ → Scene → Ask → MsgQueue → Msg → Option (MsgQueue × Msg × Bool)
  peek_message zero e a q m = none
  peek_message (suc fuel) e a q m = elim (peek_pass e a q m) [
    | quit q' m' ↦ some (q', m', false)
    | got q' m' ↦ some (got_ret e q' m', m', true)
    | go_on q' m' ↦ some (q', m', false)
    | call q' m' slot t ↦ peek_message fuel e a (proc q' slot t) m'
  ]

-- `PeekPostMessage`, at the queue of the window.
unfoldable pub is_post_wanted : Ask → ℕ → Bool
is_post_wanted a n =
    (a.filter_min == 0 && a.filter_max == 0) || (leb n a.filter_max && leb a.filter_min n)

unfoldable pub peek_post_message : Ask → MsgQueue → MsgQueue × Option Msg
unfolding is_post_wanted
peek_post_message a q =
    if q.state.post_msg && not (q.ring.readpos == q.ring.writepos)
    then if is_post_wanted a (front q.ring).message
      then (
        if a.remove then record q { ring = advance q.ring } else q,
        some (record (front q.ring) { sync = none }),
      )
      else (q, none)
    else (q, none)

-- The tests of `HavePendingMessageEx` under the lock; the idle handler is asked where they all fail.
abbrev pub is_empty {ℓ} : {A : Type ℓ} → List A → Bool
is_empty [] = true
is_empty (x ∷ xs) = false

unfoldable pub have_pending : Bool → Bool → MsgQueue → Bool
have_pending no_desk_timer is_desktop_queue q =
    (q.state.sync_msg && not (is_empty q.sync))
    || (q.state.notify_msg && not (is_empty q.notify))
    || (q.state.post_msg && not (q.ring.readpos == q.ring.writepos))
    || q.state.quit
    || q.state.paint
    || any q.expired
    || (not no_desk_timer && is_desktop_queue && q.state.desk_timer)

-- The tests of `WaitMessage` that lead to `getit`.
unfoldable pub wait_done : Bool → MsgQueue → Bool
wait_done is_desktop_queue q =
    q.state.quit
    || (q.state.sync_msg && not (is_empty q.sync))
    || (q.state.notify_msg && not (is_empty q.notify))
    || (q.state.post_msg && not (q.ring.readpos == q.ring.writepos))
    || q.state.paint
    || (is_desktop_queue && q.state.desk_timer)
    || any q.expired
