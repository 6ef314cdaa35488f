-- ===== src/Send.antt =====
-- Synchronous messages and the dispatch of messages: `DispatchMessage`, `SendSyncMessage`,
-- `SendMessage`, `PostSyncMessage` and `SendAsyncMessage` of source/aple/lecture-5/minigui-message.c.
pub mod Answer
pub mod Pump
pub mod Lost
use aple.Base.{
  ℕ, zero, suc, Bool, true, false, not, Option, none, some, List, [], ◌∷◌, ◌++◌, ◌==◌,
  if◌then◌else◌,
}
use aple.Base.Int.{ℤ, pos, negsuc}
use aple.Msg.{Msg, SyncMsg, MsgQueue, hwnd_invalid, hwnd_null, msg_notification, msg_command}
use aple.Chain.Fifo.{append_node}
use aple.Throw.{sync_addr}
use aple.World.{World, update_queue, is_window, get_msg_queue, in_this_thread, post_msgq}

-- What stands outside the sources: the procedures of the windows, `MAKELONG`, `TranslateMessage`, the
-- change that LICENSE_MODIFY_MESSAGE makes, and the values of two error codes.
pub record Procs : Type 0 where
  pub wnd_proc : World → ℕ → ℕ → ℕ → ℕ → World × ℤ
  pub notif_proc : World → ℕ → ℕ → ℕ → ℕ → World
  pub make_long : ℕ → ℕ → ℕ
  pub translate : World → Msg → World
  pub license : Msg → Msg
  pub canceled : ℤ
  pub err_inv_hwnd : ℤ

-- The synchronous message, by its address, whose `retval` was set and whose semaphore was posted.
abbrev pub Answered : Type 0
Answered = Option (ℕ × ℤ)

-- What a dispatch did: the world afterwards, the result, and the sender that it answered.
pub record Done : Type 0 where
  pub world : World
  pub result : ℤ
  pub answer : Answered

abbrev pub minus_one : ℤ
minus_one = negsuc 0

abbrev pub answer_with : Option ℕ → ℤ → Answered
answer_with none r = none
answer_with (some s) r = some (s, r)

-- The call of the window's procedure, or of its notification callback.
unfoldable pub run_proc : Procs → World → Msg → World × ℤ
run_proc p w m =
    if m.message == msg_notification
    then if (w.windows m.hwnd).notif_proc
      then (p.notif_proc w m.hwnd m.w_param m.l_param m.time, pos 0)
      else p.wnd_proc w m.hwnd msg_command (p.make_long m.w_param m.l_param) m.time
    else p.wnd_proc w m.hwnd m.message m.w_param m.l_param

abbrev pub answered : World × ℤ → Option ℕ → Done
answered r s = record { world = r.0; result = r.1; answer = answer_with s r.1 }

-- `DispatchMessage` behind LICENSE_MODIFY_MESSAGE.
unfoldable pub dispatch_modified : Procs → World → Msg → Done
unfolding run_proc
dispatch_modified p w m =
    if m.hwnd == hwnd_invalid
    then record { world = w; result = minus_one; answer = answer_with m.sync p.canceled }
    else if m.hwnd == hwnd_null
    then record { world = w; result = minus_one; answer = none }
    else if not (w.windows m.hwnd).wnd_proc
    then record { world = w; result = minus_one; answer = none }
    else answered (run_proc p w m) m.sync

unfoldable pub dispatch_message : Procs → World → Msg → Done
unfolding dispatch_modified
dispatch_message p w m = dispatch_modified p w (p.license m)

abbrev pub without_flag : MsgQueue → MsgQueue
without_flag q = record q { state = record (q.state) { sync_msg = false } }

-- `msg = pFirstSyncMsg->Msg; msg.pSyncMsg = pFirstSyncMsg`
abbrev pub copy_of : SyncMsg → Msg
copy_of x = record (x.body) { sync = some x.addr }

-- The loop in which a thread with a queue of its own, at `q`, first handles the synchronous messages
-- sent to it: the world that it leaves, with what the dispatches answered so far. `none` says that the
-- fuel ran out.
module _ (p : Procs) (q : ℕ) where
  abbrev pub handle_one : World → SyncMsg → List SyncMsg → Done
  handle_one w x rest =
      dispatch_message p
        (p.translate (update_queue w q (λ k. record k { sync = rest })) (copy_of x)) (copy_of x)

  unfoldable pub pump : ℕ → World → List Answered → Option (World × List Answered)
  unfolding dispatch_message
  pump zero w log = none
  pump (suc fuel) w log = elim (w.queues q).state.sync_msg [
    | false ↦ some (w, log)
    | true ↦ elim (w.queues q).sync [
      | [] ↦ pump fuel (update_queue w q without_flag) log
      | x ∷ rest ↦
          pump fuel (handle_one w x rest).world (log ++ ((handle_one w x rest).answer ∷ []))
    ]
  ]

-- The message on the sender's stack at `addr`. Its fields `time` and `pSyncMsg` are not set: they hold
-- what `junk` holds.
abbrev pub sync_at : Procs → ℕ → Msg → ℕ → ℕ → ℕ → ℕ → SyncMsg
sync_at p addr junk hwnd message w_param l_param = record {
  addr = addr;
  body = record junk { hwnd = hwnd; message = message; w_param = w_param; l_param = l_param };
  retval = p.canceled;
}

abbrev pub with_sync : MsgQueue → List SyncMsg × Option ℕ → MsgQueue
with_sync q c = record q {
  sync = c.0;
  last_sync = c.1;
  state = record (q.state) { sync_msg = true };
}

-- The stores into the queue of the receiver, all under its lock.
abbrev pub put_sync : SyncMsg → MsgQueue → MsgQueue
put_sync x q = with_sync q (append_node sync_addr q.sync q.last_sync x)

-- These stores and, behind the lock, `POST_MSGQ`.
unfoldable pub enqueue_sync : SyncMsg → MsgQueue → MsgQueue
unfolding post_msgq
enqueue_sync x q = post_msgq (put_sync x q)

-- How far a call goes: it returns, it waits at the semaphore of its message until that is answered, with
-- the answer as its result, or its fuel runs out.
pub data Sent : Type 0 where
  returned : World → ℤ → Sent
  waits : World → Sent
  out_of_fuel : Sent

abbrev pub pumped : Procs → ℕ → World → Option ℕ → Option World
pumped p fuel w none = some w
pumped p fuel w (some own) = elim (pump p own fuel w []) [ none ↦ none | some r ↦ some r.0 ]

unfoldable pub send_sync_message : Procs → ℕ → World → ℕ → Msg → ℕ → ℕ → ℕ → ℕ → Sent
unfolding enqueue_sync
send_sync_message p fuel w addr junk hwnd message w_param l_param = elim (get_msg_queue w hwnd) [
  | none ↦ returned w p.err_inv_hwnd
  | some q ↦ elim (pumped p fuel w w.this_queue) [
    | none ↦ out_of_fuel
    | some w' ↦
        waits (update_queue w' q (enqueue_sync (sync_at p addr junk hwnd message w_param l_param)))
  ]
]

-- The direct call of a window's procedure.
abbrev pub call_proc : Procs → ℤ → World → ℕ → ℕ → ℕ → ℕ → Sent
call_proc p missing w hwnd message w_param l_param =
    if (w.windows hwnd).wnd_proc
    then returned (p.wnd_proc w hwnd message w_param l_param).0
        (p.wnd_proc w hwnd message w_param l_param).1
    else returned w missing

unfoldable pub send_message : Procs → ℕ → World → ℕ → Msg → ℕ → ℕ → ℕ → ℕ → Sent
unfolding send_sync_message
send_message p fuel w addr junk hwnd message w_param l_param =
    if not (is_window w hwnd)
    then returned w p.err_inv_hwnd
    else if not (in_this_thread w hwnd)
    then send_sync_message p fuel w addr junk hwnd message w_param l_param
    else call_proc p p.err_inv_hwnd w hwnd message w_param l_param

unfoldable pub post_sync_message : Procs → ℕ → World → ℕ → Msg → ℕ → ℕ → ℕ → ℕ → Sent
unfolding send_sync_message
post_sync_message p fuel w addr junk hwnd message w_param l_param =
    if not (is_window w hwnd)
    then returned w minus_one
    else if in_this_thread w hwnd
    then returned w minus_one
    else send_sync_message p fuel w addr junk hwnd message w_param l_param

unfoldable pub send_async_message : Procs → World → ℕ → ℕ → ℕ → ℕ → Sent
send_async_message p w hwnd message w_param l_param =
    if not (is_window w hwnd)
    then returned w minus_one
    else call_proc p minus_one w hwnd message w_param l_param
