-- ===== src/Peek/Stale.antt =====
-- The message of the desktop timer keeps the field `pSyncMsg` of the message looked at before it.
use aple.Base.{◌≡◌, true, false, some, List, [], ◌∷◌}
use aple.Msg.{Msg, SyncMsg, MsgQueue, msg_timeout}
use aple.Peek.{
  Ask, is_wanted, Scene, got, go_on, peek_sync, peek_desktop_timer, peek_rest, peek_pass,
  peek_paint,
}
use aple.Peek.Waiting.{skip_quit, skip_notify, skip_post, no_notify, no_post}

skip_unwanted :
    (a : Ask) (q : MsgQueue) (m : Msg) (x : SyncMsg) (xs : List SyncMsg)
    → q.state.sync_msg ≡ true
    → q.sync ≡ x ∷ xs
    → is_wanted a x.body.message ≡ false
    → peek_sync a q m ≡ go_on q (record (x.body) { sync = some x.addr })
unfolding peek_sync
skip_unwanted a q m x xs fs s nw = rw (fs, s, nw)

-- At the queue of the desktop, with a synchronous message first that the filter does not want, nothing
-- else waiting, nothing to paint and the desktop timer due: the pass takes no synchronous message, and
-- returns MSG_TIMEOUT with `pSyncMsg` at that message. The call does not remove.
pub desktop_timer_keeps_sync :
    (e : Scene) (a : Ask) (q : MsgQueue) (m : Msg) (x : SyncMsg) (xs : List SyncMsg)
    → q.state.quit ≡ false
    → q.state.sync_msg ≡ true
    → q.sync ≡ x ∷ xs
    → is_wanted a x.body.message ≡ false
    → q.notify ≡ []
    → q.ring.readpos ≡ q.ring.writepos
    → q.state.paint ≡ false
    → e.is_desktop_queue ≡ true
    → q.state.desk_timer ≡ true
    → a.remove ≡ false
    → peek_pass e a q m
      ≡ got (no_post (no_notify q)) (record (x.body) {
        hwnd = e.desktop;
        message = msg_timeout;
        w_param = 0;
        l_param = 0;
        sync = some x.addr;
      })
unfolding peek_pass peek_rest peek_paint peek_desktop_timer
desktop_timer_keeps_sync e a q m x xs nq fs s nw n p np d dt rm = rw (
  skip_quit a q m nq,
  skip_unwanted a q m x xs fs s nw,
  skip_notify a q (record (x.body) { sync = some x.addr }) n,
  skip_post e.capture a (no_notify q) (record (x.body) { sync = some x.addr }) p,
  np,
  d,
  dt,
  rm,
)
