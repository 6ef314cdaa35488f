-- ===== src/Peek/Pending.antt =====
-- Passes that end otherwise than with a waiting message, and the tests for one.
use aple.Base.{
  ◌≡◌, ◌≢◌, ap, ◌∙◌, Bool, true, false, not, ◌⊎◌, inl, inr, none, List, [], ◌∷◌, arith, List-cases,
}
use aple.Base.Int.{is_zero, dec-inc}
use aple.Msg.{Msg, QMsg, SyncMsg, MsgQueue, msg_quit}
use aple.Ring.Contents.{contents, contents_empty, contents-front}
use native.Mathlib.Decide.{ℕ_discrete}
use aple.Post.{set_quit}
use aple.Peek.{Capture, Ask, Scene, quit, peek_quit, peek_rest, peek_pass, have_pending, wait_done}
use aple.Peek.Waiting.{
  IsReady, row, waiting, no_sync, no_notify, no_post, by_flag, skip_quit, skip_sync, skip_notify,
  skip_post,
}

-- Where nothing waits, the pass goes on behind the posted messages, with the flags of the three kinds
-- off.
pub peek_pass_idle :
    (e : Scene) (a : Ask) (q : MsgQueue) (m : Msg)
    → q.state.quit ≡ false
    → q.sync ≡ []
    → q.notify ≡ []
    → q.ring.readpos ≡ q.ring.writepos
    → peek_pass e a q m ≡ peek_rest e a (no_post (no_notify (no_sync q))) m
unfolding peek_pass
peek_pass_idle e a q m nq s n p = rw (
  skip_quit a q m nq,
  skip_sync a q m s,
  skip_notify a (no_sync q) m n,
  skip_post e.capture a (no_notify (no_sync q)) m p,
)

-- A request to quit ends one pass: after `PostQuitMessage` at a queue that was not yet asked, a pass that
-- removes returns MSG_QUIT for the window, whatever waits, restores the depth of the loops, and leaves
-- QS_QUIT set unless that depth is 0.
pub peek_pass_quit :
    (e : Scene) (a : Ask) (q : MsgQueue) (m : Msg)
    → q.state.quit ≡ false
    → a.remove ≡ true
    → peek_pass e a (set_quit q) m
      ≡ quit
          (record q { state = record (q.state) { quit = not (is_zero q.loop_depth) } })
          (record m { hwnd = a.hwnd; message = msg_quit; w_param = 0; l_param = 0; sync = none })
unfolding peek_pass peek_quit
peek_pass_quit e a q m nq rem = rw (nq, rem, dec-inc)

-- In a queue that is ready, the tests that let `WaitMessage` return and `HavePendingMessageEx` answer
-- TRUE succeed while a message waits.
pub waiting_seen :
    (c : Capture) (no_desk_timer is_desktop_queue : Bool) (q : MsgQueue)
    → IsReady q
    → waiting c q ≢ []
    → (wait_done is_desktop_queue q ≡ true) × (have_pending no_desk_timer is_desktop_queue q ≡ true)
unfolding wait_done have_pending
waiting_seen c no_desk_timer is_desktop_queue q r some_wait =
    case (List-cases q.sync) (List-cases q.notify) (ℕ_discrete q.ring.readpos q.ring.writepos)
  where
    case :
        (q.sync ≡ []) ⊎ ((x : SyncMsg) × (xs : List SyncMsg) × (q.sync ≡ x ∷ xs))
        → (q.notify ≡ []) ⊎ ((x : QMsg) × (xs : List QMsg) × (q.notify ≡ x ∷ xs))
        → Dec (q.ring.readpos ≡ q.ring.writepos)
        → (wait_done is_desktop_queue q ≡ true)
          × (have_pending no_desk_timer is_desktop_queue q ≡ true)
    case (inr (x, xs, s)) n p = ground (arith, by_flag r.sync_flag s)
    case (inl s) (inr (x, xs, n)) p = ground (arith, by_flag r.notify_flag n)
    case (inl s) (inl n) (no ne) =
        ground (arith, by_flag r.post_flag (contents-front q.ring r.ring_valid ne))
    case (inl s) (inl n) (yes p) = absurd (
        some_wait (
          ap (λ ss. row c ss q.notify (contents q.ring)) s
          ∙ ap (λ ns. row c [] ns (contents q.ring)) n
          ∙ ap (row c [] []) (contents_empty q.ring p)))
