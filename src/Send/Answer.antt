-- ===== src/Send/Answer.antt =====
-- A synchronous message on its way: into the receiver's queue, out of it, and to its answer.
use aple.Base.{
  ℕ, ◌≡◌, ◌≢◌, ◌<◌, refl, true, false, not, ◌&&◌, ◌||◌, Option, some, is_some, List, [], ◌∷◌, ◌++◌,
  ◌==◌, arith, ◌⊎◌, inl, inr, Bool-cases, ==_false,
}
use aple.Msg.{Msg, SyncMsg, MsgQueue, hwnd_invalid, hwnd_null}
use aple.Chain.{Apart}
use aple.Chain.Fifo.{append_node, IsChain, append_node_lem, append-IsChain}
use aple.Throw.{sync_addr}
use aple.World.{World, post_msgq}
use aple.Peek.{Ask, Scene, got, is_wanted, peek_pass, peek_quit, peek_sync}
use aple.Send.{Procs, dispatch_modified, dispatch_message, run_proc, enqueue_sync, copy_of}

-- A message that is, behind LICENSE_MODIFY_MESSAGE, the copy of a synchronous one, answers its sender exactly when its window
-- is HWND_INVALID, or is not HWND_NULL and has a procedure.
pub dispatch_message_answers :
    (p : Procs) (w : World) (m : Msg) (s : ℕ)
    → (p.license m).sync ≡ some s
    → is_some (dispatch_message p w m).answer ≡ (
        (p.license m).hwnd == hwnd_invalid
        || (not ((p.license m).hwnd == hwnd_null) && (w.windows (p.license m).hwnd).wnd_proc))
unfolding dispatch_message dispatch_modified
dispatch_message_answers p w m s e = go (p.license m) e
  where
    go :
        (k : Msg)
        → k.sync ≡ some s
        → is_some (dispatch_modified p w k).answer
          ≡ (k.hwnd == hwnd_invalid || (not (k.hwnd == hwnd_null) && (w.windows k.hwnd).wnd_proc))
    go k f = elim (Bool-cases (k.hwnd == hwnd_invalid)) [
      | inl t ↦ rw (t, f) refl
      | inr t ↦ elim (Bool-cases (k.hwnd == hwnd_null)) [
        | inl u ↦ rw (t, u) refl
        | inr u ↦ elim (Bool-cases (w.windows k.hwnd).wnd_proc) [
          | inl v ↦ rw (t, u, v, f) refl
          | inr v ↦ rw (t, u, v) refl
        ]
      ]
    ]

-- The pointer to the last synchronous message is good, or there is none and it is not read.
abbrev pub IsSyncChain : MsgQueue → Type 0
IsSyncChain q = (q.sync ≡ []) ⊎ IsChain sync_addr q.sync q.last_sync

appended :
    (x : SyncMsg) (xs : List SyncMsg) (last : Option ℕ)
    → (xs ≡ []) ⊎ IsChain sync_addr xs last
    → Apart sync_addr x.addr xs
    → (append_node sync_addr xs last x ≡ (xs ++ (x ∷ []), some x.addr))
      × IsChain sync_addr (xs ++ (x ∷ [])) (some x.addr)
unfolding append_node
appended x [] last v fresh = (refl, record { at_last = refl; distinct = (tt, tt) })
appended x (y ∷ ys) last (inl e) fresh = absurd cc
appended x (y ∷ ys) last (inr v) fresh =
    (append_node_lem sync_addr (y ∷ ys) last x v, append-IsChain sync_addr (y ∷ ys) last x v fresh)

-- Where the pointer to the last synchronous message is good or the list is empty, and the address of the
-- new message is none of those in the list, the message goes to the end, the pointer is good again, the
-- flag QS_SYNCMSG is set and the semaphore of the queue is not 0.
pub enqueue_sync_lem :
    (x : SyncMsg) (q : MsgQueue)
    → IsSyncChain q
    → Apart sync_addr x.addr q.sync
    → let k = enqueue_sync x q in
      (k.sync ≡ q.sync ++ (x ∷ []))
      × IsChain sync_addr k.sync k.last_sync
      × (k.state.sync_msg ≡ true)
      × (0 < k.sem_value)
unfolding enqueue_sync post_msgq
enqueue_sync_lem x q v fresh =
    let (e, c) = appended x q.sync q.last_sync v fresh in
    elim (Bool-cases (q.sem_value == 0)) [
      | inl t ↦ rw (t, e) (refl, c, refl, omega arith)
      | inr t ↦ rw (t, e) (refl, c, refl, ground arith)
    ]

-- The round trip of a synchronous message. Where the receiver has no synchronous message, MSG_QUIT does
-- not wait there, the filter wants the message and takes it out, the message goes to a window that is
-- neither HWND_NULL nor HWND_INVALID and has a procedure, and LICENSE_MODIFY_MESSAGE leaves the copy as
-- it is: the next pass takes it, leaves no synchronous message, and its dispatch answers this very
-- sender, with the result of the procedure as the `retval`.
pub sync_round_trip :
    (p : Procs) (w : World) (x : SyncMsg) (q : MsgQueue) (e : Scene) (a : Ask) (m : Msg)
    → q.sync ≡ []
    → q.state.quit ≡ false
    → is_wanted a x.body.message ≡ true
    → a.remove ≡ true
    → x.body.hwnd ≢ hwnd_null
    → x.body.hwnd ≢ hwnd_invalid
    → (w.windows x.body.hwnd).wnd_proc ≡ true
    → p.license (copy_of x) ≡ copy_of x
    → (peek_pass e a (enqueue_sync x q) m
        ≡ got (record (enqueue_sync x q) { sync = [] }) (copy_of x))
      × ((dispatch_message p w (copy_of x)).answer ≡ some (x.addr, (run_proc p w (copy_of x)).1))
unfolding enqueue_sync post_msgq append_node peek_pass peek_quit peek_sync dispatch_message
    dispatch_modified
sync_round_trip p w x q e a m s nq want rm h0 hi hp lic = (
  elim (Bool-cases (q.sem_value == 0)) [
    | inl t ↦ rw (t, s, nq, want, rm) refl
    | inr t ↦ rw (t, s, nq, want, rm) refl
  ],
  rw (lic, ==_false x.body.hwnd hwnd_invalid hi, ==_false x.body.hwnd hwnd_null h0, hp) refl,
)
