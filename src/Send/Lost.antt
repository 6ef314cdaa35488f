-- ===== src/Send/Lost.antt =====
-- Throwing away the last synchronous message leaves the pointer to it.
use aple.Base.{
  ℕ, ◌≡◌, ◌≢◌, Bool, true, false, some, [], ◌∷◌, ==_false, ==_refl, ◌==◌, Bool-cases, inl, inr,
}
use aple.Base.Int.{ℤ}
use aple.Msg.{SyncMsg, MsgQueue}
use aple.Chain.{set_next}
use aple.Chain.Fifo.{append_node}
use aple.World.{post_msgq}
use aple.Throw.{cancel_sync, mark_at, thrown_away}
use aple.Send.{enqueue_sync}

-- Two synchronous messages wait at different addresses, with the pointer to the last one good, and the second is for the window
-- whose messages are thrown away while the first is not. Then the next synchronous message sent to the
-- queue is written behind the node that is gone: the list holds the first one only.
pub sync_after_throw_lost :
    (canceled : ℤ) (hit : ℕ → Bool) (q : MsgQueue) (a b x : SyncMsg)
    → q.sync ≡ a ∷ b ∷ []
    → q.last_sync ≡ some b.addr
    → hit a.body.hwnd ≡ false
    → hit b.body.hwnd ≡ true
    → a.addr ≢ b.addr
    → (enqueue_sync x (thrown_away canceled hit q)).sync ≡ a ∷ []
unfolding enqueue_sync post_msgq append_node set_next thrown_away cancel_sync mark_at
sync_after_throw_lost canceled hit q a b x s l ha hb ab = elim (Bool-cases (q.sem_value == 0)) [
  | inl t ↦ rw (t, s, l, ha, hb) (simp (==_false a.addr b.addr ab, ==_refl))
  | inr t ↦ rw (t, s, l, ha, hb) (simp (==_false a.addr b.addr ab, ==_refl))
]
