-- ===== src/Throw/Whole.antt =====
-- `__mg_throw_away_messages` as a whole.
use aple.Base.{
  ℕ, suc, ◌+◌, ◌≡◌, refl, sym, subst, Bool, not, none, List, arith, length, keep_if, map, ==_refl,
}
use aple.Base.Int.{ℤ}
use aple.Msg.{Msg, QMsg, SyncMsg, Ring, MsgQueue}
use aple.Ring.Contents.{IsValid, contents, count}
use aple.Ring.Window.{used-lt}
use aple.Chain.Fifo.{IsChain}
use aple.Chain.Sweep.{sweep_lem}
use aple.World.{World}
use aple.Throw.{
  is_for, swept, scanned, thrown_away, thrown_count, throw_away_messages, sync_addr, qmsg_addr,
  start_at,
}
use aple.Throw.Posted.{Cleaned, throw_posted-Cleaned}
use aple.Throw.Sync.{cancel_sync-woken, cancel_sync-thrown}

scanned-Cleaned :
    (hit : ℕ → Bool) (r : Ring)
    → IsValid r
    → Cleaned (λ m. hit m.hwnd) r.len r.readpos (count r) r.msg 0 (scanned hit r)
scanned-Cleaned hit r v =
    throw_posted-Cleaned (λ m. hit m.hwnd) r.len (count r) (suc r.len) r.readpos r.writepos r.msg 0
      v.read_in v.write_in v.room refl
      (omega (arith, used-lt r.len r.readpos r.writepos v.read_in v.write_in))

-- The messages that are left, for a test on the window.
abbrev pub others : (ℕ → Bool) → List Msg → List Msg
others hit ms = keep_if (λ m. not (hit m.hwnd)) ms

abbrev pub thrown : (ℕ → Bool) → List Msg → List Msg
thrown hit ms = keep_if (λ m. hit m.hwnd) ms

-- What throwing away the messages of the windows that `hit` names makes of a queue.
pub record Purged (hit : ℕ → Bool) (before after : MsgQueue) : Type 0 where
  pub posted : contents after.ring ≡ others hit (contents before.ring)
  pub ring_valid : IsValid after.ring
  pub notify : after.notify ≡ keep_if (λ n. not (hit n.body.hwnd)) before.notify
  pub notify_linked : IsChain qmsg_addr after.notify after.last_notify

thrown_away-Purged :
    (canceled : ℤ) (hit : ℕ → Bool) (q : MsgQueue)
    → IsValid q.ring
    → IsChain qmsg_addr q.notify q.last_notify
    → Purged hit q (thrown_away canceled hit q)
unfolding thrown_away contents
thrown_away-Purged canceled hit q v l =
    let c = scanned-Cleaned hit q.ring v in
    let (e, k, n) = sweep_lem qmsg_addr (λ x. hit x.body.hwnd) q.notify q.last_notify l in
    record {
      posted = c.kept;
      ring_valid = record {
        room = omega (arith, c.size, v.room);
        read_in = v.read_in;
        write_in = c.write_in;
      };
      notify = e;
      notify_linked = subst (λ xs. IsChain qmsg_addr xs (swept hit q).last) (sym e) k;
    }

thrown_count_lem :
    (canceled : ℤ) (hit : ℕ → Bool) (q : MsgQueue)
    → IsValid q.ring
    → IsChain qmsg_addr q.notify q.last_notify
    → thrown_count canceled hit q
      ≡ length (keep_if (λ (x : QMsg). hit x.body.hwnd) q.notify)
        + length (keep_if (λ (x : SyncMsg). hit x.body.hwnd) q.sync)
        + length (thrown hit (contents q.ring))
unfolding thrown_count contents
thrown_count_lem canceled hit q v l = omega (
  arith,
  (sweep_lem qmsg_addr (λ x. hit x.body.hwnd) q.notify q.last_notify l).2,
  cancel_sync-thrown canceled (λ m. hit m.hwnd) q.sync none (start_at q.sync),
  (scanned-Cleaned hit q.ring v).count,
)

-- For a queue with a valid buffer and rightly linked notifications, throwing away the messages of a
-- window leaves exactly the posted and the notification messages that are neither for the window nor
-- for a control in it, in order, with the buffer valid and the pointers right. It returns the number of
-- messages of all three kinds that were for the window, and wakes the sender of each synchronous one of
-- these, in order.
pub throw_away_messages-Purged :
    (w : World) (canceled : ℤ) (q hwnd : ℕ)
    → IsValid (w.queues q).ring
    → IsChain qmsg_addr (w.queues q).notify (w.queues q).last_notify
    → let (w', n, woken) = throw_away_messages w canceled q hwnd in
      Purged (is_for w hwnd) (w.queues q) (w'.queues q)
      × (n
          ≡ length (keep_if (λ (x : QMsg). is_for w hwnd x.body.hwnd) (w.queues q).notify)
            + length (keep_if (λ (x : SyncMsg). is_for w hwnd x.body.hwnd) (w.queues q).sync)
            + length (thrown (is_for w hwnd) (contents (w.queues q).ring)))
      × (woken
          ≡ map sync_addr (keep_if (λ (x : SyncMsg). is_for w hwnd x.body.hwnd) (w.queues q).sync))
unfolding throw_away_messages
throw_away_messages-Purged w canceled q hwnd v l = (
  rw (==_refl q) (thrown_away-Purged canceled (is_for w hwnd) (w.queues q) v l),
  thrown_count_lem canceled (is_for w hwnd) (w.queues q) v l,
  cancel_sync-woken canceled (λ m. is_for w hwnd m.hwnd) (w.queues q).sync none
      (start_at (w.queues q).sync),
)
