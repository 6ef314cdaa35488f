-- ===== src/Throw.antt =====
-- `__mg_throw_away_messages`, `ThrowAwayMessages` and `EmptyMessageQueue` of
-- source/aple/lecture-5/minigui-message.c: each of their loops, and the functions.
pub mod Posted
pub mod Sync
pub mod Whole
use aple.Base.{
  ℕ, zero, suc, ◌+◌, ◌-◌, ◌%◌, ◌^◌, Bool, true, false, ◌&&◌, ◌||◌, not, Option, none, some, List,
  [], ◌∷◌, ◌==◌, if◌then◌else◌, get_or, set, leb, length, replicate, ◌++◌,
}
use aple.Base.Int.{ℤ}
use aple.Msg.{Msg, null_msg, QMsg, SyncMsg, Ring, Timer, MsgQueue, hwnd_invalid, qs_empty}
use aple.Ring.{next}
use aple.Chain.{set_next, addr?}
use aple.Chain.Fifo.{Sweep, sweep}
use aple.World.{
  World, update_queue, get_main_window_if_control, get_msg_queue_if_window_in_this_thread,
}
use aple.Post.{live_queue}

-- `pMsg->hwnd == hWnd || checkAndGetMainWindowIfControl (pMsg->hwnd) == pMainWin`, where `pMainWin` is
-- `hWnd` as a pointer; NULL is 0.
unfoldable pub is_for : World → ℕ → ℕ → Bool
is_for w hwnd h =
    h == hwnd
    || elim (get_main_window_if_control w h) [ none ↦ 0 == hwnd | some main ↦ main == hwnd ]

-- The loop `do … while (1)` that moves the messages behind a message by one place: `old_pos` is free,
-- `fuel` bounds the rounds, and `len` of them are enough.
module _ (len writepos : ℕ) where
  pub shift : ℕ → ℕ → List Msg → List Msg
  shift zero old_pos buf = buf
  shift (suc fuel) old_pos buf = elim (next len old_pos == writepos) [
    | true ↦ buf
    | false ↦
        shift fuel (next len old_pos) (set buf old_pos (get_or buf (next len old_pos) null_msg))
  ]

-- `if (writepos > 0) writepos--; else writepos = len - 1`
unfoldable pub previous : ℕ → ℕ → ℕ
previous len zero = len - 1
previous len (suc i) = i

-- The loop over the posted messages, from `readpos` on: the buffer, the new `writepos` and the count.
abbrev pub Scanned : Type 0
Scanned = List Msg × ℕ × ℕ

module _ (hit : Msg → Bool) (len : ℕ) where
  pub throw_posted : ℕ → ℕ → List Msg → ℕ → ℕ → Scanned
  unfolding shift previous
  throw_posted zero readpos buf writepos thrown = (buf, writepos, thrown)
  throw_posted (suc fuel) readpos buf writepos thrown = elim (readpos == writepos) [
    | true ↦ (buf, writepos, thrown)
    | false ↦ elim (hit (get_or buf readpos null_msg)) [
      | true ↦
          throw_posted fuel readpos
            (shift len writepos len readpos
              (set buf readpos (record (get_or buf readpos null_msg) { hwnd = hwnd_invalid })))
            (previous len writepos) (suc thrown)
      | false ↦ throw_posted fuel (next len readpos) buf writepos thrown
    ]
  ]

-- The loop over the synchronous messages, between two rounds: the nodes that `pFirstSyncMsg` reaches,
-- the addresses of those whose senders were woken by `sem_post`, and the count.
pub record Cancelled : Type 0 where
  pub chain : List SyncMsg
  pub woken : List ℕ
  pub thrown : ℕ

abbrev pub sync_addr : SyncMsg → ℕ
sync_addr n = n.addr

-- `pMsg->hwnd = HWND_INVALID; pSyncMsg->retval = ERR_MSG_CANCELED`, seen from the head of the list.
-- `canceled` is the value of `ERR_MSG_CANCELED`.
abbrev pub cancel_node : ℤ → SyncMsg → SyncMsg
cancel_node canceled n = record n {
  body = record (n.body) { hwnd = hwnd_invalid };
  retval = canceled;
}

unfoldable pub mark_at : ℤ → ℕ → List SyncMsg → List SyncMsg
mark_at canceled p [] = []
mark_at canceled p (n ∷ ns) =
    (if n.addr == p then cancel_node canceled n else n) ∷ mark_at canceled p ns

-- One round at a node that is hit. Behind a node `prev` it is unlinked from that one; `prev` is the
-- node of the round before, whether that was kept or not, unless the round was at the head.
abbrev pub cancel_round : ℤ → SyncMsg → List SyncMsg → Option ℕ → Cancelled → Cancelled
cancel_round canceled n rest none s = record s {
  chain = rest;
  woken = s.woken ++ (n.addr ∷ []);
  thrown = suc s.thrown;
}
cancel_round canceled n rest (some q) s = record s {
  chain = set_next sync_addr q rest (mark_at canceled n.addr s.chain);
  woken = s.woken ++ (n.addr ∷ []);
  thrown = suc s.thrown;
}

-- `pSyncPrev` for the next round.
abbrev pub next_prev : Bool → SyncMsg → Option ℕ → Option ℕ
next_prev false n prev = some n.addr
next_prev true n none = none
next_prev true n (some q) = some n.addr

unfoldable pub cancel_sync : ℤ → (Msg → Bool) → List SyncMsg → Option ℕ → Cancelled → Cancelled
unfolding mark_at
cancel_sync canceled hit [] prev s = s
cancel_sync canceled hit (n ∷ rest) prev s =
    cancel_sync canceled hit rest (next_prev (hit n.body) n prev)
      (if hit n.body then cancel_round canceled n rest prev s else s)

abbrev pub start_at : List SyncMsg → Cancelled
start_at ns = record { chain = ns; woken = []; thrown = 0 }

-- The loop over the timer slots: the expired flag of a timer of a window that is hit goes. A flag
-- without a timer, which C would fault on, stays.
unfoldable pub clear_timers : (ℕ → Bool) → List (Option Timer) → List Bool → List Bool
clear_timers hit slots [] = []
clear_timers hit [] (b ∷ bs) = b ∷ bs
clear_timers hit (none ∷ slots) (b ∷ bs) = b ∷ clear_timers hit slots bs
clear_timers hit (some t ∷ slots) (b ∷ bs) =
    (if b && hit t.hwnd then false else b) ∷ clear_timers hit slots bs

abbrev pub qmsg_addr : QMsg → ℕ
qmsg_addr n = n.addr

-- The three loops of `__mg_throw_away_messages` at a queue.
abbrev pub swept : (ℕ → Bool) → MsgQueue → Sweep QMsg
swept hit q =
    sweep qmsg_addr (λ n. hit n.body.hwnd) q.notify none
      (record { chain = q.notify; last = q.last_notify; thrown = 0 })

abbrev pub cancelled : ℤ → (ℕ → Bool) → MsgQueue → Cancelled
cancelled canceled hit q = cancel_sync canceled (λ m. hit m.hwnd) q.sync none (start_at q.sync)

abbrev pub scanned : (ℕ → Bool) → Ring → Scanned
scanned hit r = throw_posted (λ m. hit m.hwnd) r.len (suc r.len) r.readpos r.msg r.writepos 0

-- The queue afterwards; the flags in `dwState` and the pointer to the last synchronous message stay.
unfoldable pub thrown_away : ℤ → (ℕ → Bool) → MsgQueue → MsgQueue
thrown_away canceled hit q = record q {
  notify = (swept hit q).chain;
  last_notify = (swept hit q).last;
  sync = (cancelled canceled hit q).chain;
  ring = record (q.ring) { msg = (scanned hit q.ring).0; writepos = (scanned hit q.ring).1 };
  expired = clear_timers hit q.timer_slots q.expired;
}

-- `return nCountN + nCountS + nCountP`
unfoldable pub thrown_count : ℤ → (ℕ → Bool) → MsgQueue → ℕ
thrown_count canceled hit q =
    (swept hit q).thrown + (cancelled canceled hit q).thrown + (scanned hit q.ring).2

-- `__mg_throw_away_messages`: the world afterwards, the result, and the senders that were woken.
unfoldable pub throw_away_messages : World → ℤ → ℕ → ℕ → World × ℕ × List ℕ
unfolding thrown_away thrown_count is_for
throw_away_messages w canceled q hwnd = (
  update_queue w q (thrown_away canceled (is_for w hwnd)),
  thrown_count canceled (is_for w hwnd) (w.queues q),
  (cancelled canceled (is_for w hwnd) (w.queues q)).woken,
)

-- `ThrowAwayMessages`; `none` is `ERR_INV_HWND`.
unfoldable pub throw_away : World → ℤ → ℕ → World × Option ℕ × List ℕ
unfolding throw_away_messages
throw_away w canceled hwnd = elim (live_queue w hwnd) [
  | none ↦ (w, none, [])
  | some q ↦
      let (w', count, woken) = throw_away_messages w canceled q hwnd in (w', some count, woken)
]

-- `EmptyMessageQueue`: what is left of the queue, and the senders that were woken. All timer flags go.
unfoldable pub emptied : ℤ → MsgQueue → MsgQueue × List ℕ
unfolding cancel_sync
emptied canceled q = (
  record q {
    sync = (cancel_sync canceled (λ m. true) q.sync none (start_at q.sync)).chain;
    notify = [];
    last_notify = none;
    ring = record (q.ring) { readpos = 0; writepos = 0 };
    state = qs_empty;
    expired = replicate (length q.expired) false;
  },
  (cancel_sync canceled (λ m. true) q.sync none (start_at q.sync)).woken,
)

unfoldable pub empty_message_queue : World → ℤ → ℕ → World × Bool × List ℕ
unfolding emptied
empty_message_queue w canceled hwnd = elim (get_msg_queue_if_window_in_this_thread w hwnd) [
  | none ↦ (w, false, [])
  | some q ↦
      (update_queue w q (λ k. (emptied canceled k).0), true, (emptied canceled (w.queues q)).1)
]
