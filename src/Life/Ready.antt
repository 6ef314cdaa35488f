-- ===== src/Life/Ready.antt =====
-- A new queue, and how often it is idle before it says so.
use aple.Base.{
  ℕ, zero, suc, ◌≡◌, ◌≤◌, ◌<◌, refl, true, false, Option, some, List, [], leb, length, replicate,
  arith, Bool-cases, inl, inr, ==_refl,
}
use aple.Base.Int.{ℤ, pos, negsuc}
use aple.Msg.{Msg, MsgQueue}
use aple.Paint.{Main}
use aple.World.{World}
use aple.Ring.Contents.{IsValid, contents, contents_empty}
use aple.Peek.{any, have_pending}
use aple.Life.{Calls, buffer_len, fresh, init_msg_queue, handle_idle_message}

buffer_len-pos : (def_len : ℕ) (n : ℤ) → 0 < def_len → 0 < buffer_len def_len n
unfolding buffer_len
buffer_len-pos def_len (pos zero) h = h
buffer_len-pos def_len (pos (suc n)) h = omega arith
buffer_len-pos def_len (negsuc n) h = h

any-replicate : (n : ℕ) → any (replicate n false) ≡ false
any-replicate zero = refl
any-replicate (suc n) = any-replicate n

-- Where the calls of an initialisation succeed, the block has room for the messages asked for, and the
-- default length is not 0, the queue is made, also for a length of 0 or less: the positions lie in its
-- buffer, it holds no posted message, nothing is pending, and the lock and the semaphore are there.
pub init_msg_queue_lem :
    (c : Calls) (def_len nr_timers tick : ℕ) (buf_len : ℤ) (block : List Msg)
    → c.attr_init ≡ true
    → c.set_type ≡ true
    → c.lock_init ≡ true
    → c.attr_destroy ≡ true
    → c.wait_init ≡ true
    → c.malloc (buffer_len def_len buf_len) ≡ some block
    → buffer_len def_len buf_len ≤ length block
    → 0 < def_len
    → (q : MsgQueue) × (init_msg_queue c def_len nr_timers tick buf_len
        ≡ (some q, record { lock = true; wait = true }))
      × IsValid q.ring
      × (contents q.ring ≡ [])
      × (have_pending false true q ≡ false)
unfolding init_msg_queue have_pending
init_msg_queue_lem c def_len nr_timers tick buf_len block c₁ c₂ c₃ c₄ c₅ m room h = (
  fresh nr_timers tick (buffer_len def_len buf_len) block,
  rw (c₁, c₂, c₃, c₄, c₅, m) refl,
  record {
    room = room;
    read_in = buffer_len-pos def_len buf_len h;
    write_in = buffer_len-pos def_len buf_len h;
  },
  contents_empty (fresh nr_timers tick (buffer_len def_len buf_len) block).ring refl,
  rw (any-replicate nr_timers) refl,
)

-- Where the limit is not 0 and the count lies below it, the count lies below it after each idle round.
pub handle_idle_message_counts :
    (bits max_idle : ℕ) (w : World) (q : ℕ) (root : Option Main)
    → (w.queues q).idle_counter < max_idle
    → ((handle_idle_message bits max_idle w q root).0.queues q).idle_counter < max_idle
unfolding handle_idle_message
handle_idle_message_counts bits max_idle w q root h =
    elim (Bool-cases (leb max_idle (suc (w.queues q).idle_counter))) [
      | inl t ↦ rw (t, ==_refl q) (omega (arith, h))
      | inr t ↦ rw (t, ==_refl q) (ground (arith, h, t))
    ]
