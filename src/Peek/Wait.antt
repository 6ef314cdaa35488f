-- ===== src/Peek/Wait.antt =====
-- The loop of `WaitMessage` in source/aple/lecture-5/minigui-message.c beside the threads that send messages.
-- What runs under the lock of the queue is one step, and so is each call on the semaphore.
use aple.Base.{
  ℕ, zero, suc, ◌+◌, ◌≤◌, ◌≡◌, ◌≢◌, refl, sym, ap, ◌∙◌, Bool, true, false, Option, none, some, [],
  ◌⊎◌, inl, inr, ◌==◌, if◌then◌else◌, arith,
}
use aple.Msg.{Msg, QMsg, SyncMsg, MsgQueue}
use aple.Ring.{queue}
use aple.Post.{put_message, set_paint, set_quit}
use aple.Notify.{append_notify, push_notify}
use aple.Send.{put_sync}
use aple.World.{World, get_msg_queue_if_window_in_this_thread}
use aple.Peek.{Capture, wait_done}
use aple.Peek.Waiting.{IsReady, waiting}
use aple.Peek.Pending.{waiting_seen}

-- Where the owner of the queue stands: at `checkagain`, at `sem_wait`, or behind `getit`.
pub data Owner : Type 0 where
  checking asleep returned : Owner

-- `posting` counts the threads between their stores under the lock and `POST_MSGQ`, and `raising` those that
-- found the semaphore at 0 there and have not posted it yet.
pub record Waiter : Type 0 where
  pub queue : MsgQueue
  pub owner : Owner
  pub posting : ℕ
  pub raising : ℕ

abbrev pub with_sem : MsgQueue → ℕ → MsgQueue
with_sem q v = record q { sem_value = v }

-- The start of `WaitMessage` with a `pMsg` that is not NULL: FALSE, or the queue with which the loop begins.
unfoldable pub wait_message : World → ℕ → Option Waiter
wait_message w hwnd = begins (get_msg_queue_if_window_in_this_thread w hwnd)
  where
    begins : Option ℕ → Option Waiter
    begins none = none
    begins (some q) = some (record {
      queue = record (w.queues q) { idle_counter = 0 };
      owner = checking;
      posting = 0;
      raising = 0;
    })

-- A step of the owner; `idle` is a round of `OnIdle` with `handle_idle_message` where that answers FALSE.
pub data Own (idle : MsgQueue → MsgQueue) (is_desktop_queue : Bool) : Waiter → Waiter → Type 0 where
  gets_it :
      (s : Waiter)
      → s.owner ≡ checking
      → wait_done is_desktop_queue s.queue ≡ true
      → Own idle is_desktop_queue s (record s { owner = returned })
  sleeps :
      (s : Waiter)
      → s.owner ≡ checking
      → wait_done is_desktop_queue s.queue ≡ false
      → s.queue.on_idle ≡ false
      → Own idle is_desktop_queue s (record s { owner = asleep })
  tries :
      (s : Waiter) (v : ℕ)
      → s.owner ≡ checking
      → wait_done is_desktop_queue s.queue ≡ false
      → s.queue.on_idle ≡ true
      → s.queue.sem_value ≡ suc v
      → Own idle is_desktop_queue s (record s { queue = with_sem s.queue v })
  idles :
      (s : Waiter)
      → s.owner ≡ checking
      → wait_done is_desktop_queue s.queue ≡ false
      → s.queue.on_idle ≡ true
      → s.queue.sem_value ≡ 0
      → Own idle is_desktop_queue s (record s { queue = idle s.queue })
  wakes :
      (s : Waiter) (v : ℕ)
      → s.owner ≡ asleep
      → s.queue.sem_value ≡ suc v
      → Own idle is_desktop_queue s (record s { queue = with_sem s.queue v; owner = checking })

-- The stores of another thread into the queue, each of them under the lock: of `kernel_QueueMessage` for a
-- message that the ring takes, of `PostMessage` for MSG_PAINT, of `PostQuitMessage`, of the three functions
-- for notifications, and of `SendSyncMessage`.
pub data Stores (q : MsgQueue) : MsgQueue → Type 0 where
  posts : (m : Msg) → (queue q.ring m).1 ≡ true → Stores q (put_message m q)
  paints : Stores q (set_paint q)
  quits : Stores q (set_quit q)
  notifies : (x : QMsg) → Stores q (append_notify x q)
  notifies_first : (x : QMsg) → Stores q (push_notify x q)
  sends : (x : SyncMsg) → Stores q (put_sync x q)

-- `POST_MSGQ` of one of the threads that stand before it, of which `n` are left: it asks `sem_getvalue`.
unfoldable pub test_sem : Waiter → ℕ → Waiter
test_sem s n = record s {
  posting = n;
  raising = if s.queue.sem_value == 0 then suc s.raising else s.raising;
}

-- `sem_post` of one of the threads that found 0, of which `n` are left.
unfoldable pub raise_sem : Waiter → ℕ → Waiter
raise_sem s n = record s { queue = with_sem s.queue (suc s.queue.sem_value); raising = n }

-- A step of any thread.
pub data Step (idle : MsgQueue → MsgQueue) (is_desktop_queue : Bool)
    : Waiter → Waiter → Type 0 where
  storing :
      (s : Waiter) {q : MsgQueue}
      → Stores s.queue q
      → Step idle is_desktop_queue s (record s { queue = q; posting = suc s.posting })
  testing : (s : Waiter) (n : ℕ) → s.posting ≡ suc n → Step idle is_desktop_queue s (test_sem s n)
  raises : (s : Waiter) (n : ℕ) → s.raising ≡ suc n → Step idle is_desktop_queue s (raise_sem s n)
  owning : {s t : Waiter} → Own idle is_desktop_queue s t → Step idle is_desktop_queue s t

-- The states that the threads reach while the owner waits.
pub data Reach (idle : MsgQueue → MsgQueue) (is_desktop_queue : Bool) (first : MsgQueue)
    : Waiter → Type 0 where
  start :
      Reach idle is_desktop_queue first
        (record { queue = first; owner = checking; posting = 0; raising = 0 })
  later :
      {s t : Waiter}
      → Reach idle is_desktop_queue first s
      → Step idle is_desktop_queue s t
      → Reach idle is_desktop_queue first t

-- A thread is about to wake the owner: the semaphore is above 0, or one stands in `POST_MSGQ` or before it.
abbrev Coming : ℕ → ℕ → ℕ → Type 0
Coming value posting raising = 1 ≤ value + posting + raising

-- A sleeping owner has nothing to get, or is about to be woken.
abbrev Inv : Bool → MsgQueue → ℕ → ℕ → Owner → Type 0
Inv d q posting raising checking = Unit
Inv d q posting raising asleep = (wait_done d q ≡ false) ⊎ Coming q.sem_value posting raising
Inv d q posting raising returned = Unit

awake : (d : Bool) (q : MsgQueue) (n k : ℕ) (o : Owner) → o ≡ checking → Inv d q n k o
awake d q n k checking e = tt
awake d q n k asleep e = absurd cc
awake d q n k returned e = tt

coming : (d : Bool) (q : MsgQueue) (n k : ℕ) (o : Owner) → Coming q.sem_value n k → Inv d q n k o
coming d q n k checking h = tt
coming d q n k asleep h = inr h
coming d q n k returned h = tt

test_sem-Coming :
    (value posting raising : ℕ) → Coming value posting (if value == 0 then suc raising else raising)
test_sem-Coming value posting raising = ground arith

Step-Inv :
    {idle : MsgQueue → MsgQueue} {d : Bool} {s t : Waiter}
    → Step idle d s t
    → Inv d s.queue s.posting s.raising s.owner
    → Inv d t.queue t.posting t.raising t.owner
unfolding test_sem raise_sem
Step-Inv {idle} {d} (storing s {q} x) v = coming d q (suc s.posting) s.raising s.owner (omega arith)
Step-Inv {idle} {d} (testing s n e) v =
    coming d s.queue n _ s.owner (test_sem-Coming s.queue.sem_value n s.raising)
Step-Inv {idle} {d} (raises s n e) v =
    coming d (with_sem s.queue (suc s.queue.sem_value)) s.posting n s.owner (omega arith)
Step-Inv {idle} {d} (owning (gets_it s e f)) v = tt
Step-Inv {idle} {d} (owning (sleeps s e f g)) v = inl f
Step-Inv {idle} {d} (owning (tries s k e f g h)) v =
    awake d (with_sem s.queue k) s.posting s.raising s.owner e
Step-Inv {idle} {d} (owning (idles s e f g h)) v =
    awake d (idle s.queue) s.posting s.raising s.owner e
Step-Inv {idle} {d} (owning (wakes s k e h)) v = tt

Reach-Inv :
    {idle : MsgQueue → MsgQueue} {d : Bool} {first : MsgQueue} {s : Waiter}
    → Reach idle d first s
    → Inv d s.queue s.posting s.raising s.owner
Reach-Inv start = tt
Reach-Inv (later r x) = Step-Inv x (Reach-Inv r)

not_both : true ≡ false → ⊥
not_both f = absurd cc

-- Two steps of the owner lead to the return.
abbrev pub Returns : (MsgQueue → MsgQueue) → Bool → Waiter → Type 0
Returns idle d s =
    (t : Waiter) × (u : Waiter) × (Own idle d s t × Own idle d t u × (u.owner ≡ returned))

-- What wakes the owner: the semaphore, or a thread behind its test in `POST_MSGQ`, or one before the test.
pub data Woken (idle : MsgQueue → MsgQueue) (d : Bool) (s : Waiter) : Type 0 where
  by_sem : 1 ≤ s.queue.sem_value → Returns idle d s → Woken idle d s
  by_raise : (n : ℕ) → s.raising ≡ suc n → Returns idle d (raise_sem s n) → Woken idle d s
  by_post :
      (n : ℕ)
      → s.posting ≡ suc n
      → Returns idle d (raise_sem (test_sem s n) s.raising)
      → (test_sem s n).raising ≡ suc s.raising
      → Woken idle d s

returns :
    {idle : MsgQueue → MsgQueue} {d : Bool} (s : Waiter) (v : ℕ)
    → s.owner ≡ asleep
    → wait_done d s.queue ≡ true
    → s.queue.sem_value ≡ suc v
    → Returns idle d s
unfolding wait_done
returns s v e seen f = (_, _, (wakes s v e f, gets_it _ refl seen, refl))

woken :
    {idle : MsgQueue → MsgQueue} {d : Bool} (s : Waiter) (v n k : ℕ)
    → s.owner ≡ asleep
    → wait_done d s.queue ≡ true
    → s.queue.sem_value ≡ v
    → s.raising ≡ k
    → s.posting ≡ n
    → Coming v n k
    → Woken idle d s
unfolding wait_done test_sem raise_sem
woken s (suc v) n k e seen f g h c = by_sem (omega (arith, f)) (returns s v e seen f)
woken s zero n (suc k) e seen f g h c =
    by_raise k g (returns (raise_sem s k) s.queue.sem_value e seen refl)
woken s zero (suc n) zero e seen f g h c =
    by_post n h (returns (raise_sem (test_sem s n) s.raising) s.queue.sem_value e seen refl)
      (ap (λ x. if x == 0 then suc s.raising else s.raising) f)
woken s zero zero zero e seen f g h c = absurd (omega (arith, c))

-- Under every interleaving of the owner with threads that post, notify, send and ask to quit, where a thread
-- stores under the lock and comes to its `POST_MSGQ` only later, and that tests and posts in two steps, each
-- call on the semaphore being atomic and `sem_getvalue` telling its count: where
-- the owner sleeps in `WaitMessage` while a message waits in a queue that is ready, the semaphore is above 0,
-- and two steps of the owner bring it to the return; or a thread has found the semaphore at 0, and they do so
-- behind its `sem_post`; or a thread stands before its `POST_MSGQ`, finds 0, and they do so behind that.
pub no_message_is_missed :
    {idle : MsgQueue → MsgQueue} {d : Bool} {first : MsgQueue} {s : Waiter} (c : Capture)
    → Reach idle d first s
    → s.owner ≡ asleep
    → IsReady s.queue
    → waiting c s.queue ≢ []
    → Woken idle d s
no_message_is_missed {idle} {d} {first} {s} c r e ready some_wait =
    woken s s.queue.sem_value s.posting s.raising e seen refl refl refl
      (above s.owner e (Reach-Inv r))
  where
    seen : wait_done d s.queue ≡ true
    seen = (waiting_seen c false d s.queue ready some_wait).0

    above :
        (o : Owner)
        → o ≡ asleep
        → Inv d s.queue s.posting s.raising o
        → Coming s.queue.sem_value s.posting s.raising
    above checking h v = absurd cc
    above asleep h (inl f) = absurd (not_both (sym seen ∙ f))
    above asleep h (inr p) = p
    above returned h v = absurd cc
