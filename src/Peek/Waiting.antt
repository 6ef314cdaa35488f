-- ===== src/Peek/Waiting.antt =====
-- The messages that wait in a queue as one list, and a pass of `PeekMessageEx` as taking its head.
use aple.Base.{
  ℕ, ◌≡◌, ◌≢◌, ap, sym, subst, ◌∙◌, Bool, true, false, ◌⊎◌, inl, inr, Option, none, some, List, [],
  ◌∷◌, ◌++◌, map, Bool-cases, List-cases, ==_refl, ==_false,
}
use aple.Msg.{Msg, QMsg, SyncMsg, MsgQueue}
use aple.Ring.{front, advance}
use aple.Ring.Contents.{IsValid, contents, contents_empty, contents-front, advance-IsValid}
use aple.Chain.Fifo.{IsChain, pop_node, pop_node-IsChain}
use native.Mathlib.Decide.{ℕ_discrete}
use aple.Peek.{
  Capture, check_captured, Ask, is_wanted, Scene, Step, quit, got, go_on, call, peek_quit,
  peek_sync, peek_notify, with_popped, peek_post, peek_pass,
}

-- The messages as the caller receives them.
abbrev pub sync_msg_of : SyncMsg → Msg
sync_msg_of x = record (x.body) { sync = some x.addr }

abbrev pub notify_msg_of : QMsg → Msg
notify_msg_of x = record (x.body) { sync = none }

abbrev pub post_msg_of : Capture → Msg → Msg
post_msg_of c m = check_captured c (record m { sync = none })

-- Synchronous messages come first, then notifications, then posted messages.
abbrev pub row : Capture → List SyncMsg → List QMsg → List Msg → List Msg
row c ss ns ps = map sync_msg_of ss ++ (map notify_msg_of ns ++ map (post_msg_of c) ps)

abbrev pub waiting : Capture → MsgQueue → List Msg
waiting c q = row c q.sync q.notify (contents q.ring)

-- The pointers and positions are right, and a kind of message that waits has its flag set.
pub record IsReady (q : MsgQueue) : Type 0 where
  pub ring_valid : IsValid q.ring
  pub linked : IsChain (λ (n : QMsg). n.addr) q.notify q.last_notify
  pub sync_flag : (q.sync ≡ []) ⊎ (q.state.sync_msg ≡ true)
  pub notify_flag : (q.notify ≡ []) ⊎ (q.state.notify_msg ≡ true)
  pub post_flag : (contents q.ring ≡ []) ⊎ (q.state.post_msg ≡ true)

-- A call that takes whatever comes.
abbrev pub TakesAll : Ask → Type 0
TakesAll a = ((n : ℕ) → is_wanted a n ≡ true) × (a.remove ≡ true)

-- The step ends with the first of the messages `before`, and leaves the others in a queue that is ready.
abbrev pub Takes : Capture → List Msg → Step → Type 0
Takes c before (quit q m) = ⊥
Takes c before (got q m) = (before ≡ m ∷ waiting c q) × IsReady q
Takes c before (go_on q m) = ⊥
Takes c before (call q m slot t) = ⊥

-- A queue without the flag of a kind.
abbrev pub no_sync : MsgQueue → MsgQueue
no_sync q = record q { state = record (q.state) { sync_msg = false } }

abbrev pub no_notify : MsgQueue → MsgQueue
no_notify q = record q { state = record (q.state) { notify_msg = false } }

abbrev pub no_post : MsgQueue → MsgQueue
no_post q = record q { state = record (q.state) { post_msg = false } }

pub by_flag {ℓ} :
    {A : Type ℓ} {xs : List A} {b : Bool} {x : A} {ys : List A}
    → (xs ≡ []) ⊎ (b ≡ true)
    → xs ≡ x ∷ ys
    → b ≡ true
by_flag (inl e) f = cc
by_flag (inr h) f = h

pub skip_quit :
    (a : Ask) (q : MsgQueue) (m : Msg) → q.state.quit ≡ false → peek_quit a q m ≡ go_on q m
unfolding peek_quit
skip_quit a q m h = rw h

pub skip_sync :
    (a : Ask) (q : MsgQueue) (m : Msg) → q.sync ≡ [] → peek_sync a q m ≡ go_on (no_sync q) m
unfolding peek_sync
skip_sync a q m e = elim (Bool-cases q.state.sync_msg) [ inl t ↦ rw (t, e) | inr t ↦ rw t ]

pub skip_notify :
    (a : Ask) (q : MsgQueue) (m : Msg) → q.notify ≡ [] → peek_notify a q m ≡ go_on (no_notify q) m
unfolding peek_notify
skip_notify a q m e = elim (Bool-cases q.state.notify_msg) [ inl t ↦ rw (t, e) | inr t ↦ rw t ]

pub skip_post :
    (c : Capture) (a : Ask) (q : MsgQueue) (m : Msg)
    → q.ring.readpos ≡ q.ring.writepos
    → peek_post c a q m ≡ go_on (no_post q) m
unfolding peek_post
skip_post c a q m e = elim (Bool-cases q.state.post_msg) [
  | inl t ↦ rw (t, e, ==_refl q.ring.writepos)
  | inr t ↦ rw t
]

module _ (a : Ask) (all : TakesAll a) where
  take_sync :
      (q : MsgQueue) (m : Msg) (x : SyncMsg) (xs : List SyncMsg)
      → q.sync ≡ x ∷ xs
      → q.state.sync_msg ≡ true
      → peek_sync a q m ≡ got (record q { sync = xs }) (sync_msg_of x)
  unfolding peek_sync
  take_sync q m x xs e t = rw (t, e, all.0, all.1)

  take_notify :
      (q : MsgQueue) (m : Msg) (x : QMsg) (xs : List QMsg)
      → q.notify ≡ x ∷ xs
      → q.state.notify_msg ≡ true
      → peek_notify a q m
        ≡ got (with_popped q (pop_node (λ n. n.addr) (x ∷ xs) q.last_notify)) (notify_msg_of x)
  unfolding peek_notify
  take_notify q m x xs e t = rw (t, e, all.0, all.1)

  take_post :
      (c : Capture) (q : MsgQueue) (m : Msg)
      → q.ring.readpos ≢ q.ring.writepos
      → q.state.post_msg ≡ true
      → peek_post c a q m ≡ got (record q { ring = advance q.ring }) (post_msg_of c (front q.ring))
  unfolding peek_post
  take_post c q m ne t = rw (t, ==_false q.ring.readpos q.ring.writepos ne, all.0, all.1)

  -- The three kinds in turn: nothing waits of the kinds before.
  pass_sync :
      (e : Scene) (q : MsgQueue) (m : Msg) (x : SyncMsg) (xs : List SyncMsg)
      → IsReady q
      → q.state.quit ≡ false
      → q.sync ≡ x ∷ xs
      → Takes e.capture (waiting e.capture q) (peek_pass e a q m)
  unfolding peek_pass
  pass_sync e q m x xs r nq s =
      rw (skip_quit a q m nq, take_sync q m x xs s (by_flag r.sync_flag s))
        (
          ap (λ ss. row e.capture ss q.notify (contents q.ring)) s,
          record {
            ring_valid = r.ring_valid;
            linked = r.linked;
            sync_flag = inr (by_flag r.sync_flag s);
            notify_flag = r.notify_flag;
            post_flag = r.post_flag;
          },
        )

  pass_notify :
      (e : Scene) (q : MsgQueue) (m : Msg) (x : QMsg) (xs : List QMsg)
      → IsReady q
      → q.state.quit ≡ false
      → q.sync ≡ []
      → q.notify ≡ x ∷ xs
      → Takes e.capture (waiting e.capture q) (peek_pass e a q m)
  unfolding peek_pass
  pass_notify e q m x xs r nq s n =
      rw
        (
          skip_quit a q m nq,
          skip_sync a q m s,
          take_notify (no_sync q) m x xs n (by_flag r.notify_flag n),
        )
        (
          ap (λ ss. row c ss q.notify ps) s
              ∙ ap (λ ns. row c [] ns ps) n
              ∙ ap (λ ns. notify_msg_of x ∷ row c [] ns ps) (sym p.0)
              ∙ ap (λ ss. notify_msg_of x ∷ row c ss popped.0 ps) (sym s),
          record {
            ring_valid = r.ring_valid;
            linked = p.1;
            sync_flag = inl s;
            notify_flag = inr (by_flag r.notify_flag n);
            post_flag = r.post_flag;
          },
        )
    where
      c : Capture
      c = e.capture

      ps : List Msg
      ps = contents q.ring

      popped : List QMsg × Option ℕ
      popped = pop_node (λ (k : QMsg). k.addr) (x ∷ xs) q.last_notify

      p : (popped.0 ≡ xs) × IsChain (λ (k : QMsg). k.addr) popped.0 popped.1
      p =
          pop_node-IsChain (λ (k : QMsg). k.addr) x xs q.last_notify
            (subst (λ l. IsChain (λ (k : QMsg). k.addr) l q.last_notify) n r.linked)

  pass_post :
      (e : Scene) (q : MsgQueue) (m : Msg)
      → IsReady q
      → q.state.quit ≡ false
      → q.sync ≡ []
      → q.notify ≡ []
      → q.ring.readpos ≢ q.ring.writepos
      → Takes e.capture (waiting e.capture q) (peek_pass e a q m)
  unfolding peek_pass
  pass_post e q m r nq s n ne =
      rw
        (
          skip_quit a q m nq,
          skip_sync a q m s,
          skip_notify a (no_sync q) m n,
          take_post e.capture (no_notify (no_sync q)) m ne
              (by_flag r.post_flag (contents-front q.ring r.ring_valid ne)),
        )
        (
          ap (λ ss. row c ss q.notify (contents q.ring)) s
              ∙ ap (λ ns. row c [] ns (contents q.ring)) n
              ∙ ap (row c [] []) (contents-front q.ring r.ring_valid ne)
              ∙ ap (λ ns. x ∷ row c [] ns (contents (advance q.ring))) (sym n)
              ∙ ap (λ ss. x ∷ row c ss q.notify (contents (advance q.ring))) (sym s),
          record {
            ring_valid = advance-IsValid q.ring r.ring_valid;
            linked = r.linked;
            sync_flag = inl s;
            notify_flag = inl n;
            post_flag = inr (by_flag r.post_flag (contents-front q.ring r.ring_valid ne));
          },
        )
    where
      c : Capture
      c = e.capture

      x : Msg
      x = post_msg_of c (front q.ring)

  -- A pass that takes whatever comes, at a queue that is ready, is not asked to quit and has a message
  -- waiting, ends with the first message in the order synchronous, notification, posted, and leaves the
  -- others, in a queue that is ready.
  pub peek_pass-Takes :
      (e : Scene) (q : MsgQueue) (m : Msg)
      → IsReady q
      → q.state.quit ≡ false
      → waiting e.capture q ≢ []
      → Takes e.capture (waiting e.capture q) (peek_pass e a q m)
  peek_pass-Takes e q m r nq some_wait = elim (List-cases q.sync) [
    | inr (x, xs, s) ↦ pass_sync e q m x xs r nq s
    | inl s ↦ elim (List-cases q.notify) [
      | inr (x, xs, n) ↦ pass_notify e q m x xs r nq s n
      | inl n ↦ elim (ℕ_discrete q.ring.readpos q.ring.writepos) [
        | no ne ↦ pass_post e q m r nq s n ne
        | yes p ↦ absurd (
            some_wait (
              ap (λ ss. row e.capture ss q.notify (contents q.ring)) s
              ∙ ap (λ ns. row e.capture [] ns (contents q.ring)) n
              ∙ ap (row e.capture [] []) (contents_empty q.ring p)))
      ]
    ]
  ]
