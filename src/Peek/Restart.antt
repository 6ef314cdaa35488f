-- ===== src/Peek/Restart.antt =====
-- How often `PeekMessageEx` starts again after the callback of a timer.
use aple.Base.{
  ℕ, zero, suc, ◌≤◌, ◌<◌, ◌≡◌, refl, sym, Bool, true, false, ◌&&◌, Option, none, some, List, [],
  ◌∷◌, ◌==◌, arith, get_or, set, if◌then◌else◌, length, Bool-cases, inl, inr, subst,
}
use aple.Msg.{Msg, SyncMsg, QMsg, Timer, MsgQueue, msg_paint, msg_timer}
use aple.Ring.{next, front}
use aple.Paint.{check_hosted_tree}
use aple.Peek.{
  Ask, Capture, Scene, Step, quit, got, go_on, call, ◌>>=◌, peek_quit, peek_sync, peek_sync_at,
  peek_notify, peek_notify_at, peek_post, peek_paint, peek_desktop_timer, any, find_slot,
  first_slot, fire, fire_at, peek_timer, peek_rest, peek_pass, peek_message, is_wanted, got_ret,
}

-- How many slots have expired.
abbrev pub flags : List Bool → ℕ
flags [] = 0
flags (true ∷ bs) = suc (flags bs)
flags (false ∷ bs) = flags bs

flags-set : (bs : List Bool) (k : ℕ) → get_or bs k false ≡ true → flags (set bs k false) < flags bs
flags-set [] k h = absurd cc
flags-set (true ∷ bs) zero h = omega arith
flags-set (false ∷ bs) zero h = absurd cc
flags-set (true ∷ bs) (suc k) h = omega (arith, flags-set bs k h)
flags-set (false ∷ bs) (suc k) h = omega (arith, flags-set bs k h)

find_slot-get_or :
    (expired : List Bool) (count first fuel slot k : ℕ)
    → find_slot expired count first fuel slot ≡ some k
    → get_or expired k false ≡ true
unfolding find_slot
find_slot-get_or expired count first zero slot k e = absurd cc
find_slot-get_or expired count first (suc fuel) slot k e =
    elim (Bool-cases (get_or expired slot false)) [
      | inl t ↦ found slot t (rw (t, find_slot) at e)
      | inr t ↦ elim (Bool-cases (next count slot == first)) [
        | inl u ↦ absurd (none-not (rw (t, u, find_slot) at e))
        | inr u ↦
            find_slot-get_or expired count first fuel (next count slot) k
              (rw (t, u, find_slot) at e)
      ]
    ]
  where
    found :
        (i : ℕ) → get_or expired i false ≡ true → some i ≡ some k → get_or expired k false ≡ true
    found i t f = cc

    none-not : none ≡ some k → ⊥
    none-not f = cc

-- A step that leaves the flags of the slots as `bs`, or, where a callback runs, fewer of them.
abbrev Lowers : List Bool → Step → Type 0
Lowers bs (quit q m) = Unit
Lowers bs (got q m) = Unit
Lowers bs (go_on q m) = q.expired ≡ bs
Lowers bs (call q m slot t) = flags q.expired < flags bs

bind-Lowers :
    (bs : List Bool) (s : Step) (f : MsgQueue → Msg → Step)
    → Lowers bs s
    → ((q : MsgQueue) (m : Msg) → q.expired ≡ bs → Lowers bs (f q m))
    → Lowers bs (s >>= f)
bind-Lowers bs (quit q m) f h k = tt
bind-Lowers bs (got q m) f h k = tt
bind-Lowers bs (go_on q m) f h k = k q m h
bind-Lowers bs (call q m slot t) f h k = h

if-Lowers :
    (bs : List Bool) (b : Bool) (s t : Step)
    → Lowers bs s
    → Lowers bs t
    → Lowers bs (if b then s else t)
if-Lowers bs true s t h k = h
if-Lowers bs false s t h k = k

module _ (a : Ask) (bs : List Bool) where
  quit-Lowers : (q : MsgQueue) (m : Msg) → q.expired ≡ bs → Lowers bs (peek_quit a q m)
  unfolding peek_quit
  quit-Lowers q m e = if-Lowers bs q.state.quit _ _ tt e

  sync_at-Lowers :
      (q : MsgQueue) (m : Msg) (xs : List SyncMsg)
      → q.expired ≡ bs
      → Lowers bs (peek_sync_at a q m xs)
  unfolding peek_sync_at
  sync_at-Lowers q m [] e = e
  sync_at-Lowers q m (x ∷ xs) e = if-Lowers bs (is_wanted a x.body.message) _ _ tt e

  sync-Lowers : (q : MsgQueue) (m : Msg) → q.expired ≡ bs → Lowers bs (peek_sync a q m)
  unfolding peek_sync
  sync-Lowers q m e = if-Lowers bs q.state.sync_msg _ _ (sync_at-Lowers q m q.sync e) e

  notify_at-Lowers :
      (q : MsgQueue) (m : Msg) (xs : List QMsg)
      → q.expired ≡ bs
      → Lowers bs (peek_notify_at a q m xs)
  unfolding peek_notify_at
  notify_at-Lowers q m [] e = e
  notify_at-Lowers q m (x ∷ xs) e = if-Lowers bs (is_wanted a x.body.message) _ _ tt e

  notify-Lowers : (q : MsgQueue) (m : Msg) → q.expired ≡ bs → Lowers bs (peek_notify a q m)
  unfolding peek_notify
  notify-Lowers q m e = if-Lowers bs q.state.notify_msg _ _ (notify_at-Lowers q m q.notify e) e

  post-Lowers :
      (c : Capture) (q : MsgQueue) (m : Msg) → q.expired ≡ bs → Lowers bs (peek_post c a q m)
  unfolding peek_post
  post-Lowers c q m e =
      if-Lowers bs q.state.post_msg _ _
        (if-Lowers bs (q.ring.readpos == q.ring.writepos) _ _ e
          (if-Lowers bs (is_wanted a (front q.ring).message) _ _ tt e))
        e

  paint_at-Lowers :
      (o : Option ℕ) (f : ℕ → Step) (s : Step)
      → ((h : ℕ) → Lowers bs (f h))
      → Lowers bs s
      → Lowers bs (elim o [ some h ↦ f h | none ↦ s ])
  paint_at-Lowers none f s h k = k
  paint_at-Lowers (some x) f s h k = h x

  paint-Lowers :
      (s : Scene) (q : MsgQueue) (m : Msg) → q.expired ≡ bs → Lowers bs (peek_paint s a q m)
  unfolding peek_paint
  paint-Lowers s q m e =
      if-Lowers bs (q.state.paint && is_wanted a msg_paint) _ _
        (paint_at-Lowers (check_hosted_tree s.desktop s.root) _ _ (λ h. tt) e) e

  desktop_timer-Lowers :
      (s : Scene) (q : MsgQueue) (m : Msg) → q.expired ≡ bs → Lowers bs (peek_desktop_timer s a q m)
  unfolding peek_desktop_timer
  desktop_timer-Lowers s q m e = if-Lowers bs (s.is_desktop_queue && q.state.desk_timer) _ _ tt e

  fire-Lowers :
      (q : MsgQueue) (m : Msg) (k : ℕ) (o : Option Timer)
      → q.expired ≡ bs
      → get_or bs k false ≡ true
      → Lowers bs (fire q m k o)
  unfolding fire
  fire-Lowers q m k none e h = e
  fire-Lowers q m k (some t) e h =
      if-Lowers bs t.proc _ _
        (subst (λ l. flags (set l k false) < flags bs) (sym e) (flags-set bs k h)) tt

  fire_at-Lowers :
      (q : MsgQueue) (m : Msg) (o : Option ℕ)
      → q.expired ≡ bs
      → ((k : ℕ) → o ≡ some k → get_or bs k false ≡ true)
      → Lowers bs (fire_at q m o)
  unfolding fire_at
  fire_at-Lowers q m none e h = e
  fire_at-Lowers q m (some k) e h = fire-Lowers q m k (get_or q.timer_slots k none) e (h k refl)

  timer-Lowers : (q : MsgQueue) (m : Msg) → q.expired ≡ bs → Lowers bs (peek_timer a q m)
  unfolding peek_timer
  timer-Lowers q m e =
      if-Lowers bs (any q.expired && is_wanted a msg_timer) _ _
        (fire_at-Lowers
          (record q { first_timer_slot = next (length q.timer_slots) q.first_timer_slot }) m
          (first_slot q) e
          (λ k f.
            subst (λ l. get_or l k false ≡ true) e
              (find_slot-get_or q.expired (length q.timer_slots) q.first_timer_slot
                (length q.timer_slots) q.first_timer_slot k f)))
        e

  pass-Lowers :
      (s : Scene) (q : MsgQueue) (m : Msg) → q.expired ≡ bs → Lowers bs (peek_pass s a q m)
  unfolding peek_pass peek_rest
  pass-Lowers s q m e = bind-Lowers bs (peek_quit a q m) _ (quit-Lowers q m e) (λ q₁ m₁ e₁.
      bind-Lowers bs (peek_sync a q₁ m₁) _ (sync-Lowers q₁ m₁ e₁) (λ q₂ m₂ e₂.
        bind-Lowers bs (peek_notify a q₂ m₂) _ (notify-Lowers q₂ m₂ e₂) (λ q₃ m₃ e₃.
          bind-Lowers bs (peek_post s.capture a q₃ m₃) _ (post-Lowers s.capture q₃ m₃ e₃)
            (λ q₄ m₄ e₄.
              bind-Lowers bs (peek_paint s a q₄ m₄) _ (paint-Lowers s q₄ m₄ e₄) (λ q₅ m₅ e₅.
                bind-Lowers bs (peek_desktop_timer s a q₅ m₅) _ (desktop_timer-Lowers s q₅ m₅ e₅)
                  (λ q₆ m₆ e₆. timer-Lowers q₆ m₆ e₆))))))

module _ (proc : MsgQueue → ℕ → Timer → MsgQueue) where
  abbrev Returns : ℕ → Scene → Ask → MsgQueue → Msg → Type 0
  Returns fuel e a q m = (r : MsgQueue × Msg × Bool) × (peek_message proc fuel e a q m ≡ some r)

  Returns-after :
      (fuel : ℕ) (e : Scene) (a : Ask) (q : MsgQueue) (m : Msg) (s : Step)
      → peek_pass e a q m ≡ s
      → ((k : MsgQueue) (x : Msg) (slot : ℕ) (t : Timer)
          → s ≡ call k x slot t
          → Returns fuel e a (proc k slot t) x)
      → Returns (suc fuel) e a q m
  unfolding peek_message
  Returns-after fuel e a q m (quit k x) p again = ((k, x, false), rw (p, peek_message) refl)
  Returns-after fuel e a q m (got k x) p again =
      ((got_ret e k x, x, true), rw (p, peek_message) refl)
  Returns-after fuel e a q m (go_on k x) p again = ((k, x, false), rw (p, peek_message) refl)
  Returns-after fuel e a q m (call k x slot t) p again =
      let (r, f) = again k x slot t refl in (r, rw (p, peek_message) f)

  call-flags :
      (e : Scene) (a : Ask) (q : MsgQueue) (m : Msg) (k : MsgQueue) (x : Msg) (slot : ℕ) (t : Timer)
      → peek_pass e a q m ≡ call k x slot t
      → flags k.expired < flags q.expired
  call-flags e a q m k x slot t p = subst (Lowers q.expired) p (pass-Lowers a q.expired e q m refl)

  -- Where no callback of a timer makes more slots expire, `PeekMessageEx` returns after at most one pass
  -- more than there are slots expired at first.
  pub peek_message_returns :
      ((q : MsgQueue) (slot : ℕ) (t : Timer) → flags (proc q slot t).expired ≤ flags q.expired)
      → (n : ℕ) (e : Scene) (a : Ask) (q : MsgQueue) (m : Msg) → flags q.expired ≤ n
      → (r : MsgQueue × Msg × Bool) × (peek_message proc (suc n) e a q m ≡ some r)
  peek_message_returns calm zero e a q m h =
      Returns-after zero e a q m (peek_pass e a q m) refl
        (λ k x slot t p. absurd (omega (arith, h, call-flags e a q m k x slot t p)))
  peek_message_returns calm (suc n) e a q m h =
      Returns-after (suc n) e a q m (peek_pass e a q m) refl (λ k x slot t p.
        peek_message_returns calm n e a (proc k slot t) x
          (omega (arith, h, calm k slot t, call-flags e a q m k x slot t p)))
