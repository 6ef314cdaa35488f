-- ===== src/Post/Broadcast.antt =====
-- What `__mg_broadcast_message` returns: the field `time`, in which the calls of `_my_travel_cb` mean to
-- count.
use aple.Base.{
  ℕ, ◌+◌, ◌%◌, ◌^◌, ◌≡◌, refl, ap, ◌∙◌, Bool, true, Option, none, some, List, [], ◌∷◌, ◌++◌, arith,
}
use aple.Msg.{Msg}
use aple.World.{World}
use aple.Post.{kernel_queue_message, my_travel_cb, broadcast_from, root_handle, broadcast_message}
use aple.Paint.{Main, travel}

kernel_queue_message-tick :
    (w : World) (q : Option ℕ) (m : Msg) → (kernel_queue_message w q m).0.tick ≡ w.tick
unfolding kernel_queue_message
kernel_queue_message-tick w none m = refl
kernel_queue_message-tick w (some q) m = ground arith

my_travel_cb-tick :
    (bits : ℕ) (s : World × Msg) (win : ℕ) → (my_travel_cb bits s win).0.tick ≡ s.0.tick
unfolding my_travel_cb
my_travel_cb-tick bits (w, m) win =
    kernel_queue_message-tick w (w.windows win).queue (record m { hwnd = win })

broadcast-tick :
    (bits : ℕ) (s : World × Msg) (wins : List ℕ) → (broadcast_from bits s wins).0.tick ≡ s.0.tick
unfolding broadcast_from
broadcast-tick bits s [] = refl
broadcast-tick bits s (win ∷ wins) =
    broadcast-tick bits (my_travel_cb bits s win) wins ∙ my_travel_cb-tick bits s win

broadcast-append :
    (bits : ℕ) (s : World × Msg) (wins more : List ℕ)
    → broadcast_from bits s (wins ++ more) ≡ broadcast_from bits (broadcast_from bits s wins) more
unfolding broadcast_from
broadcast-append bits s [] more = refl
broadcast-append bits s (win ∷ wins) more =
    broadcast-append bits (my_travel_cb bits s win) wins more

-- The call for one window, as the loop makes it.
abbrev pub call_at : World × Msg → ℕ → World × Msg × Bool
call_at s win = kernel_queue_message s.0 (s.0.windows win).queue (record (s.1) { hwnd = win })

kernel_queue_message-time :
    (w : World) (q : Option ℕ) (m : Msg)
    → (kernel_queue_message w q m).2 ≡ true
    → (kernel_queue_message w q m).1.time ≡ w.tick
unfolding kernel_queue_message
kernel_queue_message-time w none m h = cc
kernel_queue_message-time w (some q) m h = ground arith

my_travel_cb-time :
    (bits : ℕ) (s : World × Msg) (win : ℕ)
    → (call_at s win).2 ≡ true
    → (my_travel_cb bits s win).1.time ≡ (s.0.tick + 1) % 2 ^ bits
unfolding my_travel_cb
my_travel_cb-time bits (w, m) win h = rw h (
    ap (λ t. (t + 1) % 2 ^ bits)
      (kernel_queue_message-time w (w.windows win).queue (record m { hwnd = win }) h))

broadcast_from-time :
    (bits : ℕ) (s : World × Msg) (wins : List ℕ) (win : ℕ)
    → (call_at (broadcast_from bits s wins) win).2 ≡ true
    → (broadcast_from bits s (wins ++ (win ∷ []))).1.time ≡ (s.0.tick + 1) % 2 ^ bits
unfolding broadcast_from
broadcast_from-time bits s wins win h = rw broadcast-append (
    my_travel_cb-time bits (broadcast_from bits s wins) win h
    ∙ ap (λ t. (t + 1) % 2 ^ bits) (broadcast-tick bits s wins))

-- However many windows took the message before it, once the root window takes it the broadcast returns
-- the tick count plus one, in a DWORD: `kernel_QueueMessage` has overwritten the count in `time`.
pub broadcast_message_returns_tick :
    (bits : ℕ) (w : World) (root : Main) (m : Msg)
    → (call_at (broadcast_from bits (w, record m { time = 0 }) (travel root)) (root_handle root)).2
      ≡ true
    → (broadcast_message bits w (some root) m).1.time ≡ (w.tick + 1) % 2 ^ bits
unfolding broadcast_message
broadcast_message_returns_tick bits w root m h =
    broadcast_from-time bits (w, record m { time = 0 }) (travel root) (root_handle root) h
