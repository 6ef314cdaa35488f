-- ===== src/Ring.antt =====
-- The circular buffer of posted messages, as `kernel_QueueMessage` and `PeekMessageEx` of
-- source/aple/lecture-5/minigui-message.c use it: the two scans for a message to merge with, the
-- write at `writepos` and the read at `readpos`.
pub mod Window
pub mod Scan
pub mod Contents
use aple.Base.{
  ℕ, zero, suc, ◌+◌, ◌%◌, Bool, true, false, ◌&&◌, ◌||◌, Option, none, some, List, get_or, set,
  ◌==◌, if◌then◌else◌,
}
use aple.Msg.{
  Msg, null_msg, Ring, msg_mousemove, msg_ncmousemove, msg_dt_mousemove, msg_timeout, msg_idle,
  msg_caretblink,
}

-- `pos++; pos %= len`
unfoldable pub next : ℕ → ℕ → ℕ
next len i = (i + 1) % len

-- `a_msg->message == msg->message && a_msg->wParam == msg->wParam && a_msg->hwnd == msg->hwnd`
unfoldable pub same_move : Msg → Msg → Bool
same_move m a = a.message == m.message && a.w_param == m.w_param && a.hwnd == m.hwnd

-- `a_msg->message == msg->message && a_msg->hwnd == msg->hwnd`
unfoldable pub same_window : Msg → Msg → Bool
same_window m a = a.message == m.message && a.hwnd == m.hwnd

unfoldable pub is_move : ℕ → Bool
is_move n = n == msg_mousemove || n == msg_ncmousemove || n == msg_dt_mousemove

unfoldable pub is_repeated : ℕ → Bool
is_repeated n = n == msg_timeout || n == msg_idle || n == msg_caretblink

-- What a scan writes into the message that it found.
unfoldable pub merge_move : Msg → Msg → Msg
merge_move m a = record a { l_param = m.l_param; time = m.time }

unfoldable pub merge_repeated : Msg → Msg → Msg
merge_repeated m a = record a { w_param = m.w_param; l_param = m.l_param; time = m.time }

-- The scans run from `readpos` up to `writepos`, on fuel: `len` rounds are enough, since a valid
-- buffer holds fewer messages.
module _ (p : Msg → Bool) (buf : List Msg) (len writepos : ℕ) where
  -- The loop that keeps the last message that fits in `last_msg`.
  pub find_last : ℕ → ℕ → Option ℕ → Option ℕ
  find_last zero i last_msg = last_msg
  find_last (suc fuel) i last_msg = elim (i == writepos) [
    | true ↦ last_msg
    | false ↦ find_last fuel (next len i) (if p (get_or buf i null_msg) then some i else last_msg)
  ]

  -- The loop that stops at the first message that fits.
  pub find_first : ℕ → ℕ → Option ℕ
  find_first zero i = none
  find_first (suc fuel) i = elim (i == writepos) [
    | true ↦ none
    | false ↦ elim (p (get_or buf i null_msg)) [
      | true ↦ some i
      | false ↦ find_first fuel (next len i)
    ]
  ]

-- `msg_que->msg [msg_que->writepos] = *msg`, unless the buffer is full.
unfoldable pub write : Ring → Msg → Ring × Bool
write r m =
    if next r.len r.writepos == r.readpos
    then (r, false)
    else (record r { msg = set r.msg r.writepos m; writepos = next r.len r.writepos }, true)

pub update_at : Ring → ℕ → (Msg → Msg) → Ring
update_at r i f = record r { msg = set r.msg i (f (get_or r.msg i null_msg)) }

pub merge_or_write : Ring → Msg → (Msg → Msg) → Option ℕ → Ring × Bool
merge_or_write r m f none = write r m
merge_or_write r m f (some i) = (update_at r i f, true)

-- The part of `kernel_QueueMessage` between the lock and the label `ret`.
unfoldable pub queue : Ring → Msg → Ring × Bool
queue r m =
    if is_move m.message
    then merge_or_write r m (merge_move m)
        (find_last (same_move m) r.msg r.len r.writepos r.len r.readpos none)
    else if is_repeated m.message
    then merge_or_write r m (merge_repeated m)
        (find_first (same_window m) r.msg r.len r.writepos r.len r.readpos)
    else write r m

-- `readpos++; readpos %= len`
unfoldable pub advance : Ring → Ring
unfolding next
advance r = record r { readpos = next r.len r.readpos }

-- `msg[readpos]`
unfoldable pub front : Ring → Msg
front r = get_or r.msg r.readpos null_msg
