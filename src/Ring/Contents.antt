-- ===== src/Ring/Contents.antt =====
-- The buffer of posted messages as a bounded list, oldest first: `kernel_QueueMessage` merges a
-- message into one that waits, or appends it.
use aple.Base.{
  ℕ, suc, ◌≤◌, ◌<◌, ◌≡◌, refl, ap, ap₂, sym, ◌∙◌, ◌≢◌, inl, inr, Bool, true, false, Option, none,
  some, List, [], ◌∷◌, ◌++◌, arith, length, get_or, set, ◌==◌, if◌then◌else◌, get_or-set_self,
  length-set, Bool-cases, ==_refl, ==_false, ==_iff,
}
use aple.Msg.{Msg, null_msg, Ring}
use aple.Ring.{
  next, is_move, is_repeated, same_move, same_window, merge_move, merge_repeated, find_first,
  find_last, write, update_at, merge_or_write, queue, advance, front,
}
use aple.Ring.Window.{
  used, window, next-lt, used-lt, used_self, used-next_right, full_iff_used, length-window,
  window-set_far, window_snoc, used_step,
}
use aple.Ring.Scan.{replace_first, replace_last, replaced, find_first_lem, find_last_lem}

-- The positions lie in the buffer, and the buffer has room for `len` messages.
pub record IsValid (r : Ring) : Type 0 where
  pub room : r.len ≤ length r.msg
  pub read_in : r.readpos < r.len
  pub write_in : r.writepos < r.len

-- The number of messages that wait, and the messages, oldest first.
abbrev pub count : Ring → ℕ
count r = used r.len r.readpos r.writepos

unfoldable pub contents : Ring → List Msg
contents r = window r.msg r.len r.readpos (count r)

-- A list that holds at most `cap - 1` messages.
pub put : ℕ → Msg → List Msg → List Msg × Bool
put cap m xs = if suc (length xs) == cap then (xs, false) else (xs ++ (m ∷ []), true)

pub merge_or_put : ℕ → Msg → List Msg → Option (List Msg) → List Msg × Bool
merge_or_put cap m xs none = put cap m xs
merge_or_put cap m xs (some ys) = (ys, true)

-- What a post does to the list: a mouse move replaces the newest move with the same keys for the same
-- window, a timeout, idle or caret message the oldest one of its kind for the same window.
pub enqueue : ℕ → Msg → List Msg → List Msg × Bool
enqueue cap m xs =
    if is_move m.message
    then merge_or_put cap m xs (replace_last (same_move m) (merge_move m) xs)
    else if is_repeated m.message
    then merge_or_put cap m xs (replace_first (same_window m) (merge_repeated m) xs)
    else put cap m xs

write-IsValid : (r : Ring) (m : Msg) → IsValid r → IsValid (write r m).0
unfolding write
write-IsValid r m v =
    ground (arith, length-set r.msg r.writepos m, next-lt r.len r.writepos v.write_in)

update_at-IsValid : (r : Ring) (i : ℕ) (f : Msg → Msg) → IsValid r → IsValid (update_at r i f)
unfolding update_at
update_at-IsValid r i f v = ground (arith, length-set r.msg i (f (get_or r.msg i null_msg)))

merge_or_write-IsValid :
    (r : Ring) (m : Msg) (f : Msg → Msg) (o : Option ℕ)
    → IsValid r
    → IsValid (merge_or_write r m f o).0
unfolding merge_or_write
merge_or_write-IsValid r m f none v = write-IsValid r m v
merge_or_write-IsValid r m f (some i) v = update_at-IsValid r i f v

-- Posting keeps the positions in the buffer.
pub queue-IsValid : (r : Ring) (m : Msg) → IsValid r → IsValid (queue r m).0
unfolding queue
queue-IsValid r m v = elim (Bool-cases (is_move m.message)) [
  | inl t ↦ rw t (merge_or_write-IsValid r m _ _ v)
  | inr t ↦ rw t (elim (Bool-cases (is_repeated m.message)) [
    | inl u ↦ rw u (merge_or_write-IsValid r m _ _ v)
    | inr u ↦ rw u (write-IsValid r m v)
  ])
]

put_full : (cap : ℕ) (m : Msg) (xs : List Msg) → suc (length xs) ≡ cap → put cap m xs ≡ (xs, false)
unfolding put
put_full cap m xs e = rw (e, ==_refl cap)

put_room :
    (cap : ℕ) (m : Msg) (xs : List Msg)
    → suc (length xs) ≢ cap
    → put cap m xs ≡ (xs ++ (m ∷ []), true)
unfolding put
put_room cap m xs ne = rw (==_false (suc (length xs)) cap ne)

-- Writing at `writepos` extends the window by the message.
window_write :
    (buf : List Msg) (len i w : ℕ) (m : Msg)
    → len ≤ length buf
    → i < len
    → w < len
    → next len w ≢ i
    → window (set buf w m) len i (used len i (next len w))
      ≡ window buf len i (used len i w) ++ (m ∷ [])
window_write buf len i w m size h k ne =
    ap (window (set buf w m) len i) (used-next_right len i w h k ne)
    ∙ window_snoc (set buf w m) len i (used len i w) w h k refl
    ∙ ap₂ (λ l (x : Msg). l ++ (x ∷ []))
        (window-set_far buf len i (used len i w) w m h (omega (arith, used-lt len i w h k))
          (omega arith))
        (get_or-set_self buf w m null_msg (omega arith))

write_refines :
    (r : Ring) (m : Msg)
    → IsValid r
    → (contents (write r m).0, (write r m).1) ≡ put r.len m (contents r)
unfolding contents write
write_refines r m v = elim (Bool-cases (next r.len r.writepos == r.readpos)) [
  | inl t ↦ rw t (
      sym (
        put_full r.len m (contents r) (
          ap suc (length-window r.msg r.len r.readpos (count r))
          ∙ full_iff_used r.len r.readpos r.writepos v.read_in v.write_in ((==_iff _ _).0 t))))
  | inr t ↦ rw t (
      ap (λ l. (l, true))
        (window_write r.msg r.len r.readpos r.writepos m v.room v.read_in v.write_in (ne_of_test t))
      ∙ sym (put_room r.len m (contents r) (room (ne_of_test t))))
]
  where
    ne_of_test : next r.len r.writepos == r.readpos ≡ false → next r.len r.writepos ≢ r.readpos
    ne_of_test t e = ground arith

    room : next r.len r.writepos ≢ r.readpos → suc (length (contents r)) ≢ r.len
    room ne e = omega (
      arith,
      length-window r.msg r.len r.readpos (count r),
      used-next_right r.len r.readpos r.writepos v.read_in v.write_in ne,
      used-lt r.len r.readpos (next r.len r.writepos) v.read_in
          (next-lt r.len r.writepos v.write_in),
    )

merge_refines :
    (r : Ring) (m : Msg) (f : Msg → Msg) (o : Option ℕ)
    → IsValid r
    → (contents (merge_or_write r m f o).0, (merge_or_write r m f o).1)
      ≡ merge_or_put r.len m (contents r) (replaced f r.msg r.len r.readpos (count r) o)
unfolding contents merge_or_write merge_or_put update_at
merge_refines r m f none v = write_refines r m v
merge_refines r m f (some k) v = refl

-- A buffer that refuses a message is left as it was.
write_refused : (r : Ring) (m : Msg) → (write r m).1 ≡ false → (write r m).0 ≡ r
unfolding write
write_refused r m h = ground arith

merge_refused :
    (r : Ring) (m : Msg) (f : Msg → Msg) (o : Option ℕ)
    → (merge_or_write r m f o).1 ≡ false
    → (merge_or_write r m f o).0 ≡ r
unfolding merge_or_write
merge_refused r m f none h = write_refused r m h
merge_refused r m f (some i) h = cc

pub queue_refused : (r : Ring) (m : Msg) → (queue r m).1 ≡ false → (queue r m).0 ≡ r
unfolding queue
queue_refused r m h = ground (
  arith,
  write_refused r m,
  merge_refused r m (merge_move m)
      (find_last (same_move m) r.msg r.len r.writepos r.len r.readpos none),
  merge_refused r m (merge_repeated m)
      (find_first (same_window m) r.msg r.len r.writepos r.len r.readpos),
)

-- On a valid buffer, what `kernel_QueueMessage` does between the lock and the label `ret` is exactly
-- what `enqueue` does to the list of the messages that wait, oldest first, at a capacity of
-- `len - 1`, and it returns whether the message was taken.
pub queue_refines :
    (r : Ring) (m : Msg)
    → IsValid r
    → (contents (queue r m).0, (queue r m).1) ≡ enqueue r.len m (contents r)
unfolding queue enqueue contents
queue_refines r m v = elim (Bool-cases (is_move m.message)) [
  | inl t ↦ rw t (
      merge_refines r m (merge_move m)
        (find_last (same_move m) r.msg r.len r.writepos r.len r.readpos none) v
      ∙ ap (merge_or_put r.len m (contents r)) (
          find_last_lem (same_move m) (merge_move m) r.msg r.len r.writepos v.write_in r.len
            (count r) r.readpos v.room v.read_in refl enough))
  | inr t ↦ rw t (elim (Bool-cases (is_repeated m.message)) [
    | inl u ↦ rw u (
        merge_refines r m (merge_repeated m)
          (find_first (same_window m) r.msg r.len r.writepos r.len r.readpos) v
        ∙ ap (merge_or_put r.len m (contents r)) (
            find_first_lem (same_window m) (merge_repeated m) r.msg r.len r.writepos v.write_in
              r.len (count r) r.readpos v.room v.read_in refl enough))
    | inr u ↦ rw u (write_refines r m v)
  ])
]
  where
    enough : count r ≤ r.len
    enough = omega (arith, used-lt r.len r.readpos r.writepos v.read_in v.write_in)

pub contents_empty : (r : Ring) → r.readpos ≡ r.writepos → contents r ≡ []
unfolding contents
contents_empty r e =
    ap (window r.msg r.len r.readpos)
      (ap (used r.len r.readpos) (sym e) ∙ used_self r.len r.readpos)

pub contents-front :
    (r : Ring) → IsValid r → r.readpos ≢ r.writepos → contents r ≡ front r ∷ contents (advance r)
unfolding contents front advance
contents-front r v ne =
    ap (window r.msg r.len r.readpos) (used_step r.len r.readpos r.writepos v.read_in v.write_in ne)

pub advance-IsValid : (r : Ring) → IsValid r → IsValid (advance r)
unfolding advance
advance-IsValid r v = ground (arith, next-lt r.len r.readpos v.read_in)
