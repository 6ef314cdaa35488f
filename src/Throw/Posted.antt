-- ===== src/Throw/Posted.antt =====
-- What `__mg_throw_away_messages` leaves of the posted messages.
use aple.Base.{
  ℕ, zero, suc, ◌+◌, ◌-◌, ◌≤◌, ◌<◌, ◌≡◌, refl, ap, ap₂, sym, ◌∙◌, Bool, true, false, not, List, ◌∷◌,
  ◌==◌, if◌then◌else◌, arith, length, get_or, set, get_or-set_self, get_or-set_ne, length-set,
  keep_if, keep_if-take, keep_if-skip, Bool-cases, inl, inr, ==_refl, ==_false,
}
use aple.Msg.{Msg, null_msg, hwnd_invalid}
use aple.Ring.{next}
use aple.Ring.Window.{
  used, window, next_lem, next-lt, used-lt, used_self, used-next, eq_of_used, window-set_far,
}
use aple.Throw.{shift, previous, throw_posted}

-- What the loop that moves messages leaves, from the free position `i` with `n` messages behind it.
record Shifted (len i n : ℕ) (buf buf' : List Msg) : Type 0 where
  moved : window buf' len i n ≡ window buf len (next len i) n
  size : length buf' ≡ length buf
  outside :
      (j : ℕ) → j < len → suc n ≤ used len i j → get_or buf' j null_msg ≡ get_or buf j null_msg

module _ (len w : ℕ) (w_in : w < len) where
  -- One round: the message behind the free position `i` moves there, and its own place is free.
  shift_round :
      (n i : ℕ) (buf buf' : List Msg)
      → i < len
      → len ≤ length buf
      → suc (suc n) < len
      → Shifted len (next len i) n (set buf i (get_or buf (next len i) null_msg)) buf'
      → Shifted len i (suc n) buf buf'
  shift_round n i buf buf' h room fits s = record {
    moved =
        ap₂ (λ (m : Msg) (l : List Msg). m ∷ l)
          (s.outside i h (ground (arith, next_lem len i h))
            ∙ get_or-set_self buf i x null_msg (omega arith))
          (s.moved
            ∙ window-set_far buf len (next len (next len i)) n i x
                (next-lt len (next len i) (next-lt len i h)) (omega arith)
                (ground (arith, next_lem len i h, next_lem len (next len i) (next-lt len i h))));
    size = s.size ∙ length-set buf i x;
    outside = λ j a b.
        s.outside j a (ground (arith, next_lem len i h))
        ∙ get_or-set_ne buf {i = i} {j = j} x null_msg (λ e. ground arith);
  }
    where
      x : Msg
      x = get_or buf (next len i) null_msg

  shift-Shifted :
      (n fuel i : ℕ) (buf : List Msg)
      → i < len
      → len ≤ length buf
      → used len i w ≡ suc n
      → n < fuel
      → Shifted len i n buf (shift len w fuel i buf)
  unfolding shift
  shift-Shifted n zero i buf h room e f = absurd (omega arith)
  shift-Shifted zero (suc fuel) i buf h room e f =
      rw (at_end, shift) (record { moved = refl; size = refl; outside = λ j a b. refl })
    where
      at_end : (next len i == w) ≡ true
      at_end = ground (arith, next_lem len i h)
  shift-Shifted (suc n) (suc fuel) i buf h room e f =
      rw (not_end, shift)
        (shift_round n i buf _ h room (omega (arith, used-lt len i w h w_in)) (
          shift-Shifted n fuel (next len i) (set buf i (get_or buf (next len i) null_msg))
            (next-lt len i h) (omega (arith, length-set buf i (get_or buf (next len i) null_msg)))
            (used-next len i w (suc n) h w_in e) (omega arith)))
    where
      not_end : (next len i == w) ≡ false
      not_end = ground (arith, next_lem len i h)

previous_lem : (len w : ℕ) → w < len → previous len w ≡ (if w == 0 then len - 1 else w - 1)
unfolding previous
previous_lem len zero h = refl
previous_lem len (suc w) h = ground arith

previous-lt : (len w : ℕ) → w < len → previous len w < len
previous-lt len w h = ground (arith, previous_lem len w h)

used-previous :
    (len i w n : ℕ) → i < len → w < len → used len i w ≡ suc n → used len i (previous len w) ≡ n
used-previous len i w n h k e = ground (arith, previous_lem len w k)

-- What the loop over the posted messages leaves, from `readpos` `i` with `n` messages to look at.
pub record Cleaned (hit : Msg → Bool) (len i n : ℕ) (buf : List Msg) (thrown : ℕ)
    (out : List Msg × ℕ × ℕ) : Type 0 where
  pub write_in : out.1 < len
  pub fewer : used len i out.1 ≤ n
  pub kept : window out.0 len i (used len i out.1) ≡ keep_if (λ m. not (hit m)) (window buf len i n)
  pub size : length out.0 ≡ length buf
  pub outside :
      (j : ℕ) → j < len → n ≤ used len i j → get_or out.0 j null_msg ≡ get_or buf j null_msg
  pub count : out.2 ≡ thrown + length (keep_if hit (window buf len i n))

module _ (hit : Msg → Bool) (len : ℕ) where
  clean_stop :
      (i w : ℕ) (buf : List Msg) (t : ℕ) → w < len → i ≡ w → Cleaned hit len i 0 buf t (buf, w, t)
  clean_stop i w buf t k e = record {
    write_in = k;
    fewer = ground arith;
    kept = ap (window buf len i) (ap (used len i) (sym e) ∙ used_self len i);
    size = refl;
    outside = λ j a b. refl;
    count = omega arith;
  }

  clean_keep :
      (i n : ℕ) (buf : List Msg) (t : ℕ) (out : List Msg × ℕ × ℕ)
      → i < len
      → suc n < len
      → hit (get_or buf i null_msg) ≡ false
      → Cleaned hit len (next len i) n buf t out
      → Cleaned hit len i (suc n) buf t out
  clean_keep i n buf t out h fits miss c = record {
    write_in = c.write_in;
    fewer = omega (arith, grow);
    kept =
        ap (window out.0 len i) grow
        ∙ ap₂ (λ (m : Msg) (l : List Msg). m ∷ l) (c.outside i h (ground (arith, next_lem len i h)))
            c.kept
        ∙ sym (
            keep_if-take (λ m. not (hit m)) (get_or buf i null_msg) (window buf len (next len i) n)
              (ap not miss));
    size = c.size;
    outside = λ j a b. c.outside j a (ground (arith, next_lem len i h));
    count =
        c.count
        ∙ ap (λ l. t + length l)
            (sym (keep_if-skip hit (get_or buf i null_msg) (window buf len (next len i) n) miss));
  }
    where
      grow : used len i out.1 ≡ suc (used len (next len i) out.1)
      grow = ground (arith, next_lem len i h, c.fewer, c.write_in)

  clean_throw :
      (i n : ℕ) (buf buf' : List Msg) (t : ℕ) (out : List Msg × ℕ × ℕ)
      → i < len
      → suc n < len
      → hit (get_or buf i null_msg) ≡ true
      → Shifted len i n buf buf'
      → Cleaned hit len i n buf' (suc t) out
      → Cleaned hit len i (suc n) buf t out
  clean_throw i n buf buf' t out h fits hits s c = record {
    write_in = c.write_in;
    fewer = omega (arith, c.fewer);
    kept =
        c.kept
        ∙ ap (keep_if (λ m. not (hit m))) s.moved
        ∙ sym (
            keep_if-skip (λ m. not (hit m)) (get_or buf i null_msg) (window buf len (next len i) n)
              (ap not hits));
    size = c.size ∙ s.size;
    outside = λ j a b. c.outside j a (omega (arith, b)) ∙ s.outside j a b;
    count = omega (
      arith,
      c.count,
      ap (λ l. length (keep_if hit l)) s.moved,
      ap length (keep_if-take hit (get_or buf i null_msg) (window buf len (next len i) n) hits),
    );
  }

  -- The message that is thrown away is marked before its place is filled.
  Shifted-marked :
      (i n : ℕ) (buf buf' : List Msg) (m : Msg)
      → i < len
      → suc n < len
      → Shifted len i n (set buf i m) buf'
      → Shifted len i n buf buf'
  Shifted-marked i n buf buf' m h fits s = record {
    moved =
        s.moved
        ∙ window-set_far buf len (next len i) n i m (next-lt len i h) (omega arith)
            (ground (arith, next_lem len i h));
    size = s.size ∙ length-set buf i m;
    outside =
        λ j a b. s.outside j a b ∙ get_or-set_ne buf {i = i} {j = j} m null_msg (λ e. ground arith);
  }

  pub throw_posted-Cleaned :
      (n fuel i w : ℕ) (buf : List Msg) (t : ℕ)
      → i < len
      → w < len
      → len ≤ length buf
      → used len i w ≡ n
      → n < fuel
      → Cleaned hit len i n buf t (throw_posted hit len fuel i buf w t)
  unfolding throw_posted
  throw_posted-Cleaned n zero i w buf t h k room e f = absurd (omega arith)
  throw_posted-Cleaned zero (suc fuel) i w buf t h k room e f =
      rw (eq_of_used len i w h e, ==_refl w, throw_posted) (clean_stop w w buf t k refl)
  throw_posted-Cleaned (suc n) (suc fuel) i w buf t h k room e f =
      rw (==_false i w (λ g. ground arith), throw_posted)
        (elim (Bool-cases (hit (get_or buf i null_msg))) [
          | inl hits ↦ rw hits (
              clean_throw i n buf filled t _ h fits hits s (
                throw_posted-Cleaned n fuel i (previous len w) filled (suc t) h
                  (previous-lt len w k) (omega (arith, s.size)) (used-previous len i w n h k e)
                  (omega arith)))
          | inr miss ↦ rw miss (
              clean_keep i n buf t _ h fits miss (
                throw_posted-Cleaned n fuel (next len i) w buf t (next-lt len i h) k room
                  (used-next len i w n h k e) (omega arith)))
        ])
    where
      fits : suc n < len
      fits = omega (arith, used-lt len i w h k)

      marked : List Msg
      marked = set buf i (record (get_or buf i null_msg) { hwnd = hwnd_invalid })

      filled : List Msg
      filled = shift len w len i marked

      s : Shifted len i n buf filled
      s =
          Shifted-marked i n buf filled (record (get_or buf i null_msg) { hwnd = hwnd_invalid }) h
            fits
            (shift-Shifted len w k n len i marked h
              (omega
                (arith, length-set buf i (record (get_or buf i null_msg) { hwnd = hwnd_invalid })))
              e (omega (arith, fits)))
