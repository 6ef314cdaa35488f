-- ===== src/Ring/Window.antt =====
-- The positions of a circular buffer between two indices, and the messages at them.
use native.Mathlib.Nat.{mod-eq_of_lt, mod_self}
use native.Mathlib.Decide.{ℕ_discrete}
use aple.Base.{
  ℕ, zero, suc, ◌+◌, ◌-◌, ◌%◌, ◌≤◌, ◌<◌, ◌≡◌, refl, ap, ◌≢◌, List, [], ◌∷◌, ◌++◌, arith, length,
  get_or, set, leb, ◌==◌, if◌then◌else◌, get_or-set_ne,
}
use aple.Msg.{Msg, null_msg}
use aple.Ring.{next}

-- The number of steps round a buffer of `len` items from index `i` to index `w`.
abbrev pub used : ℕ → ℕ → ℕ → ℕ
used len i w = if leb i w then w - i else w + len - i

-- The `n` messages from index `i` on, going round at `len`.
abbrev pub window : List Msg → ℕ → ℕ → ℕ → List Msg
window buf len i zero = []
window buf len i (suc n) = get_or buf i null_msg ∷ window buf len (next len i) n

pub next_lem : (len i : ℕ) → i < len → next len i ≡ (if i + 1 == len then 0 else i + 1)
unfolding next
next_lem len i h = elim (ℕ_discrete (i + 1) len) [
  | yes e ↦ ground (arith, mod_self len, ap (λ k. k % len) e)
  | no ne ↦ ground (arith, mod-eq_of_lt {n = i + 1} {m = len} (omega arith))
]

pub next-lt : (len i : ℕ) → i < len → next len i < len
next-lt len i h = ground (arith, next_lem len i h)

pub used-lt : (len i w : ℕ) → i < len → w < len → used len i w < len
used-lt len i w h k = ground arith

pub used_self : (len i : ℕ) → used len i i ≡ 0
used_self len i = ground arith

pub eq_of_used : (len i w : ℕ) → i < len → used len i w ≡ 0 → i ≡ w
eq_of_used len i w h e = ground arith

pub used-next :
    (len i w n : ℕ) → i < len → w < len → used len i w ≡ suc n → used len (next len i) w ≡ n
used-next len i w n h k e = ground (arith, next_lem len i h)

pub used_step :
    (len i w : ℕ) → i < len → w < len → i ≢ w → used len i w ≡ suc (used len (next len i) w)
used_step len i w h k ne = ground (arith, next_lem len i h)

-- The other end: one step on from `w`, unless that meets `i`.
pub used-next_right :
    (len i w : ℕ)
    → i < len
    → w < len
    → next len w ≢ i
    → used len i (next len w) ≡ suc (used len i w)
used-next_right len i w h k ne = ground (arith, next_lem len w k)

pub full_iff_used : (len i w : ℕ) → i < len → w < len → next len w ≡ i → suc (used len i w) ≡ len
full_iff_used len i w h k e = ground (arith, next_lem len w k)

pub length-window : (buf : List Msg) (len i n : ℕ) → length (window buf len i n) ≡ n
length-window buf len i zero = refl
length-window buf len i (suc n) = ap suc (length-window buf len (next len i) n)

-- A position that lies `n` steps or more from `i` is outside of the window.
pub window_frame :
    (buf buf' : List Msg) (len i n : ℕ)
    → i < len
    → n ≤ len
    → ((j : ℕ) → j < len → used len i j < n → get_or buf' j null_msg ≡ get_or buf j null_msg)
    → window buf' len i n ≡ window buf len i n
window_frame buf buf' len i zero h k same = refl
window_frame buf buf' len i (suc n) h k same = rw (
  same i h (omega (arith, used_self len i)),
  window_frame buf buf' len (next len i) n (next-lt len i h) (omega arith)
      (λ j hj near. same j hj (ground (arith, next_lem len i h))),
)

pub window-set_far :
    (buf : List Msg) (len i n j : ℕ) (v : Msg)
    → i < len
    → n ≤ len
    → n ≤ used len i j
    → window (set buf j v) len i n ≡ window buf len i n
window-set_far buf len i n j v h k far =
    window_frame buf (set buf j v) len i n h k
      (λ t ht near. get_or-set_ne buf {i = j} {j = t} v null_msg (λ e. absurd (apart e far near)))
  where
    apart : {t : ℕ} → j ≡ t → n ≤ used len i j → used len i t < n → ⊥
    apart e f g = ground arith

pub window_snoc :
    (buf : List Msg) (len i n j : ℕ)
    → i < len
    → j < len
    → used len i j ≡ n
    → window buf len i (suc n) ≡ window buf len i n ++ (get_or buf j null_msg ∷ [])
window_snoc buf len i zero j h k e = rw (eq_of_used len i j h e)
window_snoc buf len i (suc n) j h k e =
    ap (λ l. get_or buf i null_msg ∷ l)
      (window_snoc buf len (next len i) n j (next-lt len i h) k (used-next len i j n h k e))
