-- ===== src/Ring/Scan.antt =====
-- The two scans of `kernel_QueueMessage`, against searches in the list of the messages in the buffer.
use aple.Base.{
  ℕ, zero, suc, ◌≤◌, ◌<◌, ◌≡◌, refl, ◌≢◌, inl, inr, Bool, true, false, Option, none, some, List, [],
  ◌∷◌, arith, length, get_or, set, get_or-set_self, get_or-set_ne, Bool-cases, ==_refl,
}
use aple.Msg.{Msg, null_msg}
use aple.Ring.{next, find_first, find_last}
use aple.Ring.Window.{
  used, window, next-lt, used-lt, used_self, eq_of_used, used-next, window-set_far, next_lem,
}

-- The list with `f` applied to the first item that fits, if one does.
pub replace_first : (Msg → Bool) → (Msg → Msg) → List Msg → Option (List Msg)
replace_first p f [] = none
replace_first p f (x ∷ xs) = elim (p x) [
  | true ↦ some (f x ∷ xs)
  | false ↦ elim (replace_first p f xs) [ none ↦ none | some ys ↦ some (x ∷ ys) ]
]

-- The same for the last item that fits.
pub replace_last : (Msg → Bool) → (Msg → Msg) → List Msg → Option (List Msg)
replace_last p f [] = none
replace_last p f (x ∷ xs) = elim (replace_last p f xs) [
  | none ↦ elim (p x) [ true ↦ some (f x ∷ xs) | false ↦ none ]
  | some ys ↦ some (x ∷ ys)
]

-- The window after the message at the index found is replaced.
abbrev pub replaced : (Msg → Msg) → List Msg → ℕ → ℕ → ℕ → Option ℕ → Option (List Msg)
replaced f buf len i n none = none
replaced f buf len i n (some k) = some (window (set buf k (f (get_or buf k null_msg))) len i n)

abbrev pub Within : ℕ → ℕ → ℕ → Option ℕ → Type 0
Within len i n none = Unit
Within len i n (some k) = (k < len) × (used len i k < n)

Within-next :
    (len i n : ℕ) (o : Option ℕ) → i < len → Within len (next len i) n o → Within len i (suc n) o
Within-next len i n none h v = tt
Within-next len i n (some k) h v = ground (arith, next_lem len i h)

-- A replacement behind the first position leaves that one alone.
replaced-next :
    (f : Msg → Msg) (buf : List Msg) (len i n : ℕ) (o : Option ℕ)
    → i < len
    → n < len
    → Within len (next len i) n o
    → replaced f buf len i (suc n) o ≡ elim (replaced f buf len (next len i) n o) [
      | none ↦ none
      | some ys ↦ some (get_or buf i null_msg ∷ ys)
    ]
replaced-next f buf len i n none h k v = refl
replaced-next f buf len i n (some j) h k v = rw (
    get_or-set_ne buf {i = j} {j = i} (f (get_or buf j null_msg)) null_msg
      (λ e. ground (arith, next_lem len i h)))

replaced-here :
    (f : Msg → Msg) (buf : List Msg) (len i n : ℕ)
    → i < len
    → len ≤ length buf
    → n < len
    → replaced f buf len i (suc n) (some i)
      ≡ some (f (get_or buf i null_msg) ∷ window buf len (next len i) n)
replaced-here f buf len i n h size k = rw (
  get_or-set_self buf i (f (get_or buf i null_msg)) null_msg (omega arith),
  window-set_far buf len (next len i) n i (f (get_or buf i null_msg)) (next-lt len i h)
      (omega arith) (ground (arith, next_lem len i h)),
)

module _ (p : Msg → Bool) (buf : List Msg) (len w : ℕ) where
  find_first_stop : (fuel i : ℕ) → i ≡ w → find_first p buf len w fuel i ≡ none
  unfolding find_first
  find_first_stop zero i e = refl
  find_first_stop (suc fuel) i e = ground (arith, ==_refl w)

  find_first_step :
      (fuel i : ℕ)
      → i ≢ w
      → find_first p buf len w (suc fuel) i ≡ elim (p (get_or buf i null_msg)) [
        | true ↦ some i
        | false ↦ find_first p buf len w fuel (next len i)
      ]
  unfolding find_first
  find_first_step fuel i ne = ground arith

  find_last_stop : (fuel i : ℕ) (last : Option ℕ) → i ≡ w → find_last p buf len w fuel i last ≡ last
  unfolding find_last
  find_last_stop zero i last e = refl
  find_last_stop (suc fuel) i last e = ground (arith, ==_refl w)

  find_last_acc :
      (fuel i : ℕ) (last : Option ℕ)
      → find_last p buf len w fuel i last
        ≡ elim (find_last p buf len w fuel i none) [ none ↦ last | some k ↦ some k ]
  unfolding find_last
  find_last_acc zero i last = refl
  find_last_acc (suc fuel) i last =
      ground (arith, find_last_acc fuel (next len i) last, find_last_acc fuel (next len i) (some i))

  find_last_step :
      (fuel i : ℕ)
      → i ≢ w
      → find_last p buf len w (suc fuel) i none
        ≡ elim (find_last p buf len w fuel (next len i) none) [
          | none ↦ elim (p (get_or buf i null_msg)) [ true ↦ some i | false ↦ none ]
          | some k ↦ some k
        ]
  unfolding find_last
  find_last_step fuel i ne = ground (arith, find_last_acc fuel (next len i) (some i))

ne_of_used : (len i w n : ℕ) → used len i w ≡ suc n → i ≢ w
ne_of_used len i w n e h = ground arith

module _ (p : Msg → Bool) (f : Msg → Msg) (buf : List Msg) (len w : ℕ) (w_in : w < len) where
  in_range : (n i : ℕ) → i < len → used len i w ≡ suc n → n < len
  in_range n i h e = omega (arith, used-lt len i w h w_in)

  pub find_first-Within :
      (fuel n i : ℕ) → i < len → used len i w ≡ n → Within len i n (find_first p buf len w fuel i)
  find_first-Within fuel zero i h e =
      rw (find_first_stop p buf len w fuel i (eq_of_used len i w h e)) tt
  find_first-Within zero (suc n) i h e = unfold find_first in tt
  find_first-Within (suc fuel) (suc n) i h e =
      rw (find_first_step p buf len w fuel i (ne_of_used len i w n e))
        (elim (Bool-cases (p (get_or buf i null_msg))) [
          | inl t ↦ rw t (h, omega (arith, used_self len i))
          | inr t ↦ rw t (
              Within-next len i n (find_first p buf len w fuel (next len i)) h (
                find_first-Within fuel n (next len i) (next-lt len i h)
                  (used-next len i w n h w_in e)))
        ])

  pub find_first_lem :
      (fuel n i : ℕ)
      → len ≤ length buf
      → i < len
      → used len i w ≡ n
      → n ≤ fuel
      → replaced f buf len i n (find_first p buf len w fuel i)
        ≡ replace_first p f (window buf len i n)
  unfolding replace_first
  find_first_lem fuel zero i size h e enough =
      rw (find_first_stop p buf len w fuel i (eq_of_used len i w h e))
  find_first_lem zero (suc n) i size h e enough = absurd (omega arith)
  find_first_lem (suc fuel) (suc n) i size h e enough =
      rw (find_first_step p buf len w fuel i (ne_of_used len i w n e))
        (elim (Bool-cases (p (get_or buf i null_msg))) [
          | inl t ↦ rw t (replaced-here f buf len i n h size (in_range n i h e))
          | inr t ↦ rw (
            t,
            replaced-next f buf len i n (find_first p buf len w fuel (next len i)) h
                (in_range n i h e)
                (find_first-Within fuel n (next len i) (next-lt len i h)
                  (used-next len i w n h w_in e)),
            find_first_lem fuel n (next len i) size (next-lt len i h) (used-next len i w n h w_in e)
                (omega arith),
          )
        ])

  last_step-Within :
      (i n : ℕ) (o : Option ℕ)
      → i < len
      → Within len (next len i) n o
      → Within len i (suc n) (elim o [
        | none ↦ elim (p (get_or buf i null_msg)) [ true ↦ some i | false ↦ none ]
        | some k ↦ some k
      ])
  last_step-Within i n none h v = elim (Bool-cases (p (get_or buf i null_msg))) [
    | inl t ↦ rw t (h, omega (arith, used_self len i))
    | inr t ↦ rw t tt
  ]
  last_step-Within i n (some k) h v = Within-next len i n (some k) h v

  pub find_last-Within :
      (fuel n i : ℕ)
      → i < len
      → used len i w ≡ n
      → Within len i n (find_last p buf len w fuel i none)
  find_last-Within fuel zero i h e =
      rw (find_last_stop p buf len w fuel i none (eq_of_used len i w h e)) tt
  find_last-Within zero (suc n) i h e = unfold find_last in tt
  find_last-Within (suc fuel) (suc n) i h e =
      rw (find_last_step p buf len w fuel i (ne_of_used len i w n e)) (
        last_step-Within i n (find_last p buf len w fuel (next len i) none) h
          (find_last-Within fuel n (next len i) (next-lt len i h) (used-next len i w n h w_in e)))

  last_step-replaced :
      (i n : ℕ) (o : Option ℕ)
      → len ≤ length buf
      → i < len
      → n < len
      → Within len (next len i) n o
      → replaced f buf len (next len i) n o ≡ replace_last p f (window buf len (next len i) n)
      → replaced f buf len i (suc n) (elim o [
        | none ↦ elim (p (get_or buf i null_msg)) [ true ↦ some i | false ↦ none ]
        | some k ↦ some k
      ])
        ≡ replace_last p f (window buf len i (suc n))
  unfolding replace_last
  last_step-replaced i n none size h k v ih = elim (Bool-cases (p (get_or buf i null_msg))) [
    | inl t ↦ rw (← ih) (rw t (replaced-here f buf len i n h size k))
    | inr t ↦ rw (← ih) (rw t)
  ]
  last_step-replaced i n (some j) size h k v ih =
      rw (← ih) (replaced-next f buf len i n (some j) h k v)

  pub find_last_lem :
      (fuel n i : ℕ)
      → len ≤ length buf
      → i < len
      → used len i w ≡ n
      → n ≤ fuel
      → replaced f buf len i n (find_last p buf len w fuel i none)
        ≡ replace_last p f (window buf len i n)
  find_last_lem fuel zero i size h e enough =
      unfold replace_last in rw (find_last_stop p buf len w fuel i none (eq_of_used len i w h e))
  find_last_lem zero (suc n) i size h e enough = absurd (omega arith)
  find_last_lem (suc fuel) (suc n) i size h e enough =
      rw (find_last_step p buf len w fuel i (ne_of_used len i w n e)) (
        last_step-replaced i n (find_last p buf len w fuel (next len i) none) size h
          (in_range n i h e)
          (find_last-Within fuel n (next len i) (next-lt len i h) (used-next len i w n h w_in e))
          (find_last_lem fuel n (next len i) size (next-lt len i h) (used-next len i w n h w_in e)
            (omega arith)))
