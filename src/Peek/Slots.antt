-- ===== src/Peek/Slots.antt =====
-- The search for the first expired timer slot.
use aple.Base.{
  ℕ, zero, suc, ◌<◌, ◌≡◌, refl, Bool, true, false, Option, none, some, List, [], ◌∷◌, ◌==◌, arith,
  length, get_or, Bool-cases, inl, inr, ==_refl, ==_false,
}
use aple.Ring.{next}
use aple.Ring.Window.{used, next_lem, next-lt, used-next, eq_of_used}
use aple.Peek.{any, find_slot}

module _ (expired : List Bool) (count first : ℕ) (first_in : first < count) where
  -- What the search promises from a slot on, with `n` slots left to look at.
  abbrev Promise : ℕ → ℕ → Option ℕ → Type 0
  Promise slot n none = (j : ℕ) → j < count → used count slot j < n → get_or expired j false ≡ false
  Promise slot n (some k) = (k < count) × (get_or expired k false ≡ true)

  Promise-step :
      (slot n : ℕ) (o : Option ℕ)
      → slot < count
      → get_or expired slot false ≡ false
      → Promise (next count slot) n o
      → Promise slot (suc n) o
  Promise-step slot n (some k) h miss p = p
  Promise-step slot n none h miss p = λ j hj near. elim (Bool-cases (j == slot)) [
    | inl t ↦ ground (arith, miss)
    | inr t ↦ p j hj (ground (arith, next_lem count slot h))
  ]

  find_slot-Promise :
      (n slot : ℕ)
      → slot < count
      → used count (next count slot) first ≡ n
      → Promise slot (suc n) (find_slot expired count first (suc n) slot)
  unfolding find_slot
  find_slot-Promise zero slot h e = elim (Bool-cases (get_or expired slot false)) [
    | inl t ↦ rw (t, find_slot) (h, t)
    | inr t ↦
        rw
          (
            t,
            eq_of_used count (next count slot) first (next-lt count slot h) e,
            ==_refl first,
            find_slot,
          )
          (Promise-step slot 0 none h t (λ j hj near. absurd (omega (arith, near))))
  ]
  find_slot-Promise (suc n) slot h e = elim (Bool-cases (get_or expired slot false)) [
    | inl t ↦ rw (t, find_slot) (h, t)
    | inr t ↦
        rw (t, ==_false (next count slot) first (λ f. ground arith), find_slot)
          (Promise-step slot (suc n) (find_slot expired count first (suc n) (next count slot)) h t (
            find_slot-Promise n (next count slot) (next-lt count slot h)
              (used-next count (next count slot) first n (next-lt count slot h) first_in e)))
  ]

-- A list with no flag at any place.
none-any : (bs : List Bool) → ((j : ℕ) → j < length bs → get_or bs j false ≡ false) → any bs ≡ false
none-any [] h = refl
none-any (b ∷ bs) h = rw (h 0 (omega arith)) (none-any bs (λ j hj. h (suc j) (omega arith)))

used-lt_all : (len i j : ℕ) → i < len → j < len → used len i j < len
used-lt_all len i j h k = ground arith

-- What an answer that keeps the promise from the first slot on, over the whole table, says.
abbrev Answer : List Bool → Option ℕ → Type 0
Answer expired o = (k : ℕ) × (o ≡ some k) × (k < length expired) × (get_or expired k false ≡ true)

answer :
    (expired : List Bool) (first n : ℕ) (h : first < suc n)
    → suc n ≡ length expired
    → any expired ≡ true
    → (o : Option ℕ) → Promise expired (suc n) first h first (suc n) o
    → Answer expired o
answer expired first n h e due none p = absurd (
    cc (
      due,
      none-any expired
          (λ j hj. p j (omega (arith, e)) (used-lt_all (suc n) first j h (omega (arith, e)))),
    ))
answer expired first n h e due (some k) (hk, hit) = (k, refl, omega (arith, e), hit)

-- The search over as many slots as there are, from any slot of the table, finds a slot whose timer has
-- expired as soon as there is one.
pub find_slot_lem :
    (expired : List Bool) (first : ℕ)
    → first < length expired
    → any expired ≡ true
    → (k : ℕ) × (find_slot expired (length expired) first (length expired) first ≡ some k)
      × (k < length expired)
      × (get_or expired k false ≡ true)
find_slot_lem expired first h due = go (length expired) h refl
  where
    go :
        (count : ℕ)
        → first < count
        → count ≡ length expired
        → Answer expired (find_slot expired count first count first)
    go zero h' e = absurd (omega (arith, h'))
    go (suc n) h' e =
        answer expired first n h' e due (find_slot expired (suc n) first (suc n) first) (
          find_slot-Promise expired (suc n) first h' n first h'
            (ground (arith, next_lem (suc n) first h')))
