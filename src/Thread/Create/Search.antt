-- ===== src/Thread/Create/Search.antt =====
-- The search of `pthread_create` for a free slot, and where it does not end.
use aple.Base.{
  ℕ, zero, suc, ◌-◌, ◌≤◌, ◌<◌, ◌≡◌, refl, ap, ◌∙◌, Bool, true, false, Option, none, some, is_some,
  List, [], ◌∷◌, ◌==◌, ◌&&◌, arith, get_or, length, ltb, Bool-cases, Option-cases, inl, inr,
  ==_false,
}
use aple.Base.Int.{pos}
use aple.Ring.Window.{used, eq_of_used, used_self}
use aple.Thread.{Consts, Attr, Info, Threads, threads_max}
use aple.Thread.Reap.Ends.{reap_threads-idle}
use aple.Thread.Create.{
  Found, slot, no_slot, slot_at, next_slot, find_free, Env, create, create_with, create_found,
  after_reap, stacksize_of, occupied,
}

next_slot-lt : (i : ℕ) → i < threads_max → next_slot i < threads_max
next_slot-lt i h = ground arith

used-next_slot :
    (i w n : ℕ)
    → i < threads_max
    → w < threads_max
    → used threads_max i w ≡ suc n
    → used threads_max (next_slot i) w ≡ n
used-next_slot i w n h k e = ground arith

module _ (table : List (Option ℕ)) (beyond : Option ℕ) (start : ℕ)
    (sized : length table ≡ threads_max) (start_in : start < threads_max) where
  -- What the search promises from a slot on, with `n` slots left to look at.
  abbrev Promise : ℕ → ℕ → Option Found → Type 0
  Promise i n none = ⊥
  Promise i n (some (slot k)) = (k < threads_max) × (get_or table k none ≡ none)
  Promise i n (some no_slot) =
      (j : ℕ) → j < threads_max → used threads_max i j < n → is_some (get_or table j none) ≡ true

  slot_at-in : (i : ℕ) → i < threads_max → slot_at table beyond i ≡ get_or table i none
  slot_at-in i h = ground (arith, sized)

  Promise-step :
      (i n : ℕ) (o : Option Found)
      → i < threads_max
      → is_some (get_or table i none) ≡ true
      → Promise (next_slot i) n o
      → Promise i (suc n) o
  Promise-step i n none h taken p = p
  Promise-step i n (some (slot k)) h taken p = p
  Promise-step i n (some no_slot) h taken p = λ j hj near. elim (Bool-cases (j == i)) [
    | inl t ↦ ground (arith, taken)
    | inr t ↦ p j hj (ground arith)
  ]

  met :
      (i : ℕ)
      → i < threads_max
      → used threads_max (next_slot i) start ≡ 0
      → (next_slot i == start) ≡ true
  met i h e = ground (arith, eq_of_used threads_max (next_slot i) start (next_slot-lt i h) e)

  find_free-Promise :
      (n i : ℕ)
      → i < threads_max
      → used threads_max (next_slot i) start ≡ n
      → Promise i (suc n) (find_free table beyond start (suc n) i)
  unfolding find_free
  find_free-Promise zero i h e = elim (Option-cases (get_or table i none)) [
    | inl t ↦ rw (slot_at-in i h ∙ t, find_free) (h, t)
    | inr (a, t) ↦
        rw (slot_at-in i h ∙ t, met i h e, find_free)
          (Promise-step i 0 (some no_slot) h (rw t refl)
            (λ j hj near. absurd (omega (arith, near))))
  ]
  find_free-Promise (suc n) i h e = elim (Option-cases (get_or table i none)) [
    | inl t ↦ rw (slot_at-in i h ∙ t, find_free) (h, t)
    | inr (a, t) ↦
        rw
          (
            slot_at-in i h ∙ t,
            ==_false (next_slot i) start (λ f. ground (arith, used_self threads_max start)),
            find_free,
          )
          (Promise-step i (suc n) (find_free table beyond start (suc n) (next_slot i)) h (rw t refl)
            (find_free-Promise n (next_slot i) (next_slot-lt i h)
              (used-next_slot (next_slot i) start n (next_slot-lt i h) start_in e)))
  ]

abbrev pub all_taken : List (Option ℕ) → Bool
all_taken [] = true
all_taken (s ∷ ss) = is_some s && all_taken ss

every-all_taken :
    (ss : List (Option ℕ))
    → ((j : ℕ) → j < length ss → is_some (get_or ss j none) ≡ true)
    → all_taken ss ≡ true
every-all_taken [] h = refl
every-all_taken (s ∷ ss) h =
    rw (h 0 (omega arith)) (every-all_taken ss (λ j hj. h (suc j) (omega arith)))

-- What a search finds: a slot of the table that is free, or that there is none.
abbrev pub Fits : List (Option ℕ) → Found → Type 0
Fits table (slot k) = (k < threads_max) × (get_or table k none ≡ none)
Fits table no_slot = all_taken table ≡ true

fits :
    (table : List (Option ℕ)) (beyond : Option ℕ) (start : ℕ) (sized : length table ≡ threads_max)
    (start_in : start < threads_max) (o : Option Found)
    → Promise table beyond start sized start_in start threads_max o
    → (f : Found) × (o ≡ some f) × Fits table f
fits table beyond start sized start_in none p = absurd p
fits table beyond start sized start_in (some (slot k)) p = (slot k, refl, p)
fits table beyond start sized start_in (some no_slot) p = (
  no_slot,
  refl,
  every-all_taken table (λ j hj. p j (omega (arith, sized)) (ground (arith, sized))),
)

-- From a first slot inside the table, as many rounds as there are slots are enough, whatever stands behind
-- the table: the search ends with a free slot, or with none where every slot is taken.
pub find_free_lem :
    (table : List (Option ℕ)) (beyond : Option ℕ) (start : ℕ)
    → length table ≡ threads_max
    → start < threads_max
    → (f : Found) × (find_free table beyond start threads_max start ≡ some f) × Fits table f
find_free_lem table beyond start sized start_in =
    fits table beyond start sized start_in (find_free table beyond start threads_max start)
      (find_free-Promise table beyond start sized start_in 63 start start_in (ground arith))

taken_at :
    (ss : List (Option ℕ)) (j : ℕ)
    → all_taken ss ≡ true
    → j < length ss
    → (a : ℕ) × (get_or ss j none ≡ some a)
taken_at [] j h hj = absurd (omega (arith, hj))
taken_at (none ∷ ss) j h hj = absurd (cc)
taken_at (some a ∷ ss) zero h hj = (a, refl)
taken_at (some a ∷ ss) (suc j) h hj = taken_at ss j h (omega (arith, hj))

-- With every slot taken and something behind the table, the search from the slot behind the last one does
-- not end, with whatever fuel.
find_free-never :
    (table : List (Option ℕ)) (b fuel i : ℕ)
    → length table ≡ threads_max
    → all_taken table ≡ true
    → i ≤ threads_max
    → find_free table (some b) threads_max fuel i ≡ none
unfolding find_free
find_free-never table b zero i sized full h = refl
find_free-never table b (suc fuel) i sized full h =
    let (a, e) = at in
    rw (e, ==_false (next_slot i) threads_max (λ f. ground arith), find_free)
      (find_free-never table b fuel (next_slot i) sized full (ground arith))
  where
    at : (a : ℕ) × (slot_at table (some b) i ≡ some a)
    at = elim (Bool-cases (ltb i (length table))) [
      | inl t ↦ let (a, e) = taken_at table i full (ground arith) in (a, rw t e)
      | inr t ↦ (b, rw t refl)
    ]

-- A thread created in the last slot leaves `thread_info_next` behind the table; then, once every slot is
-- taken and no thread has exited, and with something that is not NULL behind the table, a creation on a
-- stack of the caller's hangs, whatever the fuel.
pub create_after_last_hangs :
    (c : Consts) (e : Env) (u v : Threads) (address : ℕ) (info : Info) (a : Attr)
    (top routine arg b fuel : ℕ)
    → v.next ≡ (occupied u 63 address info).next
    → length v.table ≡ threads_max
    → all_taken v.table ≡ true
    → v.exited ≡ pos 0
    → e.beyond ≡ some b
    → a.stackaddr ≡ some top
    → create c fuel e v (some a) (some routine) arg ≡ none
unfolding create occupied
create_after_last_hangs c e u v address info a top routine arg b fuel last sized full idle behind_it
      on =
    ap (create_with c fuel e v a routine arg) on
    ∙ ap (after_reap c fuel e v a routine arg (top - stacksize_of a) false)
        (reap_threads-idle e.status v idle)
    ∙ ap (create_found c e v a routine arg (top - stacksize_of a) false) search
  where
    search : find_free v.table e.beyond v.next fuel v.next ≡ none
    search =
        ap (λ o. find_free v.table o v.next fuel v.next) behind_it
        ∙ ap (λ n. find_free v.table (some b) n fuel n) last
        ∙ find_free-never v.table b fuel 64 sized full (omega arith)
