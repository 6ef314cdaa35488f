-- ===== src/Mutex/Exclusion.antt =====
-- Threads that share a mutex of source/aple/lecture-5/minigui-vxworks_mutex.c.
use aple.Base.{
  ℕ, ◌+◌, ◌≡◌, ◌≢◌, refl, sym, ap, ◌∙◌, Bool, true, false, some, List, [], ◌∷◌, ◌++◌, length,
  length-append, ◌==◌, if◌then◌else◌, arith,
}
use aple.Sem.{Taken, ok, timeout, unavailable, failed}
use aple.Mutex.{
  Binary, Status, success, einval, ebusy, lock_status, trylock_status, status_of, mutex_init,
  mutex_lock, mutex_trylock, mutex_unlock,
}

-- What VxWorks documents of a binary semaphore: it is full or empty, and full when it is created; a take
-- returns with it only where it is full, and leaves it empty; one that does not wait finds an empty one
-- unavailable; any other end of a take leaves it; and a give fills it, or fails and leaves it.
pub record IsBinary {K : Type 0} (kernel : Binary K) : Type 0 where
  pub full : K → ℕ → Bool
  pub created :
      (k : K) → (kernel.create k).1 ≢ 0 → full (kernel.create k).0 (kernel.create k).1 ≡ true
  pub take_full : (k : K) (id : ℕ) (wait : Bool) → (kernel.take k id wait).1 ≡ ok → full k id ≡ true
  pub take_empties :
      (k : K) (id : ℕ) (wait : Bool)
      → (kernel.take k id wait).1 ≡ ok
      → full (kernel.take k id wait).0 id ≡ false
  pub take_leaves :
      (k : K) (id : ℕ) (wait : Bool)
      → (kernel.take k id wait).1 ≢ ok
      → full (kernel.take k id wait).0 id ≡ full k id
  pub take_not : (k : K) (id : ℕ) → full k id ≡ false → (kernel.take k id false).1 ≡ unavailable
  pub take_now : (k : K) (id : ℕ) → full k id ≡ true → (kernel.take k id false).1 ≡ ok
  pub give_fills :
      (k : K) (id : ℕ) → (kernel.give k id).1 ≡ true → full (kernel.give k id).0 id ≡ true
  pub give_leaves :
      (k : K) (id : ℕ) → (kernel.give k id).1 ≡ false → full (kernel.give k id).0 id ≡ full k id

-- The kernel, and the threads whose lock or trylock has succeeded and that have not unlocked since.
pub record Holding (K : Type 0) : Type 0 where
  pub kernel : K
  pub holders : List ℕ

abbrev pub is_success : Status → Bool
is_success success = true
is_success einval = false
is_success ebusy = false

module _ {K : Type 0} (kernel : Binary K) (id : ℕ) where
  -- A call of any thread `t`, at the moment when it returns: a lock, which may have waited, or a trylock,
  -- each also of a thread that holds the mutex, and an unlock of a thread that holds it.
  pub data Step : Holding K → Holding K → Type 0 where
    locks :
        (s : Holding K) (t : ℕ)
        → Step s (record {
          kernel = (mutex_lock kernel s.kernel (some id)).0;
          holders =
              if is_success (mutex_lock kernel s.kernel (some id)).1
              then t ∷ s.holders
              else s.holders;
        })
    tries :
        (s : Holding K) (t : ℕ)
        → Step s (record {
          kernel = (mutex_trylock kernel s.kernel (some id)).0;
          holders =
              if is_success (mutex_trylock kernel s.kernel (some id)).1
              then t ∷ s.holders
              else s.holders;
        })
    unlocks :
        (s : Holding K) (front rest : List ℕ) (t : ℕ)
        → s.holders ≡ front ++ (t ∷ rest)
        → Step s (record {
          kernel = (mutex_unlock kernel s.kernel (some id)).0;
          holders =
              if is_success (mutex_unlock kernel s.kernel (some id)).1
              then front ++ rest
              else s.holders;
        })

  pub data Reach (first : K) : Holding K → Type 0 where
    start : Reach first (record { kernel = first; holders = [] })
    later : {s t : Holding K} → Reach first s → Step s t → Reach first t

  -- What the next calls on the mutex answer, by the threads that hold it: at most one does; while one does,
  -- no lock succeeds and a trylock answers EBUSY, whichever thread calls, its holder too; and while none
  -- does, a trylock succeeds.
  abbrev pub Exclusive : K → List ℕ → Type 0
  Exclusive k [] = (mutex_trylock kernel k (some id)).1 ≡ success
  Exclusive k (t ∷ []) =
      ((mutex_trylock kernel k (some id)).1 ≡ ebusy) × ((mutex_lock kernel k (some id)).1 ≢ success)
  Exclusive k (t ∷ u ∷ rest) = ⊥

  module _ (laws : IsBinary kernel) where
    abbrev room : Bool → ℕ
    room true = 1
    room false = 0

    -- The semaphore is full, or one thread holds the mutex.
    abbrev Inv : Holding K → Type 0
    Inv s = length s.holders + room (laws.full s.kernel id) ≡ 1

    taken_by :
        (k : K) (wait : Bool) (b : Bool) (t : ℕ) (holders : List ℕ)
        → (b ≡ true → (kernel.take k id wait).1 ≡ ok)
        → (b ≡ false → (kernel.take k id wait).1 ≢ ok)
        → length holders + room (laws.full k id) ≡ 1
        → length (if b then t ∷ holders else holders)
            + room (laws.full (kernel.take k id wait).0 id)
          ≡ 1
    taken_by k wait true t holders is_ok not_ok v = omega (
      arith,
      v,
      ap room (laws.take_full k id wait (is_ok refl)),
      ap room (laws.take_empties k id wait (is_ok refl)),
    )
    taken_by k wait false t holders is_ok not_ok v =
        omega (arith, v, ap room (laws.take_leaves k id wait (not_ok refl)))

    lock_ok : (t : Taken) → is_success (lock_status t) ≡ true → t ≡ ok
    lock_ok ok e = refl
    lock_ok timeout e = cc
    lock_ok unavailable e = cc
    lock_ok failed e = cc

    lock_not_ok : (t : Taken) → is_success (lock_status t) ≡ false → t ≢ ok
    lock_not_ok t e f = absurd cc

    trylock_ok : (t : Taken) → is_success (trylock_status t) ≡ true → t ≡ ok
    trylock_ok ok e = refl
    trylock_ok timeout e = cc
    trylock_ok unavailable e = cc
    trylock_ok failed e = cc

    trylock_not_ok : (t : Taken) → is_success (trylock_status t) ≡ false → t ≢ ok
    trylock_not_ok t e f = absurd cc

    given_by :
        (k : K) (b : Bool) (t : ℕ) (front rest holders : List ℕ)
        → (kernel.give k id).1 ≡ b
        → holders ≡ front ++ (t ∷ rest)
        → length holders + room (laws.full k id) ≡ 1
        → length (if is_success (status_of b) then front ++ rest else holders)
            + room (laws.full (kernel.give k id).0 id)
          ≡ 1
    given_by k true t front rest holders g e v = omega (
      arith,
      v,
      ap length e,
      length-append front (t ∷ rest),
      length-append front rest,
      ap room (laws.give_fills k id g),
    )
    given_by k false t front rest holders g e v =
        omega (arith, v, ap room (laws.give_leaves k id g))

    Step-Inv : {s t : Holding K} → Step s t → Inv s → Inv t
    unfolding mutex_lock mutex_trylock mutex_unlock
    Step-Inv (locks s t) v =
        taken_by s.kernel true _ t s.holders (lock_ok (kernel.take s.kernel id true).1)
          (lock_not_ok (kernel.take s.kernel id true).1) v
    Step-Inv (tries s t) v =
        taken_by s.kernel false _ t s.holders (trylock_ok (kernel.take s.kernel id false).1)
          (trylock_not_ok (kernel.take s.kernel id false).1) v
    Step-Inv (unlocks s front rest t e) v =
        given_by s.kernel (kernel.give s.kernel id).1 t front rest s.holders refl e v

    Reach-Inv : {first : K} {s : Holding K} → laws.full first id ≡ true → Reach first s → Inv s
    Reach-Inv h start = ap (λ b. 0 + room b) h
    Reach-Inv h (later r x) = Step-Inv x (Reach-Inv h r)

    is_full : (b : Bool) → 0 + room b ≡ 1 → b ≡ true
    is_full true e = refl
    is_full false e = absurd (omega (arith, e))

    is_empty : (b : Bool) → 1 + room b ≡ 1 → b ≡ false
    is_empty true e = absurd (omega (arith, e))
    is_empty false e = refl

    locked : (t : Taken) → lock_status t ≡ success → t ≡ ok
    locked t e = lock_ok t (ap is_success e)

    exclusive :
        (k : K) (holders : List ℕ)
        → length holders + room (laws.full k id) ≡ 1
        → Exclusive k holders
    unfolding mutex_lock mutex_trylock
    exclusive k [] v = ap trylock_status (laws.take_now k id (is_full (laws.full k id) v))
    exclusive k (t ∷ []) v =
        let empty : laws.full k id ≡ false = is_empty (laws.full k id) v in
        (
          ap trylock_status (laws.take_not k id empty),
          λ e. absurd (
              not_both
                (sym (laws.take_full k id true (locked (kernel.take k id true).1 e)) ∙ empty)),
        )
      where
        not_both : true ≡ false → ⊥
        not_both f = absurd cc
    exclusive k (t ∷ u ∷ rest) v = absurd (omega (arith, v))

init_id : (n : ℕ) → (if n == 0 then einval else success) ≡ success → n ≢ 0
init_id n e f = absurd ground (arith, e, f)

-- From a mutex that `pthread_mutex_init` has made with success, under every interleaving of the locks,
-- trylocks and unlocks of any threads, where only a thread that holds the mutex unlocks it: never do two
-- threads hold it, nor one twice; while one holds it no lock succeeds and a trylock answers EBUSY, to the
-- holder too; and while none does a trylock succeeds.
pub mutual_exclusion :
    {K : Type 0} (kernel : Binary K)
    → IsBinary kernel
    → (k : K) (s : Holding K) → (mutex_init kernel k).2 ≡ success
    → Reach kernel (mutex_init kernel k).1 (mutex_init kernel k).0 s
    → Exclusive kernel (mutex_init kernel k).1 s.kernel s.holders
unfolding mutex_init
mutual_exclusion kernel laws k s made r =
    exclusive kernel (kernel.create k).1 laws s.kernel s.holders (
      Reach-Inv kernel (kernel.create k).1 laws (laws.created k (init_id (kernel.create k).1 made))
        r)
