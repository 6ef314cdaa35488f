-- ===== src/Tests/Semaphores.antt =====
-- Runs of the semaphores, on a kernel with one counting semaphore.
use aple.Base.{some, ℕ, suc, ◌^◌, ◌≡◌, ◌≢◌, ◌<◌, refl, Bool, true, false, List, [], ◌∷◌, arith}
use aple.Mutex.{Binary, success, ebusy, mutex_init, mutex_lock, mutex_trylock, mutex_unlock}
use aple.Mutex.Exclusion.{
  IsBinary, Holding, Reach, start, later, locks, tries, unlocks, mutual_exclusion,
}
use aple.Sem.{Sem, Kernel, Taken, ok, unavailable, sem_getvalue}
use aple.Sem.Count.{Counts, Op, wait, trywait, post, run, run-Agrees}

-- The state says whether the count is 1 or 0, and it goes no higher.
abbrev toy_take : Bool → Bool × Taken
toy_take false = (false, unavailable)
toy_take true = (false, ok)

abbrev toy_give : Bool → Bool × Bool
toy_give false = (true, true)
toy_give true = (true, false)

abbrev toy_count : Bool → ℕ
toy_count false = 0
toy_count true = 1

abbrev toy : Kernel Bool
toy = record {
  create = λ k v. (k, 1);
  delete = λ k id. (k, true);
  take = λ k id wait. toy_take k;
  give = λ k id. toy_give k;
}

count_small : (k : Bool) → toy_count k < 2 ^ 32
count_small false = omega arith
count_small true = omega arith

take_ok : (k : Bool) → (toy_take k).1 ≡ ok → toy_count k ≡ suc (toy_count (toy_take k).0)
take_ok false e = cc
take_ok true e = refl

take_not : (k : Bool) → (toy_take k).1 ≢ ok → toy_count (toy_take k).0 ≡ toy_count k
take_not false e = refl
take_not true e = absurd (e refl)

give_ok : (k : Bool) → (toy_give k).1 ≡ true → toy_count (toy_give k).0 ≡ suc (toy_count k)
give_ok false e = refl
give_ok true e = cc

give_not : (k : Bool) → (toy_give k).1 ≡ false → toy_count (toy_give k).0 ≡ toy_count k
give_not false e = cc
give_not true e = refl

abbrev toy-Counts : Counts toy 32
toy-Counts = record {
  count = λ k id. toy_count k;
  bounded = λ k id. count_small k;
  take_ok = λ k id wait e. take_ok k e;
  take_not = λ k id wait e. take_not k e;
  give_ok = λ k id e. give_ok k e;
  give_not = λ k id e. give_not k e;
}

abbrev ops : List Op
ops = post ∷ post ∷ wait ∷ trywait ∷ post ∷ []

abbrev new_sem : Bool × Sem
new_sem = (false, record { semid = 1; value = 0 })

run-Agrees_example :
    let (k', s') = run toy 32 toy-Counts ops new_sem in sem_getvalue s' ≡ toy_count k'
run-Agrees_example = run-Agrees toy 32 toy-Counts ops false (record { semid = 1; value = 0 }) refl

-- A kernel with one binary semaphore, which is full where the state is `true`.
abbrev toy_binary : Binary Bool
toy_binary = record {
  create = λ k. (true, 1);
  delete = λ k id. (k, true);
  take = λ k id wait. toy_take k;
  give = λ k id. (true, true);
}

empties : (k : Bool) → (toy_take k).1 ≡ ok → (toy_take k).0 ≡ false
empties false e = refl
empties true e = refl

toy_full : (k : Bool) → (toy_take k).1 ≡ ok → k ≡ true
toy_full false e = cc
toy_full true e = refl

toy_leaves : (k : Bool) → (toy_take k).1 ≢ ok → (toy_take k).0 ≡ k
toy_leaves false e = refl
toy_leaves true e = absurd (e refl)

toy_unavailable : (k : Bool) → k ≡ false → (toy_take k).1 ≡ unavailable
toy_unavailable false e = refl
toy_unavailable true e = cc

toy_available : (k : Bool) → k ≡ true → (toy_take k).1 ≡ ok
toy_available false e = cc
toy_available true e = refl

toy-IsBinary : IsBinary toy_binary
toy-IsBinary = record {
  full = λ k id. k;
  created = λ k e. refl;
  take_full = λ k id wait e. toy_full k e;
  take_empties = λ k id wait e. empties k e;
  take_leaves = λ k id wait e. toy_leaves k e;
  take_not = λ k id e. toy_unavailable k e;
  take_now = λ k id e. toy_available k e;
  give_fills = λ k id e. refl;
  give_leaves = λ k id e. absurd cc;
}

-- Thread 4 locks, thread 5 tries in vain, thread 4 unlocks, and thread 5 locks.
abbrev held_by_5 : Holding Bool
held_by_5 = record { kernel = false; holders = 5 ∷ [] }

held_by_5-Reach : Reach toy_binary 1 true held_by_5
unfolding mutex_lock mutex_trylock mutex_unlock
held_by_5-Reach =
    later
      (later
        (later (later start (locks (record { kernel = true; holders = [] }) 4))
          (tries (record { kernel = false; holders = 4 ∷ [] }) 5))
        (unlocks (record { kernel = false; holders = 4 ∷ [] }) [] [] 4 refl))
      (locks (record { kernel = true; holders = [] }) 5)

mutual_exclusion_example :
    ((mutex_trylock toy_binary false (some 1)).1 ≡ ebusy)
    × ((mutex_lock toy_binary false (some 1)).1 ≢ success)
unfolding mutex_init
mutual_exclusion_example =
    mutual_exclusion toy_binary toy-IsBinary false held_by_5 refl held_by_5-Reach
