-- ===== src/Thread/Exit/Rounds.antt =====
-- How often the destructors of a thread are called.
use aple.Base.{ℕ, zero, suc, ◌+◌, ◌≡◌, true, false, arith}
use aple.Thread.{Threads}
use aple.Thread.Exit.{visit_keys, rounds}

-- Where each round over the keys calls a destructor and raises a count by one, as one whose destructor
-- stores a value again does, the rounds end all the same, behind one more than the number of times that
-- the test on their count holds.
pub rounds_lem :
    (invoke : ℕ → ℕ → Threads → Threads) (a keys_max : ℕ) (IsStubborn : Threads → Type 0)
    (counter : Threads → ℕ)
    → ((v : Threads)
        → IsStubborn v
        → ((visit_keys invoke a keys_max 0 v false).1 ≡ true)
          × IsStubborn (visit_keys invoke a keys_max 0 v false).0
          × (counter (visit_keys invoke a keys_max 0 v false).0 ≡ suc (counter v)))
    → (left : ℕ) (v : Threads) → IsStubborn v
    → counter (rounds invoke a keys_max left v) ≡ counter v + suc left
unfolding rounds
rounds_lem invoke a keys_max IsStubborn counter again zero v h = omega (arith, (again v h).2)
rounds_lem invoke a keys_max IsStubborn counter again (suc left) v h =
    let (called, still, one) = again v h in
    rw (called, rounds)
      (omega (
        arith,
        one,
        rounds_lem invoke a keys_max IsStubborn counter again left
            (visit_keys invoke a keys_max 0 v false).0 still,
      ))
