-- ===== src/Thread/Reap/Ends.antt =====
-- The end of the reaper's loop, and what it leaves in the table.
use aple.Base.{
  ℕ, zero, suc, ◌≡◌, ◌≢◌, refl, sym, ap, ◌∙◌, true, Option, none, some, List, [], ◌∷◌, ◌++◌, get_or,
  Bool-cases, inl, inr, ◌⊎◌,
}
use aple.Base.Int.{ℤ, pos, dec}
use aple.Thread.{Call, Info, Threads, is_exited}
use aple.Thread.Reap.{
  TaskStatus, invalid, dead, alive, Verdict, skip, reap, hang, Reaped, verdict, calls_at, behind,
  reap_slots, reap_threads, with_reaped, is_pos, by_status,
}

-- Every slot of a new table is empty or is as in the old one.
abbrev pub Cleared : List (Option ℕ) → List (Option ℕ) → Type 0
Cleared old new = (k : ℕ) → (get_or new k none ≡ none) ⊎ (get_or new k none ≡ get_or old k none)

Cleared-refl : (ss : List (Option ℕ)) → Cleared ss ss
Cleared-refl ss k = inr refl

Cleared-keep :
    (s : Option ℕ) (old new : List (Option ℕ)) → Cleared old new → Cleared (s ∷ old) (s ∷ new)
Cleared-keep s old new h zero = inr refl
Cleared-keep s old new h (suc k) = h k

Cleared-drop :
    (s : Option ℕ) (old new : List (Option ℕ)) → Cleared old new → Cleared (s ∷ old) (none ∷ new)
Cleared-drop s old new h zero = inl refl
Cleared-drop s old new h (suc k) = h k

-- A loop that ends, with the slots that it leaves.
abbrev pub Ends : List (Option ℕ) → Option Reaped → Type 0
Ends ss o = (r : Reaped) × (o ≡ some r) × Cleared ss r.slots

Ends-keep :
    (s : Option ℕ) (ss : List (Option ℕ)) (o : Option Reaped)
    → Ends ss o
    → Ends (s ∷ ss) (behind s o)
Ends-keep s ss o (r, e, h) =
    (record r { slots = s ∷ r.slots }, ap (behind s) e, Cleared-keep s ss r.slots h)

Ends-drop :
    (s : Option ℕ) (ss : List (Option ℕ)) (o : Option Reaped)
    → Ends ss o
    → Ends (s ∷ ss) (behind none o)
Ends-drop s ss o (r, e, h) =
    (record r { slots = none ∷ r.slots }, ap (behind none) e, Cleared-drop s ss r.slots h)

-- No thread in the state EXITED has a task that still runs.
abbrev pub Ended : (ℕ → TaskStatus) → (ℕ → Info) → Type 0
Ended status infos = (b : ℕ) → is_exited (infos b).state ≡ true → status (infos b).task_id ≢ alive

module _ (status : ℕ → TaskStatus) (infos : ℕ → Info) (ended : Ended status infos) where
  by_status-ends : (x : TaskStatus) → x ≢ alive → by_status x ≢ hang
  by_status-ends invalid h = λ e. cc
  by_status-ends dead h = λ e. cc
  by_status-ends alive h = absurd (h refl)

  Verdict-cases : (x : Verdict) → x ≢ hang → (x ≡ skip) ⊎ (x ≡ reap)
  Verdict-cases skip h = inl refl
  Verdict-cases reap h = inr refl
  Verdict-cases hang h = absurd (h refl)

  verdict-ends : (s : Option ℕ) → verdict status infos s ≢ hang
  verdict-ends none = λ e. cc
  verdict-ends (some a) = elim (Bool-cases (is_exited (infos a).state)) [
    | inl t ↦ rw t (by_status-ends (status (infos a).task_id) (ended a t))
    | inr t ↦ rw t (λ e. cc)
  ]

  reap_slots-Ends :
      (ss : List (Option ℕ)) (count gone : ℤ) (calls : List Call)
      → Ends ss (reap_slots status infos ss count gone calls)
  unfolding reap_slots
  reap_slots-Ends [] count gone calls = (_, refl, Cleared-refl [])
  reap_slots-Ends (s ∷ ss) count gone calls = elim (Bool-cases (is_pos gone)) [
    | inr t ↦ rw (t, reap_slots) (_, refl, Cleared-refl (s ∷ ss))
    | inl t ↦ elim (Verdict-cases (verdict status infos s) (verdict-ends s)) [
      | inl u ↦
          rw (t, u, reap_slots)
            (Ends-keep s ss (reap_slots status infos ss count gone calls)
              (reap_slots-Ends ss count gone calls))
      | inr u ↦
          rw (t, u, reap_slots)
            (Ends-drop s ss _
              (reap_slots-Ends ss (dec count) (dec gone) (calls ++ calls_at status infos s)))
    ]
  ]

-- The reaper ends with the memory as it was, and its table.
abbrev pub Reaps : Threads → Option Threads → Type 0
Reaps v o = (w : Threads) × (o ≡ some w) × (w.infos ≡ v.infos) × Cleared v.table w.table

with_reaped-Reaps : (v : Threads) (o : Option Reaped) → Ends v.table o → Reaps v (with_reaped v o)
with_reaped-Reaps v o (r, e, h) = (_, ap (with_reaped v) e, refl, h)

-- Where no thread in the state EXITED has a task that still runs, the reaper ends.
pub reap_threads-Reaps :
    (status : ℕ → TaskStatus) (v : Threads) → Ended status v.infos → Reaps v (reap_threads status v)
unfolding reap_threads
reap_threads-Reaps status v h =
    with_reaped-Reaps v (reap_slots status v.infos v.table v.count v.exited v.calls)
      (reap_slots-Ends status v.infos h v.table v.count v.exited v.calls)

reap_slots-idle :
    (status : ℕ → TaskStatus) (infos : ℕ → Info) (ss : List (Option ℕ)) (count : ℤ)
    (calls : List Call)
    → reap_slots status infos ss count (pos 0) calls
      ≡ some (record { slots = ss; count = count; exited = pos 0; calls = calls })
unfolding reap_slots
reap_slots-idle status infos [] count calls = refl
reap_slots-idle status infos (s ∷ ss) count calls = refl

-- Where no thread has exited, the reaper changes nothing.
pub reap_threads-idle :
    (status : ℕ → TaskStatus) (v : Threads) → v.exited ≡ pos 0 → reap_threads status v ≡ some v
unfolding reap_threads
reap_threads-idle status v e =
    ap (λ n. with_reaped v (reap_slots status v.infos v.table v.count n v.calls)) e
    ∙ ap (with_reaped v) (reap_slots-idle status v.infos v.table v.count v.calls)
    ∙ ap (λ n. some (record v { exited = n })) (sym e)
