-- ===== src/Thread/Reap/Sweep.antt =====
-- The reaper against a loop without its counter: which slots it empties, and what it leaves of the counters.
use aple.Base.{
  ℕ, zero, suc, ◌+◌, ◌≡◌, ◌≢◌, refl, sym, ap, ap₂, ◌∙◌, true, false, Option, none, some, List, [],
  ◌∷◌, ◌++◌, append-nil, append_assoc, map, if◌then◌else◌, Bool-cases, inl, inr, ◌⊎◌, arith,
}
use aple.Base.Int.{ℤ, pos, dec}
use aple.Thread.{Call, Info, Threads, is_exited}
use aple.Thread.Reap.{
  TaskStatus, invalid, dead, alive, skip, reap, hang, Reaped, verdict, calls_at, behind, reap_slots,
  reap_threads, with_reaped, is_pos,
}
use aple.Thread.Reap.Ends.{Ended}

abbrev present : Option ℕ → ℕ
present none = 0
present (some a) = 1

-- How many slots are taken.
abbrev pub occupied_slots : List (Option ℕ) → ℕ
occupied_slots [] = 0
occupied_slots (s ∷ ss) = present s + occupied_slots ss

module _ (infos : ℕ → Info) where
  abbrev weight : Option ℕ → ℕ
  weight none = 0
  weight (some a) = if is_exited (infos a).state then 1 else 0

  -- How many slots hold a thread in the state EXITED.
  abbrev pub exited_slots : List (Option ℕ) → ℕ
  exited_slots [] = 0
  exited_slots (s ∷ ss) = weight s + exited_slots ss

module _ (status : ℕ → TaskStatus) (infos : ℕ → Info) where
  -- A slot behind the reaper: empty where the thread is EXITED and its task dead.
  abbrev pub freed : Option ℕ → Option ℕ
  freed s = elim (verdict status infos s) [ skip ↦ s | reap ↦ none | hang ↦ s ]

  -- The calls for the slots that are emptied, in their order.
  abbrev pub reap_log : List (Option ℕ) → List Call
  reap_log [] = []
  reap_log (s ∷ ss) = elim (verdict status infos s) [
    | skip ↦ reap_log ss
    | reap ↦ calls_at status infos s ++ reap_log ss
    | hang ↦ reap_log ss
  ]

-- The statics with every thread reaped that can be, and the counters counted anew.
abbrev pub swept : (ℕ → TaskStatus) → Threads → Threads
swept status v =
    let table = map (freed status v.infos) v.table in
    record v {
      table = table;
      count = pos (occupied_slots table);
      exited = pos (exited_slots v.infos table);
      calls = v.calls ++ reap_log status v.infos v.table;
    }

outcome : List (Option ℕ) → ℤ → ℤ → List Call → Reaped
outcome ss c x l = record { slots = ss; count = c; exited = x; calls = l }

outcome-ext :
    {ss ss' : List (Option ℕ)} {c c' x x' : ℤ} {l l' : List Call}
    → ss ≡ ss'
    → c ≡ c'
    → x ≡ x'
    → l ≡ l'
    → outcome ss c x l ≡ outcome ss' c' x' l'
outcome-ext p q r s = λ i. outcome (p i) (q i) (r i) (s i)

module _ (status : ℕ → TaskStatus) (infos : ℕ → Info) (ended : Ended status infos) where
  -- A slot is skipped, and stays, or reaped, and then counts in both counters.
  Slot-cases :
      (s : Option ℕ)
      → (verdict status infos s ≡ skip)
        ⊎ ((verdict status infos s ≡ reap) × (weight infos s ≡ 1) × (present s ≡ 1))
  Slot-cases none = inl refl
  Slot-cases (some a) = elim (Bool-cases (is_exited (infos a).state)) [
    | inr t ↦ inl (rw t refl)
    | inl t ↦ by (status (infos a).task_id) (ended a t) refl t
  ]
    where
      by :
          (x : TaskStatus)
          → status (infos a).task_id ≢ alive
          → status (infos a).task_id ≡ x
          → is_exited (infos a).state ≡ true
          → (verdict status infos (some a) ≡ skip)
            ⊎ ((verdict status infos (some a) ≡ reap)
                × (weight infos (some a) ≡ 1)
                × (present (some a) ≡ 1))
      by invalid h e t = inl (rw (t, e) refl)
      by dead h e t = inr (rw (t, e) refl, rw t refl, refl)
      by alive h e t = absurd (h e)

  -- What the loop leaves, with `n` slots taken and `m` threads exited before the slots.
  rest_of : ℕ → ℕ → List (Option ℕ) → List Call → Reaped
  rest_of n m ss calls =
      let table = map (freed status infos) ss in
      outcome table (pos (n + occupied_slots table)) (pos (m + exited_slots infos table))
        (calls ++ reap_log status infos ss)

  freed-keep : (s : Option ℕ) → verdict status infos s ≡ skip → freed status infos s ≡ s
  freed-keep s u = rw (u, freed) refl

  freed-drop : (s : Option ℕ) → verdict status infos s ≡ reap → freed status infos s ≡ none
  freed-drop s u = rw (u, freed) refl

  log-keep :
      (s : Option ℕ) (ss : List (Option ℕ))
      → verdict status infos s ≡ skip
      → reap_log status infos (s ∷ ss) ≡ reap_log status infos ss
  log-keep s ss u = rw (u, reap_log) refl

  log-drop :
      (s : Option ℕ) (ss : List (Option ℕ))
      → verdict status infos s ≡ reap
      → reap_log status infos (s ∷ ss) ≡ calls_at status infos s ++ reap_log status infos ss
  log-drop s ss u = rw (u, reap_log) refl

  -- Where no thread is in the state EXITED nothing is done.
  untouched :
      (ss : List (Option ℕ))
      → exited_slots infos ss ≡ 0
      → (map (freed status infos) ss ≡ ss) × (reap_log status infos ss ≡ [])
  untouched [] h = (refl, refl)
  untouched (s ∷ ss) h = elim (Slot-cases s) [
    | inl u ↦
        let (p, q) = untouched ss (omega (arith, h)) in
        (ap₂ (λ x l. x ∷ l) (freed-keep s u) p, log-keep s ss u ∙ q)
    | inr (u, w, o) ↦ absurd (omega (arith, h, w))
  ]

  lowered : (a b : ℕ) → a ≡ suc b → dec (pos a) ≡ pos b
  lowered a b h = ap (λ k. dec (pos k)) h

  is_pos-zero : (n : ℕ) → is_pos (pos n) ≡ false → n ≡ 0
  is_pos-zero zero h = refl
  is_pos-zero (suc n) h = absurd cc

  stops :
      (ss : List (Option ℕ)) (c x : ℤ) (calls : List Call)
      → is_pos x ≡ false
      → reap_slots status infos ss c x calls ≡ some (outcome ss c x calls)
  unfolding reap_slots outcome
  stops [] c x calls h = refl
  stops (s ∷ ss) c x calls h = rw (h, reap_slots) refl

  skips :
      (s : Option ℕ) (ss : List (Option ℕ)) (c x : ℤ) (calls : List Call)
      → is_pos x ≡ true
      → verdict status infos s ≡ skip
      → reap_slots status infos (s ∷ ss) c x calls ≡ behind s (reap_slots status infos ss c x calls)
  unfolding reap_slots
  skips s ss c x calls h u = rw (h, u, reap_slots) refl

  reaps :
      (s : Option ℕ) (ss : List (Option ℕ)) (c x : ℤ) (calls : List Call)
      → is_pos x ≡ true
      → verdict status infos s ≡ reap
      → reap_slots status infos (s ∷ ss) c x calls
        ≡ behind none
            (reap_slots status infos ss (dec c) (dec x) (calls ++ calls_at status infos s))
  unfolding reap_slots
  reaps s ss c x calls h u = rw (h, u, reap_slots) refl

  stopped :
      (ss : List (Option ℕ)) (n m : ℕ) (calls : List Call)
      → m + exited_slots infos ss ≡ 0
      → outcome ss (pos (n + occupied_slots ss)) (pos (m + exited_slots infos ss)) calls
        ≡ rest_of n m ss calls
  unfolding rest_of
  stopped ss n m calls h =
      let (p, q) = untouched ss (omega (arith, h)) in
      outcome-ext (sym p) (ap (λ t. pos (n + occupied_slots t)) (sym p))
        (ap (λ t. pos (m + exited_slots infos t)) (sym p))
        (sym (append-nil calls) ∙ ap (λ l. calls ++ l) (sym q))

  skipped :
      (s : Option ℕ) (ss : List (Option ℕ)) (n m : ℕ) (calls : List Call)
      → verdict status infos s ≡ skip
      → behind s (some (rest_of (n + present s) (m + weight infos s) ss calls))
        ≡ some (rest_of n m (s ∷ ss) calls)
  unfolding rest_of outcome
  skipped s ss n m calls u =
      let keep = sym (freed-keep s u) in
      ap some (
        outcome-ext (ap (λ x. x ∷ map (freed status infos) ss) keep)
          (ap pos (omega (arith, ap present keep))) (ap pos (omega (arith, ap (weight infos) keep)))
          (ap (λ l. calls ++ l) (sym (log-keep s ss u))))

  emptied_slot :
      (s : Option ℕ) (ss : List (Option ℕ)) (n m : ℕ) (calls : List Call)
      → verdict status infos s ≡ reap
      → behind none (some (rest_of n m ss (calls ++ calls_at status infos s)))
        ≡ some (rest_of n m (s ∷ ss) calls)
  unfolding rest_of outcome
  emptied_slot s ss n m calls u =
      let drop = sym (freed-drop s u) in
      ap some (
        outcome-ext (ap (λ x. x ∷ map (freed status infos) ss) drop)
          (ap pos (omega (arith, ap present drop))) (ap pos (omega (arith, ap (weight infos) drop)))
          (append_assoc calls (calls_at status infos s) (reap_log status infos ss)
            ∙ ap (λ l. calls ++ l) (sym (log-drop s ss u))))

  ends-nil :
      (n m : ℕ) (calls : List Call)
      → reap_slots status infos [] (pos (n + 0)) (pos (m + 0)) calls ≡ some (rest_of n m [] calls)
  unfolding reap_slots rest_of outcome
  ends-nil n m calls = ap some (outcome-ext refl refl refl (sym (append-nil calls)))

  reap_slots-rest_of :
      (ss : List (Option ℕ)) (n m : ℕ) (calls : List Call)
      → reap_slots status infos ss
          (pos (n + occupied_slots ss))
          (pos (m + exited_slots infos ss))
          calls
        ≡ some (rest_of n m ss calls)
  reap_slots-rest_of [] n m calls = ends-nil n m calls
  reap_slots-rest_of (s ∷ ss) n m calls =
      elim (Bool-cases (is_pos (pos (m + exited_slots infos (s ∷ ss))))) [
        | inr t ↦
            stops (s ∷ ss) _ _ calls t
            ∙ ap some (stopped (s ∷ ss) n m calls (is_pos-zero (m + exited_slots infos (s ∷ ss)) t))
        | inl t ↦ elim (Slot-cases s) [
          | inl u ↦
              skips s ss _ _ calls t u
              ∙ ap₂ (λ c x. behind s (reap_slots status infos ss (pos c) (pos x) calls))
                  (omega arith) (omega arith)
              ∙ ap (behind s) (reap_slots-rest_of ss (n + present s) (m + weight infos s) calls)
              ∙ skipped s ss n m calls u
          | inr (u, w, o) ↦
              reaps s ss _ _ calls t u
              ∙ ap₂
                  (λ c x.
                    behind none (reap_slots status infos ss c x (calls ++ calls_at status infos s)))
                  (lowered (n + occupied_slots (s ∷ ss)) (n + occupied_slots ss) (omega (arith, o)))
                  (lowered (m + exited_slots infos (s ∷ ss)) (m + exited_slots infos ss)
                    (omega (arith, w)))
              ∙ ap (behind none) (reap_slots-rest_of ss n m (calls ++ calls_at status infos s))
              ∙ emptied_slot s ss n m calls u
        ]
      ]

rest_of-swept :
    (status : ℕ → TaskStatus) (v : Threads) (ended : Ended status v.infos)
    → with_reaped v (some (rest_of status v.infos ended 0 0 v.table v.calls))
      ≡ some (swept status v)
unfolding rest_of outcome
rest_of-swept status v ended =
    ap (λ r. with_reaped v (some r))
      (outcome-ext refl (ap pos (omega arith)) (ap pos (omega arith)) refl)

-- In a table whose counters count its slots and its threads in the state EXITED, where none of those has a
-- task that still runs, the reaper does what a loop over all slots without its counter does: it empties the
-- slots of the threads in the state EXITED whose task is dead, in order, and the counters count again what
-- is left.
pub reap_threads-swept :
    (status : ℕ → TaskStatus) (v : Threads)
    → Ended status v.infos
    → v.count ≡ pos (occupied_slots v.table)
    → v.exited ≡ pos (exited_slots v.infos v.table)
    → reap_threads status v ≡ some (swept status v)
unfolding reap_threads
reap_threads-swept status v ended counted gone =
    ap₂ (λ c x. with_reaped v (reap_slots status v.infos v.table c x v.calls)) counted gone
    ∙ ap₂ (λ c x. with_reaped v (reap_slots status v.infos v.table (pos c) (pos x) v.calls))
        (omega arith) (omega arith)
    ∙ ap (with_reaped v) (reap_slots-rest_of status v.infos ended v.table 0 0 v.calls)
    ∙ rest_of-swept status v ended
