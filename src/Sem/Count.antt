-- ===== src/Sem/Count.antt =====
-- The field `value` against the count of the kernel, where the operations do not interleave.
use aple.Base.{
  ℕ, suc, ◌+◌, ◌-◌, ◌%◌, ◌^◌, ◌≡◌, ◌≢◌, ◌<◌, refl, sym, ◌∙◌, Bool, true, false, List, [], ◌∷◌, ltb,
  arith, if◌then◌else◌, Bool-cases, inl, inr,
}
use native.Mathlib.Nat.{mod-eq_of_lt}
use aple.Sem.{
  Taken, Sem, Kernel, ok, timeout, unavailable, failed, sem_wait, wait_end, sem_trywait,
  trywait_end, sem_post, sem_getvalue,
}

-- What VxWorks documents of a counting semaphore: it has a count, below the range of `bits` bits; a take
-- that succeeds lowers it by one, a give that succeeds raises it by one, and a call that fails leaves it.
pub record Counts {K : Type 0} (kernel : Kernel K) (bits : ℕ) : Type 0 where
  pub count : K → ℕ → ℕ
  pub bounded : (k : K) (id : ℕ) → count k id < 2 ^ bits
  pub take_ok :
      (k : K) (id : ℕ) (wait : Bool)
      → (kernel.take k id wait).1 ≡ ok
      → count k id ≡ suc (count (kernel.take k id wait).0 id)
  pub take_not :
      (k : K) (id : ℕ) (wait : Bool)
      → (kernel.take k id wait).1 ≢ ok
      → count (kernel.take k id wait).0 id ≡ count k id
  pub give_ok :
      (k : K) (id : ℕ)
      → (kernel.give k id).1 ≡ true
      → count (kernel.give k id).0 id ≡ suc (count k id)
  pub give_not :
      (k : K) (id : ℕ) → (kernel.give k id).1 ≡ false → count (kernel.give k id).0 id ≡ count k id

-- The operations on a semaphore, and a run of them, one after the other.
pub data Op : Type 0 where
  wait trywait post : Op

module _ {K : Type 0} (kernel : Kernel K) (bits : ℕ) (laws : Counts kernel bits) where
  unfoldable pub apply : Op → K × Sem → K × Sem
  unfolding sem_wait sem_trywait sem_post
  apply wait (k, s) = ((sem_wait kernel k s).0, (sem_wait kernel k s).1)
  apply trywait (k, s) = ((sem_trywait kernel k s).0, (sem_trywait kernel k s).1)
  apply post (k, s) = ((sem_post kernel bits k s).0, (sem_post kernel bits k s).1)

  unfoldable pub run : List Op → K × Sem → K × Sem
  unfolding apply
  run [] s = s
  run (o ∷ os) s = run os (apply o s)

  abbrev pub Agrees : K × Sem → Type 0
  Agrees (k, s) = s.value ≡ laws.count k s.semid

  lower : (v n : ℕ) → v ≡ suc n → (if ltb 0 v then v - 1 else v) ≡ n
  lower v n e = ground (arith, e)

  wait-Agrees :
      (k k' : K) (s : Sem) (o : Taken)
      → Agrees (k, s)
      → (o ≡ ok → laws.count k s.semid ≡ suc (laws.count k' s.semid))
      → (o ≢ ok → laws.count k' s.semid ≡ laws.count k s.semid)
      → Agrees ((wait_end kernel k' s o).0, (wait_end kernel k' s o).1)
        × Agrees ((trywait_end kernel k' s o).0, (trywait_end kernel k' s o).1)
  wait-Agrees k k' s ok e t f = (lower s.value _ (e ∙ t refl), lower s.value _ (e ∙ t refl))
  wait-Agrees k k' s timeout e t f = (e ∙ sym (f (λ p. cc)), e ∙ sym (f (λ p. cc)))
  wait-Agrees k k' s unavailable e t f = (e ∙ sym (f (λ p. cc)), e ∙ sym (f (λ p. cc)))
  wait-Agrees k k' s failed e t f = (e ∙ sym (f (λ p. cc)), e ∙ sym (f (λ p. cc)))

  -- One operation keeps the field at the count.
  apply-Agrees : (o : Op) (k : K) (s : Sem) → Agrees (k, s) → Agrees (apply o (k, s))
  unfolding apply sem_wait sem_trywait sem_post
  apply-Agrees wait k s e =
      (wait-Agrees k (kernel.take k s.semid true).0 s (kernel.take k s.semid true).1 e
        (laws.take_ok k s.semid true) (laws.take_not k s.semid true)).0
  apply-Agrees trywait k s e =
      (wait-Agrees k (kernel.take k s.semid false).0 s (kernel.take k s.semid false).1 e
        (laws.take_ok k s.semid false) (laws.take_not k s.semid false)).1
  apply-Agrees post k s e = elim (Bool-cases (kernel.give k s.semid).1) [
    | inl t ↦ rw t (raised t)
    | inr t ↦ rw t (e ∙ sym (laws.give_not k s.semid t))
  ]
    where
      raised :
          (kernel.give k s.semid).1 ≡ true
          → (s.value + 1) % 2 ^ bits ≡ laws.count (kernel.give k s.semid).0 s.semid
      raised t =
          mod-eq_of_lt (
            omega
              (arith, e, laws.give_ok k s.semid t, laws.bounded (kernel.give k s.semid).0 s.semid))
          ∙ omega (arith, e, laws.give_ok k s.semid t)

  -- After any operations, one after the other, `sem_getvalue` tells the count of the kernel, where it did
  -- so before them and the kernel counts as documented, within the range of the field.
  pub run-Agrees :
      (os : List Op) (k : K) (s : Sem)
      → Agrees (k, s)
      → let (k', s') = run os (k, s) in sem_getvalue s' ≡ laws.count k' s'.semid
  unfolding run sem_getvalue
  run-Agrees [] k s e = e
  run-Agrees (o ∷ os) k s e =
      run-Agrees os (apply o (k, s)).0 (apply o (k, s)).1 (apply-Agrees o k s e)
