-- ===== src/Throw/Sync.antt =====
-- What the loops over the synchronous messages do to the list, and to the threads that wait.
use aple.Base.{
  ℕ, suc, ◌+◌, ◌≡◌, ◌≢◌, refl, ap, sym, ◌∙◌, Bool, true, false, Option, none, some, List, [], ◌∷◌,
  ◌++◌, arith, length, keep_if, keep_if-take, keep_if-skip, map, Bool-cases, inl, inr, append-nil,
  append_assoc, ==_refl, ==_false,
}
use aple.Base.Int.{ℤ}
use aple.Msg.{Msg, SyncMsg, MsgQueue, qs_empty}
use aple.Chain.{set_next}
use aple.Ring.Contents.{contents, contents_empty}
use aple.Throw.{
  Cancelled, sync_addr, cancel_node, cancel_round, next_prev, cancel_sync, start_at, emptied,
}

module _ (canceled : ℤ) (hit : Msg → Bool) where
  -- The nodes that are hit.
  abbrev pub hits : List SyncMsg → List SyncMsg
  hits ns = keep_if (λ n. hit n.body) ns

  round-woken :
      (n : SyncMsg) (rest : List SyncMsg) (prev : Option ℕ) (s : Cancelled)
      → ((cancel_round canceled n rest prev s).woken ≡ s.woken ++ (n.addr ∷ []))
        × ((cancel_round canceled n rest prev s).thrown ≡ suc s.thrown)
  round-woken n rest none s = (refl, refl)
  round-woken n rest (some q) s = (refl, refl)

  pub cancel_sync-woken :
      (ns : List SyncMsg) (prev : Option ℕ) (s : Cancelled)
      → (cancel_sync canceled hit ns prev s).woken ≡ s.woken ++ map sync_addr (hits ns)
  unfolding cancel_sync
  cancel_sync-woken [] prev s = sym (append-nil s.woken)
  cancel_sync-woken (n ∷ ns) prev s = elim (Bool-cases (hit n.body)) [
    | inl t ↦
        rw (keep_if-take (λ (k : SyncMsg). hit k.body) n ns t, t, cancel_sync)
          (cancel_sync-woken ns (next_prev true n prev) (cancel_round canceled n ns prev s)
            ∙ ap (λ l. l ++ map sync_addr (hits ns)) (round-woken n ns prev s).0
            ∙ append_assoc s.woken (n.addr ∷ []) (map sync_addr (hits ns)))
    | inr t ↦
        rw (keep_if-skip (λ (k : SyncMsg). hit k.body) n ns t, t, cancel_sync)
          (cancel_sync-woken ns (some n.addr) s)
  ]

  pub cancel_sync-thrown :
      (ns : List SyncMsg) (prev : Option ℕ) (s : Cancelled)
      → (cancel_sync canceled hit ns prev s).thrown ≡ s.thrown + length (hits ns)
  unfolding cancel_sync
  cancel_sync-thrown [] prev s = omega arith
  cancel_sync-thrown (n ∷ ns) prev s = elim (Bool-cases (hit n.body)) [
    | inl t ↦
        rw (keep_if-take (λ (k : SyncMsg). hit k.body) n ns t, t, cancel_sync)
          (omega (
            arith,
            cancel_sync-thrown ns (next_prev true n prev) (cancel_round canceled n ns prev s),
            (round-woken n ns prev s).1,
          ))
    | inr t ↦
        rw (keep_if-skip (λ (k : SyncMsg). hit k.body) n ns t, t, cancel_sync)
          (cancel_sync-thrown ns (some n.addr) s)
  ]

  -- Two messages in a row that are hit behind one that is not, all at different addresses: both senders are
  -- woken, and the second message is marked as cancelled and stays in the list.
  pub cancel_sync_survivor :
      (a b c : SyncMsg)
      → hit a.body ≡ false
      → hit b.body ≡ true
      → hit c.body ≡ true
      → a.addr ≢ b.addr
      → a.addr ≢ c.addr
      → b.addr ≢ c.addr
      → let s = cancel_sync canceled hit (a ∷ b ∷ c ∷ []) none (start_at (a ∷ b ∷ c ∷ [])) in
        (s.chain ≡ a ∷ cancel_node canceled c ∷ []) × (s.woken ≡ b.addr ∷ c.addr ∷ [])
  unfolding cancel_sync set_next
  cancel_sync_survivor a b c ma hb hc ab ac bc =
      rw (ma, hb, hc)
        (simp
          (
            ==_false a.addr b.addr ab,
            ==_false a.addr c.addr ac,
            ==_refl,
            ==_false c.addr b.addr (λ e. bc (sym e)),
          )
          (refl, refl))

  -- The last message of the list is hit, and the one before it is not: the list then ends with that one.
  pub cancel_sync_last :
      (a b : SyncMsg)
      → hit a.body ≡ false
      → hit b.body ≡ true
      → a.addr ≢ b.addr
      → (cancel_sync canceled hit (a ∷ b ∷ []) none (start_at (a ∷ b ∷ []))).chain ≡ a ∷ []
  unfolding cancel_sync set_next
  cancel_sync_last a b ma hb ab = rw (ma, hb) (rw (==_false a.addr b.addr ab, ==_refl a.addr))

-- With every message hit the list empties from its head, and each sender is woken, in order.
cancel_all-chain :
    (canceled : ℤ) (ns : List SyncMsg) (s : Cancelled)
    → s.chain ≡ ns
    → (cancel_sync canceled (λ m. true) ns none s).chain ≡ []
unfolding cancel_sync
cancel_all-chain canceled [] s e = e
cancel_all-chain canceled (n ∷ ns) s e =
    cancel_all-chain canceled ns (cancel_round canceled n ns none s) refl

keep_all : (ns : List SyncMsg) → keep_if (λ n. true) ns ≡ ns
keep_all [] = refl
keep_all (n ∷ ns) = ap (λ l. n ∷ l) (keep_all ns)

-- `EmptyMessageQueue` leaves no message of any kind and no flag, and wakes the sender of every
-- synchronous message that waited, in their order.
pub emptied_lem :
    (canceled : ℤ) (q : MsgQueue)
    → let (q', woken) = emptied canceled q in
      (q'.sync ≡ [])
      × (q'.notify ≡ [])
      × (contents q'.ring ≡ [])
      × (q'.state ≡ qs_empty)
      × (woken ≡ map sync_addr q.sync)
unfolding emptied
emptied_lem canceled q = (
  cancel_all-chain canceled q.sync (start_at q.sync) refl,
  refl,
  contents_empty (record (q.ring) { readpos = 0; writepos = 0 }) refl,
  refl,
  cancel_sync-woken canceled (λ m. true) q.sync none (start_at q.sync)
      ∙ ap (map sync_addr) (keep_all q.sync),
)
