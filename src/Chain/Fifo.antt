-- ===== src/Chain/Fifo.antt =====
-- A linked list with pointers to its first and last nodes: the operations of the notification and the
-- synchronous messages of source/aple/lecture-5/minigui-message.c on it, and the list that they act on.
use aple.Base.{
  ℕ, suc, ◌≡◌, ◌≢◌, refl, ap, sym, Bool, Option, none, some, List, [], ◌∷◌, ◌++◌, ◌==◌,
  if◌then◌else◌, arith, last?, head?,
}
use aple.Chain.{set_next, addr?, Apart, Distinct, last?_snoc, Distinct-snoc}

-- The loop of `__mg_throw_away_messages` over a list, between two rounds: what the first pointer
-- reaches, the last pointer, and how many nodes were thrown away.
pub record Sweep (A : Type 0) : Type 0 where
  pub chain : List A
  pub last : Option ℕ
  pub thrown : ℕ

module _ {A : Type 0} (addr : A → ℕ) where
  -- A node at the end: `pFirst == NULL` sets both pointers, else the last node's `next` is written. The
  -- assertion that the last pointer is not NULL leaves the list alone where it fails.
  unfoldable pub append_node : List A → Option ℕ → A → List A × Option ℕ
  append_node [] last x = (x ∷ [], some (addr x))
  append_node (y ∷ ys) none x = (y ∷ ys, none)
  append_node (y ∷ ys) (some p) x = (set_next addr p (x ∷ []) (y ∷ ys), some (addr x))

  -- A node at the front.
  unfoldable pub push_node : List A → Option ℕ → A → List A × Option ℕ
  push_node [] last x = (x ∷ [], some (addr x))
  push_node (y ∷ ys) last x = (x ∷ y ∷ ys, last)

  -- `pFirst = phead->next`, and no last node when that is NULL.
  unfoldable pub pop_node : List A → Option ℕ → List A × Option ℕ
  pop_node [] last = ([], last)
  pop_node (x ∷ []) last = ([], none)
  pop_node (x ∷ y ∷ ys) last = (y ∷ ys, last)

  -- The last pointer, where the node `x` is thrown away: it moves to `instead` if it was at `x`.
  abbrev pub relast : Option ℕ → A → Option ℕ → Option ℕ
  relast none x instead = none
  relast (some p) x instead = if p == addr x then instead else some p

  -- One round at the node `x`, which is followed by `rest`; `prev` is `pPrev`.
  abbrev pub unlink : A → List A → Option ℕ → Sweep A → Sweep A
  unlink x rest none s = record s {
    chain = rest;
    last = relast s.last x (addr? addr (head? rest));
    thrown = suc s.thrown;
  }
  unlink x rest (some q) s = record s {
    chain = set_next addr q rest s.chain;
    last = relast s.last x (some q);
    thrown = suc s.thrown;
  }

  unfoldable pub sweep : (A → Bool) → List A → Option ℕ → Sweep A → Sweep A
  sweep hit [] prev s = s
  sweep hit (x ∷ rest) prev s =
      sweep hit rest (if hit x then prev else some (addr x))
        (if hit x then unlink x rest prev s else s)

  -- The last pointer holds the address of the last node, and no two nodes have one address.
  pub record IsChain (xs : List A) (last : Option ℕ) : Type 0 where
    pub at_last : last ≡ addr? addr (last? xs)
    pub distinct : Distinct addr xs

  pub last-Apart :
      (a p : ℕ) (xs : List A) → Apart addr a xs → addr? addr (last? xs) ≡ some p → p ≢ a
  last-Apart a p [] h e = λ _. cc
  last-Apart a p (x ∷ []) h e = λ f. h.0 (ground (arith, f))
  last-Apart a p (x ∷ y ∷ xs) h e = last-Apart a p (y ∷ xs) h.1 e

  pub last-ne-none : (y : A) (ys : List A) → addr? addr (last? (y ∷ ys)) ≢ none
  last-ne-none y [] = λ e. cc
  last-ne-none y (z ∷ zs) = last-ne-none z zs

  -- What is written behind the last node comes at the end.
  set_next_last :
      (p : ℕ) (rest : List A) (y : A) (ys : List A)
      → addr? addr (last? (y ∷ ys)) ≡ some p
      → Distinct addr (y ∷ ys)
      → set_next addr p rest (y ∷ ys) ≡ (y ∷ ys) ++ rest
  unfolding set_next
  set_next_last p rest y [] e d = ground arith
  set_next_last p rest y (z ∷ zs) e d =
      ground (arith, last-Apart (addr y) p (z ∷ zs) d.0 e, set_next_last p rest z zs e d.1)

  -- The node goes to the end of the list.
  pub append_node_lem :
      (xs : List A) (last : Option ℕ) (x : A)
      → IsChain xs last
      → append_node xs last x ≡ (xs ++ (x ∷ []), some (addr x))
  unfolding append_node
  append_node_lem [] last x v = refl
  append_node_lem (y ∷ ys) none x v = absurd (last-ne-none y ys (sym v.at_last))
  append_node_lem (y ∷ ys) (some p) x v =
      ap (λ l. (l, some (addr x))) (set_next_last p (x ∷ []) y ys (sym v.at_last) v.distinct)

  pub append-IsChain :
      (xs : List A) (last : Option ℕ) (x : A)
      → IsChain xs last
      → Apart addr (addr x) xs
      → IsChain (xs ++ (x ∷ [])) (some (addr x))
  append-IsChain xs last x v fresh = record {
    at_last = ap (addr? addr) (sym (last?_snoc addr xs x));
    distinct = Distinct-snoc addr xs x v.distinct fresh;
  }

  pub push_node_lem :
      (xs : List A) (last : Option ℕ) (x : A)
      → IsChain xs last
      → Apart addr (addr x) xs
      → ((push_node xs last x).0 ≡ x ∷ xs) × IsChain (push_node xs last x).0 (push_node xs last x).1
  unfolding push_node
  push_node_lem [] last x v fresh = (refl, record { at_last = refl; distinct = (tt, tt) })
  push_node_lem (y ∷ ys) last x v fresh =
      (refl, record { at_last = v.at_last; distinct = (fresh, v.distinct) })

  pub pop_node-IsChain :
      (x : A) (xs : List A) (last : Option ℕ)
      → IsChain (x ∷ xs) last
      → ((pop_node (x ∷ xs) last).0 ≡ xs)
        × IsChain (pop_node (x ∷ xs) last).0 (pop_node (x ∷ xs) last).1
  unfolding pop_node
  pop_node-IsChain x [] last v = (refl, record { at_last = refl; distinct = tt })
  pop_node-IsChain x (y ∷ ys) last v =
      (refl, record { at_last = v.at_last; distinct = v.distinct.1 })
