-- ===== src/Chain.antt =====
-- Singly linked lists of nodes at addresses, seen as the list of the nodes that the head pointer
-- reaches. A node's `next` is the node behind it.
pub mod Fifo
pub mod Sweep
use aple.Base.{
  ℕ, suc, ◌≡◌, refl, ap, sym, ◌∙◌, ◌≢◌, Bool, true, false, Option, none, some, List, [], ◌∷◌, ◌++◌,
  ◌==◌, if◌then◌else◌, arith, head?, last?, append_assoc, append-nil,
}

module _ {A : Type 0} (addr : A → ℕ) where
  -- `p->next = rest`, as the head sees it: what follows the node at `p` is replaced by the nodes that
  -- `rest` reaches. A node that the head does not reach is written without effect on the list.
  unfoldable pub set_next : ℕ → List A → List A → List A
  set_next p rest [] = []
  set_next p rest (x ∷ xs) = if addr x == p then x ∷ rest else x ∷ set_next p rest xs

  -- The address of a node that may be NULL.
  abbrev pub addr? : Option A → Option ℕ
  addr? none = none
  addr? (some x) = some (addr x)

  -- No node of the list has the address.
  abbrev pub Apart : ℕ → List A → Type 0
  Apart p [] = Unit
  Apart p (x ∷ xs) = (addr x ≢ p) × Apart p xs

  abbrev pub Distinct : List A → Type 0
  Distinct [] = Unit
  Distinct (x ∷ xs) = Apart (addr x) xs × Distinct xs

  pub set_next-Apart : (p : ℕ) (rest xs : List A) → Apart p xs → set_next p rest xs ≡ xs
  unfolding set_next
  set_next-Apart p rest [] h = refl
  set_next-Apart p rest (x ∷ xs) h = ground (arith, set_next-Apart p rest xs h.1)

  -- The last node, where the addresses before it differ from its own.
  pub set_next_snoc :
      (rest pre tail : List A) (x : A)
      → Apart (addr x) pre
      → set_next (addr x) rest (pre ++ (x ∷ tail)) ≡ pre ++ (x ∷ rest)
  unfolding set_next
  set_next_snoc rest [] tail x h = ground arith
  set_next_snoc rest (y ∷ pre) tail x h = ground (arith, set_next_snoc rest pre tail x h.1)

  pub last?_snoc : (pre : List A) (x : A) → last? (pre ++ (x ∷ [])) ≡ some x
  last?_snoc [] x = refl
  last?_snoc (y ∷ []) x = refl
  last?_snoc (y ∷ z ∷ pre) x = last?_snoc (z ∷ pre) x

  pub Apart-append : (p : ℕ) (xs ys : List A) → Apart p (xs ++ ys) → Apart p xs × Apart p ys
  Apart-append p [] ys h = (tt, h)
  Apart-append p (x ∷ xs) ys h = ((h.0, (Apart-append p xs ys h.1).0), (Apart-append p xs ys h.1).1)

  pub append-Apart : (p : ℕ) (xs ys : List A) → Apart p xs → Apart p ys → Apart p (xs ++ ys)
  append-Apart p [] ys h k = k
  append-Apart p (x ∷ xs) ys h k = (h.0, append-Apart p xs ys h.1 k)

  -- In a list of distinct addresses a node's address is none of those before it.
  pub Distinct-before :
      (pre : List A) (x : A) (tail : List A) → Distinct (pre ++ (x ∷ tail)) → Apart (addr x) pre
  Distinct-before [] x tail d = tt
  Distinct-before (y ∷ pre) x tail d =
      (λ e. (Apart-append (addr y) pre (x ∷ tail) d.0).1.0 (sym e), Distinct-before pre x tail d.1)

  pub Distinct-remove :
      (pre : List A) (x : A) (tail : List A) → Distinct (pre ++ (x ∷ tail)) → Distinct (pre ++ tail)
  Distinct-remove [] x tail d = d.1
  Distinct-remove (y ∷ pre) x tail d =
      let (h, k) = Apart-append (addr y) pre (x ∷ tail) d.0 in
      (append-Apart (addr y) pre tail h k.1, Distinct-remove pre x tail d.1)

  pub Distinct-snoc :
      (xs : List A) (x : A) → Distinct xs → Apart (addr x) xs → Distinct (xs ++ (x ∷ []))
  Distinct-snoc [] x d h = (tt, tt)
  Distinct-snoc (y ∷ xs) x d h =
      (append-Apart (addr y) xs (x ∷ []) d.0 ((λ e. h.0 (sym e)), tt), Distinct-snoc xs x d.1 h.1)
