-- ===== src/Thread/Keys/Words.antt =====
-- The words of free keys: what a search takes from them, and the bits that a write leaves.
use aple.Base.{
  ℕ, zero, suc, ◌+◌, ◌*◌, ◌≤◌, ◌<◌, ◌≡◌, ◌≢◌, refl, sym, ap, subst, Bool, true, false, Option, none,
  some, List, [], ◌∷◌, length, length-set, get_or, set, get_or-set_self, get_or-set_ne,
  Option-cases, inl, inr, ◌⊎◌, arith,
}
use aple.Thread.{Threads}
use aple.Thread.Keys.{lsbit_index, take_key, with_key, key_taken}

-- A bit that a search gives is set and within the word.
SetBit : List Bool → Option ℕ → Type 0
SetBit w none = Unit
SetBit w (some b) = (get_or w b false ≡ true) × (b < length w)

SetBit-suc :
    (w : List Bool) (o : Option ℕ)
    → SetBit w o
    → SetBit (false ∷ w) (elim o [ none ↦ none | some i ↦ some (suc i) ])
unfolding SetBit
SetBit-suc w none h = tt
SetBit-suc w (some b) (e, l) = (e, omega (arith, l))

lsbit_index-SetBit : (w : List Bool) → SetBit w (lsbit_index w)
unfolding lsbit_index SetBit
lsbit_index-SetBit [] = tt
lsbit_index-SetBit (true ∷ w) = (refl, omega arith)
lsbit_index-SetBit (false ∷ w) = SetBit-suc w (lsbit_index w) (lsbit_index-SetBit w)

-- The words as the module keeps them, with at most 32 bits each.
abbrev pub Words : List (List Bool) → Type 0
Words ws = (i : ℕ) → length (get_or ws i []) ≤ 32

-- What the search takes: the bit `b` of the word `j`, which was set.
pub record Taken (ws : List (List Bool)) (i : ℕ) (new : List (List Bool)) (key : ℕ) : Type 0 where
  pub word : ℕ
  pub bit : ℕ
  pub at : key ≡ bit + (i + word) * 32
  pub small : bit < 32
  pub was_free : get_or (get_or ws word []) bit false ≡ true
  pub written : new ≡ set ws word (set (get_or ws word []) bit false)

abbrev pub TakenBy : List (List Bool) → ℕ → Option (List (List Bool) × ℕ) → Type 0
TakenBy ws i none = Unit
TakenBy ws i (some r) = Taken ws i r.0 r.1

Words-tail : (w : List Bool) (ws : List (List Bool)) → Words (w ∷ ws) → Words ws
Words-tail w ws h i = h (suc i)

Taken-here :
    (w : List Bool) (ws : List (List Bool)) (i b : ℕ)
    → Words (w ∷ ws)
    → SetBit w (some b)
    → Taken (w ∷ ws) i (set w b false ∷ ws) (b + i * 32)
unfolding SetBit
Taken-here w ws i b sized (e, l) = record {
  word = 0;
  bit = b;
  at = omega arith;
  small = omega (arith, l, sized 0);
  was_free = e;
  written = refl;
}

TakenBy-later :
    (w : List Bool) (ws : List (List Bool)) (i : ℕ) (o : Option (List (List Bool) × ℕ))
    → TakenBy ws (i + 1) o
    → TakenBy (w ∷ ws) i (elim o [ none ↦ none | some r ↦ some (w ∷ r.0, r.1) ])
TakenBy-later w ws i none t = tt
TakenBy-later w ws i (some (new, key)) t = record {
  word = suc t.word;
  bit = t.bit;
  at = omega (arith, t.at);
  small = t.small;
  was_free = t.was_free;
  written = ap (λ l. w ∷ l) t.written;
}

pub take_key-TakenBy : (ws : List (List Bool)) (i : ℕ) → Words ws → TakenBy ws i (take_key ws i)
unfolding take_key
take_key-TakenBy [] i sized = tt
take_key-TakenBy (w ∷ ws) i sized = elim (Option-cases (lsbit_index w)) [
  | inl e ↦
      rw (e, take_key)
        (TakenBy-later w ws i (take_key ws (i + 1))
          (take_key-TakenBy ws (i + 1) (Words-tail w ws sized)))
  | inr (b, e) ↦
      rw (e, take_key) (Taken-here w ws i b sized (subst (SetBit w) e (lsbit_index-SetBit w)))
]

pub key_taken-Taken :
    (v : Threads) (destructor key : ℕ) (o : Option (List (List Bool) × ℕ))
    → TakenBy v.keys 0 o
    → (key_taken v destructor o).2 ≡ some key
    → (new : List (List Bool)) × ((key_taken v destructor o).0 ≡ with_key v destructor new key)
      × Taken v.keys 0 new key
key_taken-Taken v destructor key none t h = absurd cc
key_taken-Taken v destructor key (some (new, k)) t h =
    let e = ap (λ (o : Option ℕ). elim o [ none ↦ k | some i ↦ i ]) h in
    (new, ap (with_key v destructor new) e, subst (Taken v.keys 0 new) e t)

pub get_or-set_default : {A : Type 0} (xs : List A) (i : ℕ) (d : A) → get_or (set xs i d) i d ≡ d
get_or-set_default [] i d = refl
get_or-set_default (x ∷ xs) zero d = refl
get_or-set_default (x ∷ xs) (suc i) d = get_or-set_default xs i d

in_bounds : (w : List Bool) (b : ℕ) → get_or w b false ≡ true → b < length w
in_bounds [] b h = absurd cc
in_bounds (x ∷ w) zero h = omega arith
in_bounds (x ∷ w) (suc b) h = omega (arith, in_bounds w b h)

-- A bit that is cleared, and the others.
pub key_free-clear :
    (ws : List (List Bool)) (j b : ℕ)
    → get_or (get_or (set ws j (set (get_or ws j []) b false)) j []) b false ≡ false
key_free-clear [] j b = refl
key_free-clear (w ∷ ws) zero b = get_or-set_default w b false
key_free-clear (w ∷ ws) (suc j) b = key_free-clear ws j b

pub bit_kept :
    (ws : List (List Bool)) (j b i k : ℕ) (x : Bool)
    → ((i ≢ j) ⊎ (k ≢ b))
    → get_or (get_or (set ws j (set (get_or ws j []) b x)) i []) k false
      ≡ get_or (get_or ws i []) k false
bit_kept [] j b i k x h = refl
bit_kept (w ∷ ws) zero b zero k x (inl h) = absurd (h refl)
bit_kept (w ∷ ws) zero b zero k x (inr h) = get_or-set_ne w x false (λ e. h (sym e))
bit_kept (w ∷ ws) zero b (suc i) k x h = refl
bit_kept (w ∷ ws) (suc j) b zero k x h = refl
bit_kept (w ∷ ws) (suc j) b (suc i) k x (inl h) = bit_kept ws j b i k x (inl (λ e. h (ap suc e)))
bit_kept (w ∷ ws) (suc j) b (suc i) k x (inr h) = bit_kept ws j b i k x (inr h)

-- A bit that was set, was cleared and is set again.
pub set_again :
    (ws : List (List Bool)) (j b : ℕ)
    → get_or (get_or ws j []) b false ≡ true
    → let ns = set ws j (set (get_or ws j []) b false) in
      get_or (get_or (set ns j (set (get_or ns j []) b true)) j []) b false ≡ true
set_again [] j b h = absurd cc
set_again (w ∷ ws) zero b h =
    get_or-set_self (set w b false) b true false
      (omega (arith, length-set w b false, in_bounds w b h))
set_again (w ∷ ws) (suc j) b h = set_again ws j b h
