-- ===== src/Thread/Keys/Values.antt =====
-- The values behind a key: a creation clears them, and they are set and read in a thread of their own.
use aple.Base.{
  ℕ, zero, suc, ◌/◌, ◌%◌, ◌<◌, ◌≡◌, ◌≢◌, refl, sym, ap, ◌∙◌, subst, Bool, true, false, Option, none,
  some, List, [], ◌∷◌, ◌==◌, ==_refl, ==_iff, if◌then◌else◌, length, length-set, get_or, set,
  get_or-set_self, get_or-set_ne, Bool-cases, inl, inr, ◌⊎◌, arith,
}
use aple.Thread.{success, Info, Threads}
use aple.Thread.Exit.{key_free, value_of, store_value}
use aple.Thread.Keys.{
  take_key, clear_key, cleared_at, with_key, key_create, key_delete, setspecific, getspecific,
}
use aple.Thread.Keys.Words.{
  Words, Taken, take_key-TakenBy, key_taken-Taken, get_or-set_default, set_again, key_free-clear,
  bit_kept,
}

set-set : {A : Type 0} (xs : List A) (i : ℕ) (d : A) → set (set xs i d) i d ≡ set xs i d
set-set [] i d = refl
set-set (x ∷ xs) zero d = refl
set-set (x ∷ xs) (suc i) d = ap (λ l. x ∷ l) (set-set xs i d)

-- The values are as they were or cleared at the key.
abbrev ClearedOr : ℕ → List ℕ → List ℕ → Type 0
ClearedOr key old new = (new ≡ old) ⊎ (new ≡ set old key 0)

ClearedOr-trans :
    (key : ℕ) (xs ys zs : List ℕ) → ClearedOr key xs ys → ClearedOr key ys zs → ClearedOr key xs zs
ClearedOr-trans key xs ys zs (inl e) (inl f) = inl (f ∙ e)
ClearedOr-trans key xs ys zs (inl e) (inr f) = inr (f ∙ ap (λ l. set l key 0) e)
ClearedOr-trans key xs ys zs (inr e) (inl f) = inr (f ∙ e)
ClearedOr-trans key xs ys zs (inr e) (inr f) = inr (f ∙ ap (λ l. set l key 0) e ∙ set-set xs key 0)

ClearedOr-set : (key : ℕ) (xs ys : List ℕ) → ClearedOr key (set xs key 0) ys → ys ≡ set xs key 0
ClearedOr-set key xs ys (inl e) = e
ClearedOr-set key xs ys (inr e) = e ∙ set-set xs key 0

set-ClearedOr : (key : ℕ) (xs ys : List ℕ) → ClearedOr key xs ys → set ys key 0 ≡ set xs key 0
set-ClearedOr key xs ys (inl e) = ap (λ l. set l key 0) e
set-ClearedOr key xs ys (inr e) = ap (λ l. set l key 0) e ∙ set-set xs key 0

cleared_at-here :
    (key a : ℕ) (infos : ℕ → Info) → (cleared_at key a infos a).values ≡ set (infos a).values key 0
cleared_at-here key a infos = rw (==_refl a) refl

cleared_at-ClearedOr :
    (key a b : ℕ) (infos : ℕ → Info)
    → ClearedOr key (infos a).values (cleared_at key b infos a).values
cleared_at-ClearedOr key a b infos = elim (Bool-cases (a == b)) [
  | inl t ↦
      subst (λ c. ClearedOr key (infos a).values (cleared_at key c infos a).values)
        ((==_iff a b).0 t) (inr (cleared_at-here key a infos))
  | inr t ↦ inl (rw t refl)
]

clear_key-ClearedOr :
    (ss : List (Option ℕ)) (key a : ℕ) (infos : ℕ → Info)
    → ClearedOr key (infos a).values (clear_key ss key infos a).values
unfolding clear_key
clear_key-ClearedOr [] key a infos = inl refl
clear_key-ClearedOr (none ∷ ss) key a infos = clear_key-ClearedOr ss key a infos
clear_key-ClearedOr (some b ∷ ss) key a infos =
    ClearedOr-trans key (infos a).values (cleared_at key b infos a).values _
      (cleared_at-ClearedOr key a b infos) (clear_key-ClearedOr ss key a (cleared_at key b infos))

clear_key-table :
    (ss : List (Option ℕ)) (slot key a : ℕ) (infos : ℕ → Info)
    → get_or ss slot none ≡ some a
    → (clear_key ss key infos a).values ≡ set (infos a).values key 0
unfolding clear_key
clear_key-table [] slot key a infos h = absurd cc
clear_key-table (none ∷ ss) zero key a infos h = absurd cc
clear_key-table (some b ∷ ss) zero key a infos h =
    let e = ap (λ (o : Option ℕ). elim o [ none ↦ b | some i ↦ i ]) h in
    ClearedOr-set key (infos a).values _ (
      subst (λ l. ClearedOr key l (clear_key ss key (cleared_at key b infos) a).values)
        (ap (λ c. (cleared_at key c infos a).values) e ∙ cleared_at-here key a infos)
        (clear_key-ClearedOr ss key a (cleared_at key b infos)))
clear_key-table (none ∷ ss) (suc slot) key a infos h = clear_key-table ss slot key a infos h
clear_key-table (some b ∷ ss) (suc slot) key a infos h =
    clear_key-table ss slot key a (cleared_at key b infos) h
    ∙ set-ClearedOr key (infos a).values (cleared_at key b infos a).values
        (cleared_at-ClearedOr key a b infos)

module _ (v : Threads) (destructor key : ℕ) (new : List (List Bool))
    (t : Taken v.keys 0 new key) where
  word_is : key / 32 ≡ t.word
  word_is = omega (arith, t.at, t.small)

  bit_is : key % 32 ≡ t.bit
  bit_is = omega (arith, t.at, t.small)

  key_free-before : key_free v key ≡ true
  unfolding key_free
  key_free-before = rw (word_is, bit_is) t.was_free

  key_free-after : key_free (with_key v destructor new key) key ≡ false
  unfolding key_free with_key
  key_free-after = rw (word_is, bit_is, t.written) (key_free-clear v.keys t.word t.bit)

  apart : (other : ℕ) → other ≢ key → (other / 32 ≢ t.word) ⊎ (other % 32 ≢ t.bit)
  apart other ne = elim (Bool-cases (other / 32 == t.word)) [
    | inl e ↦ inr (λ f. ne (omega (arith, t.at, t.small, f, (==_iff (other / 32) t.word).0 e)))
    | inr e ↦ inl (λ f. ground (arith, e, f))
  ]

  key_free-other :
      (other : ℕ) → other ≢ key → key_free (with_key v destructor new key) other ≡ key_free v other
  unfolding key_free with_key
  key_free-other other ne =
      rw t.written (bit_kept v.keys t.word t.bit (other / 32) (other % 32) false (apart other ne))

  key_free-delete :
      (self x : ℕ)
      → key_free (key_delete (store_value (with_key v destructor new key) self key x) key).0 key
        ≡ true
  unfolding key_free with_key key_delete
  key_free-delete self x =
      rw (word_is, bit_is, t.written) (set_again v.keys t.word t.bit t.was_free)

-- Where `w` holds a key that is new since `v`: it was free; the thread reads NULL, sets a value with
-- success and reads it back, another key reads as before, and behind the deletion of the key NULL is read.
abbrev pub Held : Threads → Threads → ℕ → ℕ → ℕ → ℕ → Type 0
Held v w self key other x =
    (key_free v key ≡ true)
    × (getspecific w self key ≡ 0)
    × ((setspecific w self key x).1 ≡ success)
    × (getspecific (setspecific w self key x).0 self key ≡ x)
    × (getspecific (setspecific w self key x).0 self other ≡ getspecific v self other)
    × (getspecific (key_delete (setspecific w self key x).0 key).0 self key ≡ 0)

module _ (v w : Threads) (self key other x : ℕ) (was_free : key_free v key ≡ true)
    (taken : key_free w key ≡ false) (same : key_free w other ≡ key_free v other)
    (cleared : (w.infos self).values ≡ set (v.infos self).values key 0)
    (room : key < length (v.infos self).values) (ne : other ≢ key) where
  setspecific-taken : setspecific w self key x ≡ (store_value w self key x, success)
  unfolding setspecific
  setspecific-taken = rw taken refl

  value_of-cleared : value_of w self key ≡ 0
  value_of-cleared = rw cleared (get_or-set_default (v.infos self).values key 0)

  getspecific-cleared : getspecific w self key ≡ 0
  unfolding getspecific
  getspecific-cleared = rw taken value_of-cleared

  values-stored :
      ((store_value w self key x).infos self).values ≡ set (set (v.infos self).values key 0) key x
  values-stored = rw (==_refl self, cleared) refl

  getspecific-stored : getspecific (store_value w self key x) self key ≡ x
  unfolding getspecific key_free
  getspecific-stored =
      ap (λ b. if b then 0 else value_of (store_value w self key x) self key) taken
      ∙ ap (λ l. get_or l key 0) values-stored
      ∙ get_or-set_self (set (v.infos self).values key 0) key x 0
          (omega (arith, room, length-set (v.infos self).values key 0))

  getspecific-other : getspecific (store_value w self key x) self other ≡ getspecific v self other
  unfolding getspecific key_free
  getspecific-other =
      ap (λ b. if b then 0 else value_of (store_value w self key x) self other) same
      ∙ ap (λ l. if key_free v other then 0 else get_or l other 0) values-stored
      ∙ ap (λ n. if key_free v other then 0 else n)
          (get_or-set_ne (set (v.infos self).values key 0) x 0 (λ e. ne (sym e))
            ∙ get_or-set_ne (v.infos self).values 0 0 (λ e. ne (sym e)))

  getspecific-deleted :
      key_free (key_delete (store_value w self key x) key).0 key ≡ true
      → getspecific (key_delete (store_value w self key x) key).0 self key ≡ 0
  unfolding getspecific
  getspecific-deleted e = rw e refl

  Held-taken :
      key_free (key_delete (store_value w self key x) key).0 key ≡ true → Held v w self key other x
  Held-taken e = (
    was_free,
    getspecific-cleared,
    ap (λ r. r.1) setspecific-taken,
    ap (λ r. getspecific r.0 self key) setspecific-taken ∙ getspecific-stored,
    ap (λ r. getspecific r.0 self other) setspecific-taken ∙ getspecific-other,
    ap (λ r. getspecific (key_delete r.0 key).0 self key) setspecific-taken ∙ getspecific-deleted e,
  )

-- Where a creation gives a key, in words of at most 32 bits, for a thread that stands in the table and has a
-- value for the key, the key was free; the thread reads NULL, sets a value with success and reads it back,
-- another key reads as before the creation, and behind the deletion of the key NULL is read.
pub key_create-Held :
    (v : Threads) (destructor key self slot other x : ℕ)
    → Words v.keys
    → (key_create v destructor).2 ≡ some key
    → get_or v.table slot none ≡ some self
    → key < length (v.infos self).values
    → other ≢ key
    → Held v (key_create v destructor).0 self key other x
unfolding key_create
key_create-Held v destructor key self slot other x sized given at room ne =
    let (new, e, t) =
      key_taken-Taken v destructor key (take_key v.keys 0) (take_key-TakenBy v.keys 0 sized)
        given in
    subst (λ w. Held v w self key other x) (sym e)
      (Held-taken v (with_key v destructor new key) self key other x
        (key_free-before v destructor key new t) (key_free-after v destructor key new t)
        (key_free-other v destructor key new t other ne)
        (unfold with_key in clear_key-table v.table slot key self v.infos at) room ne
        (key_free-delete v destructor key new t self x))
