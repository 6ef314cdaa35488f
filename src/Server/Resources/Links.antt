-- ===== src/Server/Resources/Links.antt =====
-- The links of a client's resources, as the list of its resources.
use aple.Base.{
  ℕ, ◌≡◌, ◌≢◌, refl, ap, sym, ◌∙◌, subst, Option, none, some, List, [], ◌∷◌, ==_refl, ==_false,
  if◌then◌else◌,
}
use aple.Chain.{Apart, Distinct}
use aple.Server.Resources.{GlobalRes, Store, write, with_prev, set_prev, add_global_res}

-- A resource of a client, at its address.
pub record Res : Type 0 where
  pub addr : ℕ
  pub key : ℕ
  pub res : ℕ
  pub release_proc : Option ℕ

abbrev pub addr_of : Res → ℕ
addr_of x = x.addr

abbrev pub block_of : Res → Option ℕ → Option ℕ → GlobalRes
block_of x next prev = record {
  next = next;
  prev = prev;
  key = x.key;
  res = x.res;
  release_proc = x.release_proc;
}

-- The address of the first.
abbrev pub first_of : List Res → Option ℕ
first_of [] = none
first_of (x ∷ xs) = some x.addr

-- The blocks of the resources, linked in both directions, with what is before them.
abbrev pub Linked : (ℕ → Option GlobalRes) → Option ℕ → List Res → Type 0
Linked blocks prev [] = Unit
Linked blocks prev (x ∷ xs) =
    (blocks x.addr ≡ some (block_of x (first_of xs) prev)) × Linked blocks (some x.addr) xs

-- What the server's store holds for a client.
pub record Keeps (s : Store) (xs : List Res) : Type 0 where
  pub first : s.global_res ≡ first_of xs
  pub links : Linked s.blocks none xs
  pub distinct : Distinct addr_of xs

pub write_same :
    (blocks : ℕ → Option GlobalRes) (p : ℕ) (b : Option GlobalRes) → write blocks p b p ≡ b
write_same blocks p b = ap (λ x. if x then b else blocks p) (==_refl p)

pub write_other :
    (blocks : ℕ → Option GlobalRes) (p k : ℕ) (b : Option GlobalRes)
    → k ≢ p
    → write blocks p b k ≡ blocks k
write_other blocks p k b n = ap (λ x. if x then b else blocks k) (==_false k p n)

-- A write beside the blocks.
pub Linked-write :
    (blocks : ℕ → Option GlobalRes) (p : ℕ) (b : Option GlobalRes) (prev : Option ℕ) (xs : List Res)
    → Apart addr_of p xs
    → Linked blocks prev xs
    → Linked (write blocks p b) prev xs
Linked-write blocks p b prev [] a l = tt
Linked-write blocks p b prev (x ∷ xs) (n, a) (at, l) =
    (write_other blocks p x.addr b n ∙ at, Linked-write blocks p b (some x.addr) xs a l)

-- The first of the blocks gets another one before it.
pub Linked-set_prev :
    (blocks : ℕ → Option GlobalRes) (old prev : Option ℕ) (xs : List Res)
    → Distinct addr_of xs
    → Linked blocks old xs
    → Linked (set_prev blocks (first_of xs) prev) prev xs
Linked-set_prev blocks old prev [] d l = tt
Linked-set_prev blocks old prev (x ∷ xs) (a, d) (at, l) = (
  write_same blocks x.addr (with_prev (blocks x.addr) prev) ∙ ap (λ b. with_prev b prev) at,
  Linked-write blocks x.addr _ (some x.addr) xs a l,
)

pub Apart-first :
    (blocks : ℕ → Option GlobalRes) (p : ℕ) (xs : List Res) (prev : Option ℕ)
    → Apart addr_of p xs
    → set_prev blocks (first_of xs) prev p ≡ blocks p
Apart-first blocks p [] prev a = refl
Apart-first blocks p (x ∷ xs) prev (n, a) = write_other blocks x.addr p _ (λ e. n (sym e))

-- A resource that is added at a fresh address is the first of the client's, and the links of all are right.
pub add-Keeps :
    (s : Store) (xs : List Res) (x : Res)
    → Keeps s xs
    → Apart addr_of x.addr xs
    → Keeps (add_global_res s (some x.addr) x.key x.res x.release_proc) (x ∷ xs)
unfolding add_global_res
add-Keeps s xs x v fresh = record {
  first = refl;
  links =
      subst
        (λ h.
          (set_prev (write s.blocks x.addr (some (block_of x h none))) h (some x.addr) x.addr
            ≡ some (block_of x (first_of xs) none))
          × Linked (set_prev (write s.blocks x.addr (some (block_of x h none))) h (some x.addr))
              (some x.addr) xs)
        (sym v.first)
        (
          Apart-first _ x.addr xs (some x.addr) fresh ∙ write_same s.blocks x.addr _,
          Linked-set_prev _ none (some x.addr) xs v.distinct
              (Linked-write s.blocks x.addr _ none xs fresh v.links),
        );
  distinct = (fresh, v.distinct);
}
