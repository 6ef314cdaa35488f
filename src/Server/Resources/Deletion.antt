-- ===== src/Server/Resources/Deletion.antt =====
-- `del_global_res`.
use aple.Base.{
  ℕ, zero, suc, ◌<◌, ◌≡◌, ◌≢◌, refl, ap, sym, ◌∙◌, false, Option, none, some, List, [], ◌∷◌, ◌++◌,
  length, ◌&&◌, ◌==◌, ==_refl, ==_false, if◌then◌else◌, arith,
}
use aple.Chain.{Apart, Distinct}
use aple.Server.Resources.{
  GlobalRes, Store, write, with_next, set_prev, set_next, calls_of, at_block, same_block, unlink,
  del_from,
}
use aple.Server.Resources.Links.{
  Res, addr_of, block_of, first_of, Linked, Keeps, write_same, write_other, Linked-write,
  Linked-set_prev, Apart-first,
}

-- The address of the last, or what is before all.
abbrev pub last_of : Option ℕ → List Res → Option ℕ
last_of prev [] = prev
last_of prev (x ∷ xs) = last_of (some x.addr) xs

Apart-left : (p : ℕ) (xs ys : List Res) → Apart addr_of p (xs ++ ys) → Apart addr_of p xs
Apart-left p [] ys a = tt
Apart-left p (x ∷ xs) ys (n, a) = (n, Apart-left p xs ys a)

Apart-right : (p : ℕ) (xs ys : List Res) → Apart addr_of p (xs ++ ys) → Apart addr_of p ys
Apart-right p [] ys a = a
Apart-right p (x ∷ xs) ys (n, a) = Apart-right p xs ys a

-- An address apart from the resources is not that of the last of them.
Apart-last :
    (blocks : ℕ → Option GlobalRes) (p z : ℕ) (zs : List Res) (next : Option ℕ)
    → z ≢ p
    → Apart addr_of p zs
    → set_next blocks (last_of (some z) zs) next p ≡ blocks p
Apart-last blocks p z [] next n a = write_other blocks z p _ (λ e. n (sym e))
Apart-last blocks p z (y ∷ zs) next n (m, a) = Apart-last blocks p y.addr zs next m a

-- What is before the resources is none of them.
abbrev pub Before : Option ℕ → List Res → Type 0
Before none xs = Unit
Before (some p) xs = Apart addr_of p xs

Linked-set_next :
    (blocks : ℕ → Option GlobalRes) (p : Option ℕ) (next prev : Option ℕ) (xs : List Res)
    → Before p xs
    → Linked blocks prev xs
    → Linked (set_next blocks p next) prev xs
Linked-set_next blocks none next prev xs a l = l
Linked-set_next blocks (some p) next prev xs a l = Linked-write blocks p _ prev xs a l

-- The blocks without the one of `x`, with the links around it.
abbrev pub cut :
    (ℕ → Option GlobalRes) → Option ℕ → List Res → Res → List Res → ℕ → Option GlobalRes
cut blocks prev pre x post =
    write
      (set_prev (set_next blocks (last_of prev pre) (first_of post)) (first_of post)
        (last_of prev pre))
      x.addr none

Before-rest : (prev : Option ℕ) (x : Res) (xs : List Res) → Before prev (x ∷ xs) → Before prev xs
Before-rest none x xs b = tt
Before-rest (some p) x xs (n, b) = b

cut-Apart :
    (blocks : ℕ → Option GlobalRes) (prev : Option ℕ) (pre : List Res) (x : Res) (post : List Res)
    (p : ℕ)
    → x.addr ≢ p
    → Apart addr_of p post
    → cut blocks prev pre x post p ≡ set_next blocks (last_of prev pre) (first_of post) p
cut-Apart blocks prev pre x post p n a =
    let joined : ℕ → Option GlobalRes = set_next blocks (last_of prev pre) (first_of post) in
    write_other (set_prev joined (first_of post) (last_of prev pre)) x.addr p none (λ e. n (sym e))
    ∙ Apart-first joined p post (last_of prev pre) a

cut-Linked :
    (blocks : ℕ → Option GlobalRes) (prev : Option ℕ) (pre : List Res) (x : Res) (post : List Res)
    → Distinct addr_of (pre ++ (x ∷ post))
    → Before prev (pre ++ (x ∷ post))
    → Linked blocks prev (pre ++ (x ∷ post))
    → Linked (cut blocks prev pre x post) prev (pre ++ post)
cut-Linked blocks prev [] x post (a, d) b (at, l) = Linked-write _ x.addr none prev post a (
    Linked-set_prev _ (some x.addr) prev post d (
      Linked-set_next blocks prev (first_of post) (some x.addr) post (Before-rest prev x post b) l))
cut-Linked blocks prev (y ∷ []) x post (a, d) b (at, l) = (
  cut-Apart blocks prev (y ∷ []) x post y.addr a.0 a.1
      ∙ write_same blocks y.addr (with_next (blocks y.addr) (first_of post))
      ∙ ap (λ o. with_next o (first_of post)) at,
  cut-Linked blocks (some y.addr) [] x post d a l,
)
cut-Linked blocks prev (y ∷ z ∷ zs) x post (a, d) b (at, l) =
    let r : Apart addr_of y.addr (x ∷ post) = Apart-right y.addr zs (x ∷ post) a.1 in
    (
      cut-Apart blocks prev (y ∷ z ∷ zs) x post y.addr r.0 r.1
          ∙ Apart-last blocks y.addr z.addr zs (first_of post) a.0
              (Apart-left y.addr zs (x ∷ post) a.1)
          ∙ at,
      cut-Linked blocks (some y.addr) (z ∷ zs) x post d a l,
    )

-- None of the resources is the one that is looked for.
abbrev pub Missing : ℕ → ℕ → List Res → Type 0
Missing key res [] = Unit
Missing key res (y ∷ ys) = (((y.key == key) && (y.res == res)) ≡ false) × Missing key res ys

found_from :
    (fuel : ℕ) (s : Store) (prev : Option ℕ) (pre : List Res) (x : Res) (post : List Res)
    → length pre < fuel
    → Missing x.key x.res pre
    → Linked s.blocks prev (pre ++ (x ∷ post))
    → del_from fuel s x.key x.res (first_of (pre ++ (x ∷ post)))
      ≡ some (unlink s x.addr (block_of x (first_of post) (last_of prev pre)))
unfolding del_from
found_from zero s prev pre x post h m l = absurd (omega arith)
found_from (suc fuel) s prev [] x post h m (at, l) =
    ap
      (λ o. at_block o (λ b.
        let rest : Option Store = del_from fuel s x.key x.res b.next in
        if (b.key == x.key) && (b.res == x.res) then some (unlink s x.addr b) else rest))
      at
    ∙ ap
        (λ t.
          if t && (x.res == x.res)
          then some (unlink s x.addr (block_of x (first_of post) prev))
          else del_from fuel s x.key x.res (first_of post))
        (==_refl x.key)
    ∙ ap
        (λ t.
          if t
          then some (unlink s x.addr (block_of x (first_of post) prev))
          else del_from fuel s x.key x.res (first_of post))
        (==_refl x.res)
found_from (suc fuel) s prev (y ∷ ys) x post h (n, m) (at, l) =
    ap
      (λ o. at_block o (λ b.
        let rest : Option Store = del_from fuel s x.key x.res b.next in
        if (b.key == x.key) && (b.res == x.res) then some (unlink s y.addr b) else rest))
      at
    ∙ ap
        (λ t.
          if t
          then some (unlink s y.addr (block_of y (first_of (ys ++ (x ∷ post))) prev))
          else del_from fuel s x.key x.res (first_of (ys ++ (x ∷ post))))
        n
    ∙ found_from fuel s (some y.addr) ys x post (omega (arith, h)) m l

Apart-without :
    (p : ℕ) (pre : List Res) (x : Res) (post : List Res)
    → Apart addr_of p (pre ++ (x ∷ post))
    → Apart addr_of p (pre ++ post)
Apart-without p [] x post (n, a) = a
Apart-without p (y ∷ ys) x post (n, a) = (n, Apart-without p ys x post a)

Distinct-without :
    (pre : List Res) (x : Res) (post : List Res)
    → Distinct addr_of (pre ++ (x ∷ post))
    → Distinct addr_of (pre ++ post)
Distinct-without [] x post (a, d) = d
Distinct-without (y ∷ ys) x post (a, d) =
    (Apart-without y.addr ys x post a, Distinct-without ys x post d)

first_without :
    (g : Option ℕ) (pre : List Res) (x : Res) (post : List Res)
    → g ≡ first_of (pre ++ (x ∷ post))
    → Distinct addr_of (pre ++ (x ∷ post))
    → (if same_block g x.addr then first_of post else g) ≡ first_of (pre ++ post)
first_without g [] x post e d =
    ap (λ h. if same_block h x.addr then first_of post else h) e
    ∙ ap (λ t. if t then first_of post else some x.addr) (==_refl x.addr)
first_without g (y ∷ ys) x post e (a, d) =
    ap (λ h. if same_block h x.addr then first_of post else h) e
    ∙ ap (λ t. if t then first_of post else some y.addr)
        (==_false y.addr x.addr (λ same. (Apart-right y.addr ys (x ∷ post) a).0 (sym same)))

-- `del_global_res` of a resource of the client, the first with its key and value, with fuel above the number
-- of those before it, calls its release function once and no other, frees its block, and leaves the other resources linked in both directions, in their order.
pub del_global_res_lem :
    (fuel : ℕ) (s : Store) (pre : List Res) (x : Res) (post : List Res)
    → length pre < fuel
    → Keeps s (pre ++ (x ∷ post))
    → Missing x.key x.res pre
    → (t : Store) × ((del_from fuel s x.key x.res s.global_res ≡ some t)
        × Keeps t (pre ++ post)
        × (t.blocks x.addr ≡ none)
        × (t.released ≡ s.released ++ calls_of x.release_proc x.res))
unfolding unlink
del_global_res_lem fuel s pre x post h v m = (
  unlink s x.addr (block_of x (first_of post) (last_of none pre)),
  (
    ap (del_from fuel s x.key x.res) v.first ∙ found_from fuel s none pre x post h m v.links,
    record {
      first = first_without s.global_res pre x post v.first v.distinct;
      links = cut-Linked s.blocks none pre x post v.distinct tt v.links;
      distinct = Distinct-without pre x post v.distinct;
    },
    write_same
        (set_prev (set_next s.blocks (last_of none pre) (first_of post)) (first_of post)
          (last_of none pre))
        x.addr none,
    refl,
  ),
)
