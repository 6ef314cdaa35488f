-- ===== src/Chain/Sweep.antt =====
-- What the loop of `__mg_throw_away_messages` over the notification messages leaves.
use aple.Base.{
  ℕ, suc, ◌+◌, ◌≡◌, refl, ap, sym, subst, ◌∙◌, Bool, not, Option, none, some, List, [], ◌∷◌, ◌++◌,
  arith, last?, append_assoc, length, keep_if, keep_if-take, keep_if-skip, Bool-cases, inl, inr,
  ◌⊎◌,
}
use aple.Chain.{addr?, Apart, Distinct, set_next_snoc, last?_snoc, Distinct-before, Distinct-remove}
use aple.Chain.Fifo.{Sweep, IsChain, relast, unlink, sweep, last-Apart}

last?-append {ℓ} :
    {A : Type ℓ} (xs : List A) (y : A) (ys : List A) → last? (xs ++ (y ∷ ys)) ≡ last? (y ∷ ys)
last?-append [] y ys = refl
last?-append (x ∷ []) y ys = refl
last?-append (x ∷ z ∷ xs) y ys = last?-append (z ∷ xs) y ys

module _ {A : Type 0} (addr : A → ℕ) where
  relast_end :
      (last : Option ℕ) (x : A) (instead : Option ℕ)
      → last ≡ some (addr x)
      → relast addr last x instead ≡ instead
  relast_end none x instead e = cc
  relast_end (some p) x instead e = ground arith

  relast_inner :
      (last : Option ℕ) (x y : A) (ys : List A) (instead : Option ℕ)
      → last ≡ addr? addr (last? (y ∷ ys))
      → Apart addr (addr x) (y ∷ ys)
      → relast addr last x instead ≡ addr? addr (last? (y ∷ ys))
  relast_inner none x y ys instead e h = e
  relast_inner (some p) x y ys instead e h =
      ground (arith, last-Apart addr (addr x) p (y ∷ ys) h (sym e))

  -- `prev` is the address of the last node that the loop has kept.
  abbrev Before : List A → Option ℕ → Type 0
  Before kept prev =
      ((kept ≡ []) × (prev ≡ none))
      ⊎ ((pre : List A) × (k : A) × (kept ≡ pre ++ (k ∷ [])) × (prev ≡ some (addr k)))

  abbrev Kept : List A → Sweep A → Type 0
  Kept xs s = (s.chain ≡ xs) × IsChain addr xs s.last

  unlink_first :
      (x : A) (rest : List A) (s : Sweep A)
      → Kept (x ∷ rest) s
      → Kept rest (unlink addr x rest none s)
  unlink_first x [] s (c, v) =
      (refl, record { at_last = relast_end s.last x none v.at_last; distinct = tt })
  unlink_first x (y ∷ ys) s (c, v) = (
    refl,
    record {
      at_last = relast_inner s.last x y ys (some (addr y)) v.at_last v.distinct.0;
      distinct = v.distinct.1;
    },
  )

  Distinct-suffix : (xs ys : List A) → Distinct addr (xs ++ ys) → Distinct addr ys
  Distinct-suffix [] ys d = d
  Distinct-suffix (x ∷ xs) ys d = Distinct-suffix xs ys d.1

  relast_after :
      (pre : List A) (k x : A) (rest : List A) (last : Option ℕ)
      → last ≡ addr? addr (last? (pre ++ (k ∷ x ∷ rest)))
      → Distinct addr (x ∷ rest)
      → relast addr last x (some (addr k)) ≡ addr? addr (last? (pre ++ (k ∷ rest)))
  relast_after pre k x [] last e d =
      relast_end last x (some (addr k)) (e ∙ ap (addr? addr) (last?-append pre k (x ∷ [])))
      ∙ ap (addr? addr) (sym (last?_snoc addr pre k))
  relast_after pre k x (y ∷ ys) last e d =
      relast_inner last x y ys (some (addr k))
        (e ∙ ap (addr? addr) (last?-append pre k (x ∷ y ∷ ys))) d.0
      ∙ ap (addr? addr) (sym (last?-append pre k (y ∷ ys)))

  unlink_after :
      (pre : List A) (k x : A) (rest : List A) (s : Sweep A)
      → Kept (pre ++ (k ∷ x ∷ rest)) s
      → Kept (pre ++ (k ∷ rest)) (unlink addr x rest (some (addr k)) s)
  unlink_after pre k x rest s (c, v) = (
    rw c (
        set_next_snoc addr rest pre (x ∷ rest) k
          (Distinct-before addr pre k (x ∷ rest) v.distinct)),
    record {
      at_last =
          relast_after pre k x rest s.last v.at_last
            (Distinct-suffix pre (k ∷ x ∷ rest) v.distinct).1;
      distinct = subst (Distinct addr) (append_assoc pre (k ∷ []) rest) (
          Distinct-remove addr (pre ++ (k ∷ [])) x rest
            (subst (Distinct addr) (sym (append_assoc pre (k ∷ []) (x ∷ rest))) v.distinct));
    },
  )

  unlink-Kept :
      (kept : List A) (prev : Option ℕ) (x : A) (rest : List A) (s : Sweep A)
      → Before kept prev
      → Kept (kept ++ (x ∷ rest)) s
      → Kept (kept ++ rest) (unlink addr x rest prev s)
  unlink-Kept kept prev x rest s (inl (e, f)) h =
      subst (λ p. Kept (kept ++ rest) (unlink addr x rest p s)) (sym f)
        (subst (λ l. Kept (l ++ rest) (unlink addr x rest none s)) (sym e)
          (unlink_first x rest s (subst (λ l. Kept (l ++ (x ∷ rest)) s) e h)))
  unlink-Kept kept prev x rest s (inr (pre, k, e, f)) h =
      subst (λ p. Kept (kept ++ rest) (unlink addr x rest p s)) (sym f)
        (subst (λ l. Kept l (unlink addr x rest (some (addr k)) s))
          (sym (ap (λ l. l ++ rest) e ∙ append_assoc pre (k ∷ []) rest))
          (unlink_after pre k x rest s (
            subst (λ l. Kept l s)
              (ap (λ l. l ++ (x ∷ rest)) e ∙ append_assoc pre (k ∷ []) (x ∷ rest)) h)))

  thrown-unlink :
      (x : A) (rest : List A) (prev : Option ℕ) (s : Sweep A)
      → (unlink addr x rest prev s).thrown ≡ suc s.thrown
  thrown-unlink x rest none s = refl
  thrown-unlink x rest (some q) s = refl

  -- The loop from a node on, behind the nodes that it has kept.
  sweep-Kept :
      (hit : A → Bool) (cursor kept : List A) (prev : Option ℕ) (s : Sweep A)
      → Before kept prev
      → Kept (kept ++ cursor) s
      → Kept (kept ++ keep_if (λ x. not (hit x)) cursor) (sweep addr hit cursor prev s)
  unfolding sweep
  sweep-Kept hit [] kept prev s b h = h
  sweep-Kept hit (x ∷ rest) kept prev s b h = elim (Bool-cases (hit x)) [
    | inl t ↦
        rw (keep_if-skip (λ x. not (hit x)) x rest (ap not t), t, sweep)
          (sweep-Kept hit rest kept prev (unlink addr x rest prev s) b
            (unlink-Kept kept prev x rest s b h))
    | inr t ↦
        rw (keep_if-take (λ x. not (hit x)) x rest (ap not t), t, sweep)
          (subst (λ l. Kept l (sweep addr hit rest (some (addr x)) s))
            (append_assoc kept (x ∷ []) (keep_if (λ y. not (hit y)) rest))
            (sweep-Kept hit rest (kept ++ (x ∷ [])) (some (addr x)) s (inr (kept, x, refl, refl))
              (subst (λ l. Kept l s) (sym (append_assoc kept (x ∷ []) rest)) h)))
  ]

  sweep-thrown :
      (hit : A → Bool) (cursor : List A) (prev : Option ℕ) (s : Sweep A)
      → (sweep addr hit cursor prev s).thrown ≡ s.thrown + length (keep_if hit cursor)
  unfolding sweep
  sweep-thrown hit [] prev s = omega arith
  sweep-thrown hit (x ∷ rest) prev s = elim (Bool-cases (hit x)) [
    | inl t ↦
        rw (keep_if-take hit x rest t, t, sweep)
          (omega (
            arith,
            sweep-thrown hit rest prev (unlink addr x rest prev s),
            thrown-unlink x rest prev s,
          ))
    | inr t ↦ rw (keep_if-skip hit x rest t, t, sweep) (sweep-thrown hit rest (some (addr x)) s)
  ]

  -- The loop over the whole list keeps exactly the nodes that the test does not hit, in order, with the
  -- last pointer at the last of them, and counts those that it throws away.
  pub sweep_lem :
      (hit : A → Bool) (xs : List A) (last : Option ℕ)
      → IsChain addr xs last
      → let s = sweep addr hit xs none (record { chain = xs; last = last; thrown = 0 }) in
        (s.chain ≡ keep_if (λ x. not (hit x)) xs)
        × IsChain addr (keep_if (λ x. not (hit x)) xs) s.last
        × (s.thrown ≡ length (keep_if hit xs))
  sweep_lem hit xs last v =
      let (c, d) =
        sweep-Kept hit xs [] none (record { chain = xs; last = last; thrown = 0 })
          (inl (refl, refl)) (refl, v) in
      (
        c,
        d,
        omega (arith, sweep-thrown hit xs none (record { chain = xs; last = last; thrown = 0 })),
      )
