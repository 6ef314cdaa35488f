-- ===== src/Server/Resources/Release.antt =====
-- `__mg_release_global_res`.
use aple.Base.{
  ℕ, zero, suc, ◌≤◌, ◌≡◌, refl, ap, sym, ◌∙◌, Option, none, some, List, [], ◌∷◌, ◌++◌, append_assoc,
  append-nil, length, ◌==◌, if◌then◌else◌, arith, Bool-cases, inl, inr,
}
use aple.Chain.{Distinct}
use aple.Server.Resources.{GlobalRes, Store, write, calls_of, at_block, freed, release_from}
use aple.Server.Resources.Links.{
  Res, addr_of, block_of, first_of, Linked, Keeps, write_same, Linked-write,
}

-- The calls of the release functions of the resources, in their order.
abbrev pub all_calls : List Res → List (ℕ × ℕ)
all_calls [] = []
all_calls (x ∷ xs) = calls_of x.release_proc x.res ++ all_calls xs

abbrev pub AllFreed : (ℕ → Option GlobalRes) → List Res → Type 0
AllFreed blocks [] = Unit
AllFreed blocks (x ∷ xs) = (blocks x.addr ≡ none) × AllFreed blocks xs

write-none :
    (blocks : ℕ → Option GlobalRes) (p k : ℕ) → blocks k ≡ none → write blocks p none k ≡ none
write-none blocks p k h = elim (Bool-cases (k == p)) [
  | inl t ↦ ap (λ x. if x then none else blocks k) t
  | inr t ↦ ap (λ x. if x then none else blocks k) t ∙ h
]

released_from :
    (fuel : ℕ) (s : Store) (prev : Option ℕ) (xs : List Res)
    → length xs ≤ fuel
    → Distinct addr_of xs
    → Linked s.blocks prev xs
    → (t : Store) × ((release_from fuel s (first_of xs) ≡ some t)
        × (t.released ≡ s.released ++ all_calls xs)
        × AllFreed t.blocks xs
        × (t.global_res ≡ s.global_res)
        × ((k : ℕ) → s.blocks k ≡ none → t.blocks k ≡ none))
unfolding release_from
released_from fuel s prev [] h d l = (s, (refl, sym (append-nil s.released), tt, refl, λ k e. e))
released_from zero s prev (x ∷ xs) h d l = absurd (omega arith)
released_from (suc fuel) s prev (x ∷ xs) h (a, d) (at, l) =
    let b : GlobalRes = block_of x (first_of xs) prev in
    let (t, (runs, calls, all, same, stay)) =
      released_from fuel (freed s x.addr b) (some x.addr) xs (omega (arith, h)) d
        (Linked-write s.blocks x.addr none (some x.addr) xs a l) in
    (
      t,
      (
        ap (λ o. at_block o (λ c. release_from fuel (freed s x.addr c) c.next)) at ∙ runs,
        calls ∙ append_assoc s.released (calls_of x.release_proc x.res) (all_calls xs),
        (stay x.addr (write_same s.blocks x.addr none), all),
        same,
        λ k e. stay k (write-none s.blocks x.addr k e),
      ),
    )

-- With fuel for as many rounds as the client has resources, `__mg_release_global_res` calls the release functions of all resources of the client in their order, each
-- once, frees all their blocks, and leaves `global_res` at the first of the freed blocks.
pub release_global_res_lem :
    (fuel : ℕ) (s : Store) (xs : List Res)
    → length xs ≤ fuel
    → Keeps s xs
    → (t : Store) × ((release_from fuel s s.global_res ≡ some t)
        × (t.released ≡ s.released ++ all_calls xs)
        × AllFreed t.blocks xs
        × (t.global_res ≡ first_of xs))
release_global_res_lem fuel s xs h v =
    let (t, (runs, calls, all, same, stay)) = released_from fuel s none xs h v.distinct v.links in
    (t, (ap (release_from fuel s) v.first ∙ runs, calls, all, same ∙ v.first))
