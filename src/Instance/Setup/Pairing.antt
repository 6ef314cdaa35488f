-- ===== src/Instance/Setup/Pairing.antt =====
-- Every module of an instance that was initialised is cleaned up.
use mathlib.Core.List.{Memᴰ}
use mathlib.Core.List.Memᴰ as Member
use aple.Base.{
  ℕ, zero, suc, ◌+◌, ◌≤◌, ◌≡◌, refl, sym, ap, ◌∙◌, subst, true, ◌&&◌, Option, none, some, List, [],
  ◌∷◌, ◌==◌, ==_iff, get_elem?, Bool-cases, inl, inr, arith,
}
use aple.Base.Bits.{bit_and, bit_or, bit_and-bit_or, bit_and-bit_or_self}
use aple.Instance.{Module, Inst, Env, Call, init, cleanup}
use aple.Instance.Modules.{within, start_modules, cleanup_calls}
use aple.Instance.Setup.{cleanup_modules}

index_of : Call → ℕ
index_of (init i) = i
index_of (Call.once i) = i
index_of (cleanup i) = i
index_of Call.destroy_map = 0
index_of Call.close_log = 0
index_of Call.unref_bt = 0
index_of (Call.set_handlers i) = 0

module _ {A : Type 0} (e : Env A) (modules : ℕ) where
  -- The flags gathered only grow.
  start_modules-keeps :
      (ms : List Module) (i inited b : ℕ)
      → bit_and b inited ≡ b
      → bit_and b (start_modules e modules ms i inited).inited ≡ b
  unfolding start_modules
  start_modules-keeps [] i inited b h = h
  start_modules-keeps (m ∷ ms) i inited b h =
      elim (Bool-cases (within m modules && m.init_instance)) [
        | inr t ↦ rw (t, start_modules) (start_modules-keeps ms (i + 1) inited b h)
        | inl t ↦ elim (Bool-cases (e.init_of i == 0)) [
          | inr u ↦ rw (t, u, start_modules) h
          | inl u ↦
              rw (t, u, start_modules)
                (start_modules-keeps ms (i + 1) (bit_or inited m.id) b
                  (bit_and-bit_or b inited m.id h))
        ]
      ]

  -- The calls of a loop from the index `i` on have no smaller index.
  start_modules-from :
      (ms : List Module) (i k inited : ℕ)
      → Memᴰ (init k) (start_modules e modules ms i inited).calls
      → i ≤ k
  unfolding start_modules index_of
  start_modules-from [] i k inited h = absurd (Member.not-nil h)
  start_modules-from (m ∷ ms) i k inited h =
      elim (Bool-cases (within m modules && m.init_instance)) [
        | inr t ↦ omega (arith, start_modules-from ms (i + 1) k inited (rw (t, start_modules) at h))
        | inl t ↦ elim (Bool-cases (e.init_of i == 0)) [
          | inr u ↦
              omega (arith, ap index_of (Member.eq_of_singleton (rw (t, u, start_modules) at h)))
          | inl u ↦ elim (Member.cases_cons (rw (t, u, start_modules) at h)) [
            | inl x ↦ omega (arith, ap index_of x)
            | inr y ↦ omega (arith, start_modules-from ms (i + 1) k (bit_or inited m.id) y)
          ]
        ]
      ]

  start_modules-within_here :
      (n : Module) (ms : List Module) (i inited : ℕ)
      → e.init_of i ≡ 0
      → Memᴰ (init i) (start_modules e modules (n ∷ ms) i inited).calls
      → bit_and n.id (start_modules e modules (n ∷ ms) i inited).inited ≡ n.id
  unfolding start_modules
  start_modules-within_here n ms i inited z h =
      elim (Bool-cases (within n modules && n.init_instance)) [
        | inr t ↦
            absurd
              (omega (arith, start_modules-from ms (i + 1) i inited (rw (t, start_modules) at h)))
        | inl t ↦
            rw (t, (==_iff (e.init_of i) 0).1 z, start_modules)
              (start_modules-keeps ms (i + 1) (bit_or inited n.id) n.id
                (bit_and-bit_or_self n.id inited))
      ]

  -- The flags of a module that was initialised are among those gathered.
  start_modules-within :
      (ms : List Module) (i j k inited : ℕ) (m : Module)
      → get_elem? ms j ≡ some m
      → k ≡ i + j
      → e.init_of k ≡ 0
      → Memᴰ (init k) (start_modules e modules ms i inited).calls
      → bit_and m.id (start_modules e modules ms i inited).inited ≡ m.id
  unfolding start_modules index_of
  start_modules-within [] i j k inited m at place z h = absurd cc
  start_modules-within (n ∷ ms) i zero k inited m at place z h =
      let same : n ≡ m = ap (λ (o : Option Module). elim o [ none ↦ n | some x ↦ x ]) at in
      let here : k ≡ i = omega (arith, place) in
      subst (λ (x : Module). bit_and x.id (start_modules e modules (n ∷ ms) i inited).inited ≡ x.id)
        same
        (start_modules-within_here n ms i inited (ap e.init_of (sym here) ∙ z)
          (subst (λ x. Memᴰ (init x) (start_modules e modules (n ∷ ms) i inited).calls) here h))
  start_modules-within (n ∷ ms) i (suc j) k inited m at place z h =
      elim (Bool-cases (within n modules && n.init_instance)) [
        | inr t ↦
            rw (t, start_modules)
              (start_modules-within ms (i + 1) j k inited m at (omega (arith, place)) z
                (rw (t, start_modules) at h))
        | inl t ↦ elim (Bool-cases (e.init_of i == 0)) [
          | inr u ↦ absurd (
              omega (
                arith,
                place,
                ap index_of (Member.eq_of_singleton (rw (t, u, start_modules) at h)),
              ))
          | inl u ↦ elim (Member.cases_cons (rw (t, u, start_modules) at h)) [
            | inl x ↦ absurd (omega (arith, place, ap index_of x))
            | inr y ↦
                rw (t, u, start_modules)
                  (start_modules-within ms (i + 1) j k (bit_or inited n.id) m at
                    (omega (arith, place)) z y)
          ]
        ]
      ]

-- A module with a cleanup is cleaned up where its flags are within the ones given.
cleanup_calls-within :
    (ms : List Module) (i j k flags : ℕ) (m : Module)
    → get_elem? ms j ≡ some m
    → k ≡ i + j
    → m.cleanup_instance ≡ true
    → bit_and m.id flags ≡ m.id
    → Memᴰ (cleanup k) (cleanup_calls ms i flags)
unfolding cleanup_calls
cleanup_calls-within [] i j k flags m at place has h = absurd cc
cleanup_calls-within (n ∷ ms) i zero k flags m at place has h =
    let same : n ≡ m = ap (λ (o : Option Module). elim o [ none ↦ n | some x ↦ x ]) at in
    let test : (n.cleanup_instance && within n flags) ≡ true =
      subst (λ (x : Module). (x.cleanup_instance && within x flags) ≡ true) (sym same)
        (rw (has, (==_iff (bit_and m.id flags) m.id).1 h) refl) in
    Member.append_right (cleanup_calls ms (i + 1) flags)
      (rw test (Member.head (ap cleanup (omega (arith, place)))))
cleanup_calls-within (n ∷ ms) i (suc j) k flags m at place has h =
    Member.append_left _
      (cleanup_calls-within ms (i + 1) j k flags m at (omega (arith, place)) has h)

-- In an instance whose `modules_inited` is what the loop of `init_modules` gathered, whether that loop ended
-- or a later module failed, `cleanup_modules` calls the cleanup of every module that has one and whose
-- `init_instance` was called and returned 0.
pub cleanup_modules-started :
    {A : Type 0} (e : Env A) (modules k : ℕ) (m : Module) (i : Inst)
    → get_elem? e.table k ≡ some m
    → m.cleanup_instance ≡ true
    → e.init_of k ≡ 0
    → Memᴰ (init k) (start_modules e modules e.table 0 0).calls
    → i.modules_inited ≡ (start_modules e modules e.table 0 0).inited
    → Memᴰ (cleanup k) (cleanup_modules e i).1
unfolding cleanup_modules
cleanup_modules-started e modules k m i at has z started flags =
    cleanup_calls-within e.table 0 k k i.modules_inited m at (omega arith) has (
      ap (bit_and m.id) flags
      ∙ start_modules-within e modules e.table 0 k k 0 m at (omega arith) z started)
