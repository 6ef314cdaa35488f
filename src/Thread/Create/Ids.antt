-- ===== src/Thread/Create/Ids.antt =====
-- The ids that a creation makes valid and invalid.
use aple.Base.{
  ℕ, ◌%◌, ◌<◌, ◌≡◌, ◌≢◌, refl, sym, ap, ◌∙◌, Bool, true, false, Option, none, some, ◌==◌, arith,
  get_or, length, get_or-set_self, get_or-set_ne, if◌then◌else◌, Bool-cases, inl, inr, ==_refl,
  ==_false, ==_iff,
}
use aple.Thread.{Consts, Attr, Info, Threads, threads_max, cookie_inc, info_id, valid_info, is_gone}
use aple.Thread.Create.{Env, create_at, new_info, new_id, stacksize_of, occupied, state_of}

pub new_id-mod :
    (v : Threads) (i : ℕ)
    → i < threads_max
    → v.cookie % cookie_inc ≡ 0
    → new_id v i % cookie_inc ≡ i
new_id-mod v i h k = omega (arith, h, k)

-- The lookup reads the table and the memory only.
valid_info-memory :
    (u w : Threads) (id : ℕ) (o : Option ℕ)
    → u.infos ≡ w.infos
    → valid_info u id o ≡ valid_info w id o
unfolding valid_info
valid_info-memory u w id none e = refl
valid_info-memory u w id (some a) e =
    ap
      (λ (f : ℕ → Info).
        if is_gone (f a).state then none else if (f a).id == id then some a else none)
      e

pub info_id-memory :
    (u w : Threads) (id : ℕ) → u.table ≡ w.table → u.infos ≡ w.infos → info_id u id ≡ info_id w id
unfolding info_id
info_id-memory u w id t e =
    ap (λ l. valid_info u id (get_or l (id % cookie_inc) none)) t
    ∙ valid_info-memory u w id (get_or w.table (id % cookie_inc) none) e

state_of-live : (c : Consts) (a : Attr) → is_gone (state_of c a) ≡ false
state_of-live c a = ground arith

module _ (v : Threads) (i address : ℕ) (info : Info) (sized : length v.table ≡ threads_max)
    (i_in : i < threads_max) (live : is_gone info.state ≡ false)
    (fresh : (j : ℕ) → get_or v.table j none ≢ some address) where
  valid_info-occupied :
      (id : ℕ) (o : Option ℕ)
      → o ≢ some address
      → valid_info (occupied v i address info) id o ≡ valid_info v id o
  unfolding valid_info occupied
  valid_info-occupied id none ne = refl
  valid_info-occupied id (some a) ne = rw (==_false a address (λ e. ne (ap some e))) refl

  info_id-here :
      (id : ℕ)
      → id % cookie_inc ≡ i
      → info_id (occupied v i address info) id ≡ (if info.id == id then some address else none)
  unfolding info_id occupied valid_info
  info_id-here id e =
      rw
        (
          e,
          get_or-set_self v.table i (some address) none (omega (arith, sized, i_in)),
          ==_refl address,
          live,
        )
        refl

  get_or-occupied :
      (j : ℕ) → i ≢ j → get_or (occupied v i address info).table j none ≡ get_or v.table j none
  unfolding occupied
  get_or-occupied j ne = get_or-set_ne v.table {i = i} {j = j} (some address) none ne

  info_id-elsewhere :
      (id : ℕ) → id % cookie_inc ≢ i → info_id (occupied v i address info) id ≡ info_id v id
  unfolding info_id
  info_id-elsewhere id ne =
      ap (valid_info (occupied v i address info) id)
        (get_or-occupied (id % cookie_inc) (λ e. ne (sym e)))
      ∙ valid_info-occupied id (get_or v.table (id % cookie_inc) none) (fresh (id % cookie_inc))

  info_id-occupied :
      (id : ℕ)
      → info.id % cookie_inc ≡ i
      → info_id (occupied v i address info) id ≡ (
          if id == info.id
          then some address
          else if id % cookie_inc == i
          then none
          else info_id v id)
  info_id-occupied id at = elim (Bool-cases (id % cookie_inc == i)) [
    | inl t ↦ info_id-here id ((==_iff (id % cookie_inc) i).0 t) ∙ ground (arith, t)
    | inr t ↦
        info_id-elsewhere id (λ e. ground (arith, t))
        ∙ sym (rw (==_false id info.id (λ e. ground arith), t) refl)
  ]

-- The ids that are valid behind a creation that succeeds in the slot `i`, for a table of the right size, a
-- cookie that has only steps in it and a control structure at an address that the table does not hold:
-- the new id finds the new thread, every other id of the slot finds none, also one that found the thread
-- that had the slot before, and the ids of the other slots find what they found.
pub create_at-info_id :
    (c : Consts) (e : Env) (v : Threads) (a : Attr) (routine arg stackmem : ℕ) (freestack : Bool)
    (i id : ℕ)
    → length v.table ≡ threads_max
    → i < threads_max
    → v.cookie % cookie_inc ≡ 0
    → e.init_ok ≡ true
    → ((j : ℕ) → get_or v.table j none ≢ some (e.info_at stackmem (stacksize_of a)))
    → info_id (create_at c e v a routine arg stackmem freestack i).0 id ≡ (
        if id == new_id v i
        then some (e.info_at stackmem (stacksize_of a))
        else if id % cookie_inc == i
        then none
        else info_id v id)
unfolding create_at
create_at-info_id c e v a routine arg stackmem freestack i id sized i_in steps started fresh =
    rw started (
      info_id-memory _ (occupied v i address info) id (unfold occupied in refl) refl
      ∙ info_id-occupied v i address info sized i_in (state_of-live c a) fresh id
          (new_id-mod v i i_in steps))
  where
    address : ℕ
    address = e.info_at stackmem (stacksize_of a)

    info : Info
    info = new_info c e a address (new_id v i) routine arg stackmem freestack
