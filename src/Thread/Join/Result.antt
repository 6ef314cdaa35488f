-- ===== src/Thread/Join/Result.antt =====
-- What a joiner receives from a thread that has exited, and what becomes of its id.
use aple.Base.{
  ℕ, ◌≡◌, ◌≢◌, refl, subst, sym, ap, ◌∙◌, true, false, Option, none, some, ◌==◌, ==_refl, ==_false,
  if◌then◌else◌, get_or, Bool-cases, inl, inr, ◌⊎◌, ◌%◌, ◌∷◌, [], arith,
}
use aple.Base.Int.{pos, dec, inc}
use aple.Thread.{
  Consts, success, edeadlk, join, exited, give, delete_task, Info, Threads, update_info, logged,
  info_id, valid_info, is_gone, is_exited, cookie_inc,
}
use aple.Thread.Reap.{TaskStatus, alive, reap_threads}
use aple.Thread.Reap.Ends.{Ended, Cleared, reap_threads-Reaps, reap_threads-idle}
use aple.Thread.Exit.{finish_exit, is_detached}
use aple.Thread.Join.{
  check_for_cancel, returned, cancels, joined, join_thread, join_in, join_found, join_state,
  return_in,
}

-- A lookup that finds a thread has read its address in the table, with the id and a state in use there.
valid_info-found :
    (v : Threads) (id a : ℕ) (o : Option ℕ)
    → valid_info v id o ≡ some a
    → (o ≡ some a) × (((v.infos a).id == id) ≡ true)
unfolding valid_info
valid_info-found v id a none h = absurd cc
valid_info-found v id a (some b) h = elim (Bool-cases (is_gone (v.infos b).state)) [
  | inl t ↦ absurd ground (arith, h, t)
  | inr t ↦ elim (Bool-cases ((v.infos b).id == id)) [
    | inl u ↦
        let e = sym (rw (t, u) refl) ∙ h in
        (
          e,
          ap (λ (o : Option ℕ). elim o [ none ↦ true | some k ↦ (v.infos k).id == id ]) (sym e) ∙ u,
        )
    | inr u ↦ absurd ground (arith, h, t, u)
  ]
]

-- A lookup finds nothing at an address whose thread has exited, nor in an empty slot.
valid_info-gone :
    (v : Threads) (id a : ℕ) (o : Option ℕ)
    → (v.infos a).state ≡ exited
    → (o ≡ none) ⊎ (o ≡ some a)
    → valid_info v id o ≡ none
unfolding valid_info
valid_info-gone v id a o e (inl h) = rw h refl
valid_info-gone v id a o e (inr h) = rw (h, e) refl

-- The statics behind the exit of a thread that is not detached.
ready : Threads → ℕ → ℕ → Threads
ready v a r =
    logged
      (record (update_info v a (λ i. record i { retval = r; state = join })) {
        tobejoined = inc v.tobejoined;
      })
      (give (v.infos a).joiner ∷ delete_task (v.infos a).task_id ∷ [])

finish_exit-ready :
    (v : Threads) (a r : ℕ)
    → is_detached (v.infos a).state ≡ false
    → finish_exit v a r ≡ ready v a r
unfolding finish_exit ready
finish_exit-ready v a r h =
    ap
      (λ b.
        logged
          (if b
            then record (update_info v a (λ i. record i { retval = r; state = exited })) {
              exited = inc v.exited;
            }
            else record (update_info v a (λ i. record i { retval = r; state = join })) {
              tobejoined = inc v.tobejoined;
            })
          (give (v.infos a).joiner ∷ delete_task (v.infos a).task_id ∷ []))
      h

module _ (c : Consts) (status : ℕ → TaskStatus) (v : Threads) (self id a r : ℕ)
    (found : info_id v id ≡ some a) (other : a ≢ self) where
  ready-self : (ready v a r).infos self ≡ v.infos self
  unfolding ready
  ready-self = rw (==_false self a (λ e. other (sym e))) refl

  ready-state : ((ready v a r).infos a).state ≡ join
  unfolding ready
  ready-state = rw (==_refl a) refl

  ready-retval : ((ready v a r).infos a).retval ≡ r
  unfolding ready
  ready-retval = rw (==_refl a) refl

  valid_info-ready : valid_info (ready v a r) id (some a) ≡ some a
  unfolding ready valid_info info_id
  valid_info-ready =
      rw (==_refl a, (valid_info-found v id a (get_or v.table (id % cookie_inc) none) found).1) refl

  info_id-ready : info_id (ready v a r) id ≡ some a
  unfolding ready info_id
  info_id-ready =
      ap (valid_info (ready v a r) id)
        (valid_info-found v id a (get_or v.table (id % cookie_inc) none) found).0
      ∙ valid_info-ready

  join_found-ready :
      join_found status (ready v a r) self (info_id (ready v a r) id)
      ≡ joined status (ready v a r) a
  unfolding join_state
  join_found-ready =
      ap (join_found status (ready v a r) self) info_id-ready
      ∙ ap
          (λ b.
            if b
            then returned (ready v a r) edeadlk none
            else join_state status (ready v a r) a ((ready v a r).infos a).state)
          (==_false a self other)
      ∙ ap (join_state status (ready v a r) a) ready-state

  join_thread-ready :
      check_for_cancel c (v.infos self) ≡ false
      → v.exited ≡ pos 0
      → join_thread c status (ready v a r) self id ≡ joined status (ready v a r) a
  unfolding join_thread
  join_thread-ready calm idle =
      ap (λ b. if b then cancels else join_in status self id (reap_threads status (ready v a r)))
        (ap (check_for_cancel c) ready-self ∙ calm)
      ∙ ap (join_in status self id) (reap_threads-idle status (ready v a r) (unfold ready in idle))
      ∙ join_found-ready

  -- The statics that the second call of the reaper sees.
  settled : Threads
  settled = record (update_info (ready v a r) a (λ i. record i { state = exited })) {
    exited = inc (ready v a r).exited;
    tobejoined = dec (ready v a r).tobejoined;
  }

  settled-state : (settled.infos a).state ≡ exited
  unfolding settled
  settled-state = rw (==_refl a) refl

  settled-slot : get_or settled.table (id % cookie_inc) none ≡ some a
  unfolding settled ready info_id
  settled-slot = (valid_info-found v id a (get_or v.table (id % cookie_inc) none) found).0

  info_id-settled :
      (w : Threads) → w.infos ≡ settled.infos → Cleared settled.table w.table → info_id w id ≡ none
  unfolding info_id
  info_id-settled w i cleared =
      valid_info-gone w id a (get_or w.table (id % cookie_inc) none)
        (ap (λ (f : ℕ → Info). (f a).state) i ∙ settled-state)
        (elim (cleared (id % cookie_inc)) [ inl e ↦ inl e | inr e ↦ inr (e ∙ settled-slot) ])

  settled-Ended :
      Ended status v.infos → status (v.infos a).task_id ≢ alive → Ended status settled.infos
  unfolding settled ready
  settled-Ended ended over b h = elim (Bool-cases (b == a)) [
    | inl t ↦ rw (t, ==_refl a) over
    | inr t ↦ rw t (ended b (subst (λ x. is_exited x ≡ true) (rw t refl) h))
  ]

  joined-ready :
      Ended status settled.infos
      → (w : Threads) × (joined status (ready v a r) a ≡ returned w success (some r))
        × (info_id w id ≡ none)
  unfolding joined settled
  joined-ready ended =
      let (w, e, i, cleared) = reap_threads-Reaps status settled ended in
      (
        w,
        ap (return_in success (some ((ready v a r).infos a).retval)) e
            ∙ ap (λ x. returned w success (some x)) ready-retval,
        info_id-settled w i cleared,
      )

-- Where a thread that is found and is not detached exits with a value, its task is over, no thread waits to
-- be reaped and no thread in the state EXITED has a task that still runs, another thread that is not to be
-- cancelled joins it at once, with success and with that value; the id finds no thread afterwards.
pub join_thread-finish_exit :
    (c : Consts) (status : ℕ → TaskStatus) (v : Threads) (self id a r : ℕ)
    → info_id v id ≡ some a
    → a ≢ self
    → is_detached (v.infos a).state ≡ false
    → check_for_cancel c (v.infos self) ≡ false
    → v.exited ≡ pos 0
    → Ended status v.infos
    → status (v.infos a).task_id ≢ alive
    → (w : Threads) × (join_thread c status (finish_exit v a r) self id
        ≡ returned w success (some r))
      × (info_id w id ≡ none)
join_thread-finish_exit c status v self id a r found other joinable calm idle ended over =
    let (w, e, gone) =
      joined-ready c status v self id a r found other
        (settled-Ended c status v self id a r found other ended over) in
    (
      w,
      ap (λ u. join_thread c status u self id) (finish_exit-ready v a r joinable)
          ∙ join_thread-ready c status v self id a r found other calm idle
          ∙ e,
      gone,
    )
