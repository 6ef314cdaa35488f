-- ===== src/Instance/Setup/Rollback.antt =====
-- What a failed initialisation, and a cleanup behind one that succeeded, leave of the instance.
use aple.Base.{
  if_both, is_some, if◌then◌else◌, arith, ◌+◌, set, List, [], ◌∷◌, ℕ, zero, suc, ◌≡◌, refl, ap, ◌∙◌,
  subst, Bool, true, false, not, ◌&&◌, ◌||◌, Option, none, some, ◌==◌, leb, Bool-cases, inl, inr,
}
use aple.Instance.{
  Text, Ret, ok, no_instance, out_of_memory, duplicated, invalid_value, too_small_buff, failed,
  Inst, Process, Env, in_use, after_calls, make_calls, Module, Call, once,
}
use aple.Instance.Modules.{init_once, once_modules, start_modules}
use aple.Instance.Setup.{
  cleanup, cleanup_all, cleanup_modules, cleanup_instance, cleanup_current, closing_calls, handlers,
  enable_log_on_demand, named_inst, flags_of, app_of, runner_of, finish_init, init_modules,
  interned, named, init_inst, init_with, init_ex,
}

-- The thread holds no instance that is in use.
abbrev pub idle : Option Inst → Bool
idle none = true
idle (some i) = not (in_use i)

-- The tables of atoms, of which `bucket` is that of the endpoints, PURC_ATOM_BUCKET_DEF: a name that is new
-- can be taken out again, one that is not new changes nothing, what a removal leaves in the bucket depends on
-- the bucket alone, and the callbacks of modules, which intern their atoms in other buckets, leave it alone, as
-- do the other calls.
pub record AtomLaws {A B : Type 0} (e : Env A) (bucket : A → B) : Type 0 where
  pub fresh :
      (a : A) (t : Text) → (e.intern a t).2 ≡ true → bucket (e.remove (e.intern a t).0 t) ≡ bucket a
  pub seen : (a : A) (t : Text) → (e.intern a t).2 ≡ false → bucket (e.intern a t).0 ≡ bucket a
  pub removes :
      (a b : A) (t : Text) → bucket a ≡ bucket b → bucket (e.remove a t) ≡ bucket (e.remove b t)
  pub elsewhere : (c : Call) (a : A) → bucket (e.leaves c a) ≡ bucket a

-- Nothing is left: where the call has succeeded, behind a cleanup, which succeeds too.
abbrev pub Restores : {A B : Type 0} → Env A → (A → B) → B → Process A × Ret → Type 0
Restores e bucket a (q, ok) =
    ((cleanup e q).1 ≡ true)
    × (idle (cleanup e q).0.inst ≡ true)
    × (bucket (cleanup e q).0.atoms ≡ a)
Restores e bucket a (q, no_instance) = (idle q.inst ≡ true) × (bucket q.atoms ≡ a)
Restores e bucket a (q, out_of_memory) = (idle q.inst ≡ true) × (bucket q.atoms ≡ a)
Restores e bucket a (q, duplicated) = (idle q.inst ≡ true) × (bucket q.atoms ≡ a)
Restores e bucket a (q, invalid_value) = (idle q.inst ≡ true) × (bucket q.atoms ≡ a)
Restores e bucket a (q, too_small_buff) = (idle q.inst ≡ true) × (bucket q.atoms ≡ a)
Restores e bucket a (q, failed err) = (idle q.inst ≡ true) × (bucket q.atoms ≡ a)

module _ {A B : Type 0} (e : Env A) (bucket : A → B) (laws : AtomLaws e bucket)
    (copies : (t : Text) → e.copy t ≡ some t)
    (keeps : (i : Inst) → (e.clear_error i).endpoint_name ≡ i.endpoint_name) where
  after_calls-bucket : (cs : List Call) (a : A) → bucket (after_calls e cs a) ≡ bucket a
  unfolding after_calls
  after_calls-bucket [] a = refl
  after_calls-bucket (c ∷ cs) a = after_calls-bucket cs (e.leaves c a) ∙ laws.elsewhere c a

  cleanup_all-bucket :
      (p : Process A) (i : Inst)
      → bucket (cleanup_all e p i).atoms ≡ bucket (e.remove p.atoms i.endpoint_name)
  unfolding cleanup_all cleanup_modules cleanup_instance make_calls
  cleanup_all-bucket p i =
      let cs : List Call = (cleanup_modules e i).1 in
      laws.removes _ p.atoms i.endpoint_name (
        after_calls-bucket (closing_calls e (cleanup_modules e i).0) (after_calls e cs p.atoms)
        ∙ after_calls-bucket cs p.atoms)

  cleanup-cleanup_all :
      (p : Process A) (i : Inst) (app : Text)
      → p.inst ≡ some i
      → i.app_name ≡ some app
      → cleanup e p ≡ (cleanup_all e p (e.clear_error i), true)
  unfolding cleanup
  cleanup-cleanup_all p i app h g =
      ap (cleanup_current e p) h
      ∙ ap (λ o. if is_some o then (cleanup_all e p (e.clear_error i), true) else (p, false)) g

  cleanup-Restores :
      (p : Process A) (i : Inst) (app : Text) (a : B)
      → p.inst ≡ some i
      → i.app_name ≡ some app
      → bucket (e.remove p.atoms i.endpoint_name) ≡ a
      → Restores e bucket a (p, ok)
  unfolding cleanup_all
  cleanup-Restores p i app a h g r =
      let same = cleanup-cleanup_all p i app h g in
      (
        ap (λ c. c.1) same,
        ap (λ c. idle c.0.inst) same,
        ap (λ c. bucket c.0.atoms) same
            ∙ cleanup_all-bucket p (e.clear_error i)
            ∙ ap (λ t. bucket (e.remove p.atoms t)) (keeps i)
            ∙ r,
      )

  finish_init-Restores :
      (p : Process A) (i : Inst) (n : ℕ) (app : Text) (a : B)
      → i.app_name ≡ some app
      → bucket (e.remove p.atoms i.endpoint_name) ≡ a
      → Restores e bucket a (finish_init e p i n)
  unfolding finish_init cleanup_all make_calls
  finish_init-Restores p i zero app a h r =
      cleanup-Restores (finish_init e p i 0).0 (record i { errcode = 0 }) app a refl h
        (laws.removes _ p.atoms i.endpoint_name
            (after_calls-bucket (handlers e (if is_some i.app_name then e.conn else none)) p.atoms)
          ∙ r)
  finish_init-Restores p i (suc err) app a h r = (refl, cleanup_all-bucket p i ∙ r)

  init_modules-Restores :
      (p : Process A) (modules : ℕ) (i : Inst) (app : Text) (a : B)
      → i.app_name ≡ some app
      → bucket (e.remove p.atoms i.endpoint_name) ≡ a
      → Restores e bucket a (init_modules e p modules i)
  unfolding init_modules
  init_modules-Restores p modules i app a h r =
      let s = start_modules e modules e.table 0 0 in
      finish_init-Restores (make_calls e p s.calls) _ s.ret app a h
        (laws.removes _ p.atoms _ (after_calls-bucket s.calls p.atoms) ∙ r)

  interned-Restores :
      (p : Process A) (modules : ℕ) (app runner : Text) (i : Inst) (r : A × ℕ × Bool) (a : B)
      → in_use i ≡ false
      → (r.2 ≡ false → bucket r.0 ≡ a)
      → (r.2 ≡ true → bucket (e.remove r.0 i.endpoint_name) ≡ a)
      → Restores e bucket a (interned e p modules app runner i r)
  unfolding interned named_inst enable_log_on_demand
  interned-Restores p modules app runner i (atoms, atom, false) a free seen fresh =
      (ap not free, seen refl)
  interned-Restores p modules app runner i (atoms, atom, true) a free seen fresh =
      init_modules-Restores (record p { atoms = atoms }) modules (named_inst e app runner atom i)
        app a (copies app) (fresh refl)

  named-Restores :
      (p : Process A) (modules : ℕ) (app runner : Text) (i : Inst) (n : ℕ)
      → in_use i ≡ false
      → Restores e bucket (bucket p.atoms) (named e p modules app runner i n)
  unfolding named
  named-Restores p modules app runner i n free =
      if_both (Restores e bucket (bucket p.atoms)) (n == 0) (λ t. (ap not free, refl))
        (λ t.
          if_both (Restores e bucket (bucket p.atoms)) (leb e.buffer n) (λ u. (ap not free, refl))
            (λ u.
              interned-Restores p modules app runner i (e.intern p.atoms i.endpoint_name)
                (bucket p.atoms) free (laws.seen p.atoms i.endpoint_name)
                (laws.fresh p.atoms i.endpoint_name)))

  init_inst-Restores :
      (p : Process A) (modules : ℕ) (app runner : Text) (o : Option Inst)
      → p.inst ≡ o
      → idle o ≡ true
      → Restores e bucket (bucket p.atoms) (init_inst e p modules app runner o)
  unfolding init_inst
  init_inst-Restores p modules app runner none h free = (ap idle h, refl)
  init_inst-Restores p modules app runner (some i) h free =
      if_both (Restores e bucket (bucket p.atoms)) (in_use i) (λ t. absurd ground (arith, free, t))
        (λ t.
          if_both (Restores e bucket (bucket p.atoms))
            (not (e.valid_app app) || not (e.valid_runner runner)) (λ u. (ap idle h ∙ free, refl))
            (λ u. named-Restores p modules app runner _ (e.assemble app runner).0 t))

  init_with-Restores :
      (p : Process A) (modules : ℕ) (app runner : Text)
      → idle p.inst ≡ true
      → Restores e bucket (bucket p.atoms) (init_with e p modules app runner)
  unfolding init_with
  init_with-Restores p modules app runner free =
      if_both (Restores e bucket (bucket p.atoms)) p.init_ok
        (λ t. init_inst-Restores p modules app runner p.inst refl free) (λ t. (free, refl))

-- The initialisers of the process leave the instance and the names of endpoints alone.
once_modules-keeps :
    {A B : Type 0} (e : Env A) (bucket : A → B)
    → AtomLaws e bucket
    → (ms : List Module) (i : ℕ) (p : Process A)
    → ((once_modules e ms i p).inst ≡ p.inst)
      × (bucket (once_modules e ms i p).atoms ≡ bucket p.atoms)
unfolding once_modules make_calls after_calls
once_modules-keeps e bucket laws [] i p = (refl, refl)
once_modules-keeps e bucket laws (m ∷ ms) i p = elim (Bool-cases m.init_once) [
  | inr t ↦ rw (t, once_modules) (once_modules-keeps e bucket laws ms (i + 1) p)
  | inl t ↦ elim (Bool-cases (e.once_of i == 0)) [
    | inr u ↦ rw (t, u, once_modules) (refl, laws.elsewhere (once i) p.atoms)
    | inl u ↦
        let (same, kept) =
          once_modules-keeps e bucket laws ms (i + 1) (record (make_calls e p (once i ∷ [])) {
            module_inited = set p.module_inited i true;
          }) in
        rw (t, u, once_modules) (same, kept ∙ laws.elsewhere (once i) p.atoms)
  ]
]

init_once-keeps :
    {A B : Type 0} (e : Env A) (bucket : A → B)
    → AtomLaws e bucket
    → (p : Process A)
    → ((init_once e p).inst ≡ p.inst) × (bucket (init_once e p).atoms ≡ bucket p.atoms)
unfolding init_once
init_once-keeps e bucket laws p =
    if_both (λ (q : Process _). (q.inst ≡ p.inst) × (bucket q.atoms ≡ bucket p.atoms)) p.inited
      (λ t. (refl, refl)) (λ t. once_modules-keeps e bucket laws e.table 0 p)

-- In a thread without an instance in use, with tables of atoms that keep their laws (the callbacks of modules
-- intern only in buckets other than that of the endpoints), memory for the copies of the names, and a
-- `purc_clr_error` that keeps the name of the endpoint: whatever `purc_init_ex` returns, an error leaves no
-- instance in use and the bucket of the endpoints as it was, and behind a success `purc_cleanup` succeeds and
-- leaves the same. What the callbacks have interned in other buckets may stay.
pub init_ex-Restores :
    {A B : Type 0} (e : Env A) (bucket : A → B) (p : Process A) (modules : ℕ)
    (app runner : Option Text)
    → AtomLaws e bucket
    → ((t : Text) → e.copy t ≡ some t)
    → ((i : Inst) → (e.clear_error i).endpoint_name ≡ i.endpoint_name)
    → idle p.inst ≡ true
    → Restores e bucket (bucket p.atoms) (init_ex e p modules app runner)
unfolding init_ex
init_ex-Restores e bucket p modules app runner laws copies keeps free =
    if_both (Restores e bucket (bucket p.atoms)) (modules == 0 && e.module_all == 0)
      (λ t. (free, refl))
      (λ t.
        subst
          (λ a.
            Restores e bucket a (
              init_with e (init_once e p) (flags_of e modules) (app_of e app) (runner_of e runner)))
          (init_once-keeps e bucket laws p).1
          (init_with-Restores e bucket laws copies keeps (init_once e p) _ _ _
            (ap idle (init_once-keeps e bucket laws p).0 ∙ free)))
