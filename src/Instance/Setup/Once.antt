-- ===== src/Instance/Setup/Once.antt =====
-- The initialisers of the process when one of them fails.
use aple.Base.{
  ℕ, zero, suc, ◌+◌, ◌≡◌, ◌≢◌, refl, sym, ap, ◌∙◌, Bool, true, false, ◌&&◌, Option, none, some,
  List, [], ◌∷◌, ◌==◌, if◌then◌else◌, get_elem?, Bool-cases, inl, inr, ==_false, if_both, arith,
}
use aple.Instance.{Text, no_instance, Module, Process, Env}
use aple.Instance.Modules.{init_once, once_modules}
use aple.Instance.Setup.{init_inst, init_with, init_ex, flags_of, app_of, runner_of}

once_modules-fails :
    {A : Type 0} (e : Env A) (ms : List Module) (i k : ℕ) (m : Module) (p : Process A)
    → get_elem? ms k ≡ some m
    → m.init_once ≡ true
    → e.once_of (i + k) ≢ 0
    → (once_modules e ms i p).init_ok ≡ p.init_ok
unfolding once_modules
once_modules-fails e [] i k m p h has fails = absurd cc
once_modules-fails e (n ∷ ms) i zero m p h has fails =
    let t : n.init_once ≡ true =
      ap (λ (o : Option Module). elim o [ none ↦ true | some x ↦ x.init_once ]) h ∙ has in
    let u : (e.once_of i == 0) ≡ false =
      ==_false (e.once_of i) 0 (λ z. fails (ap e.once_of (omega arith) ∙ z)) in
    rw (t, u, once_modules) refl
once_modules-fails e (n ∷ ms) i (suc k) m p h has fails =
    let later : (q : Process _) → (once_modules e ms (i + 1) q).init_ok ≡ q.init_ok = λ q.
      once_modules-fails e ms (i + 1) k m q h has (λ z. fails (ap e.once_of (omega arith) ∙ z)) in
    elim (Bool-cases n.init_once) [
      | inr t ↦ rw (t, once_modules) (later p)
      | inl t ↦ elim (Bool-cases (e.once_of i == 0)) [
        | inr u ↦ rw (t, u, once_modules) refl
        | inl u ↦ rw (t, u, once_modules) (later _)
      ]
    ]

init_with-bad :
    {A : Type 0} (e : Env A) (p : Process A) (modules : ℕ) (app runner : Text)
    → p.init_ok ≡ false
    → init_with e p modules app runner ≡ (p, no_instance)
unfolding init_with
init_with-bad e p modules app runner bad =
    ap (λ b. if b then init_inst e p modules app runner p.inst else (p, no_instance)) bad

&&-right : (a b : Bool) → b ≡ false → (a && b) ≡ false
&&-right a b h = ground (arith, h)

module _ {A : Type 0} (e : Env A) (p : Process A) where
  init_once-idle : p.inited ≡ true → init_once e p ≡ p
  unfolding init_once
  init_once-idle h =
      ap (λ b. if b then p else record (once_modules e e.table 0 p) { inited = true }) h

  init_once-inited : (init_once e p).inited ≡ true
  unfolding init_once
  init_once-inited = if_both (λ (q : Process A). q.inited ≡ true) p.inited (λ t. t) (λ t. refl)

  init_once-fails :
      (k : ℕ) (m : Module)
      → p.inited ≡ false
      → p.init_ok ≡ false
      → get_elem? e.table k ≡ some m
      → m.init_once ≡ true
      → e.once_of k ≢ 0
      → (init_once e p).init_ok ≡ false
  unfolding init_once
  init_once-fails k m fresh bad at has fails =
      ap (λ b. (if b then p else record (once_modules e e.table 0 p) { inited = true }).init_ok)
        fresh
      ∙ once_modules-fails e e.table 0 k m p at has (λ z. fails (ap e.once_of (omega arith) ∙ z))
      ∙ bad

  -- Behind initialisers that failed, a call changes nothing.
  init_ex-bad :
      (modules : ℕ) (app runner : Option Text)
      → p.inited ≡ true
      → p.init_ok ≡ false
      → init_ex e p modules app runner ≡ (p, no_instance)
  unfolding init_ex
  init_ex-bad modules app runner done bad =
      if_both (λ r. r ≡ (p, no_instance)) (modules == 0 && e.module_all == 0) (λ t. refl)
        (λ t.
          ap (λ q. init_with e q (flags_of e modules) (app_of e app) (runner_of e runner))
            (init_once-idle done)
          ∙ init_with-bad e p _ _ _ bad)

  -- The call that runs them.
  init_ex-first :
      (modules : ℕ) (app runner : Option Text)
      → e.module_all ≢ 0
      → (init_once e p).init_ok ≡ false
      → init_ex e p modules app runner ≡ (init_once e p, no_instance)
  unfolding init_ex
  init_ex-first modules app runner some_modules bad =
      ap
        (λ b.
          if b
          then (p, no_instance)
          else init_with e (init_once e p) (flags_of e modules) (app_of e app) (runner_of e runner))
        (&&-right (modules == 0) (e.module_all == 0) (==_false e.module_all 0 some_modules))
      ∙ init_with-bad e (init_once e p) _ _ _ bad

-- Where the initialisers of the process have not run and the one of a module fails, with PURC_MODULE_ALL
-- not 0, `purc_init_ex` returns PURC_ERROR_NO_INSTANCE; and so does every later call, which changes nothing,
-- also where the initialiser would succeed by then.
pub init_ex_never :
    {A : Type 0} (e later : Env A) (p : Process A) (k : ℕ) (m : Module) (modules modules' : ℕ)
    (app runner app' runner' : Option Text)
    → e.module_all ≢ 0
    → p.inited ≡ false
    → p.init_ok ≡ false
    → get_elem? e.table k ≡ some m
    → m.init_once ≡ true
    → e.once_of k ≢ 0
    → ((init_ex e p modules app runner).1 ≡ no_instance)
      × (init_ex later (init_ex e p modules app runner).0 modules' app' runner'
          ≡ ((init_ex e p modules app runner).0, no_instance))
init_ex_never e later p k m modules modules' app runner app' runner' some_modules fresh bad at has
      fails =
    let failed = init_once-fails e p k m fresh bad at has fails in
    let first = init_ex-first e p modules app runner some_modules failed in
    (
      ap (λ r. r.1) first,
      ap (λ r. init_ex later r.0 modules' app' runner') first
          ∙ init_ex-bad later (init_once e p) modules' app' runner' (init_once-inited e p) failed
          ∙ ap (λ r. (r.0, no_instance)) (sym first),
    )
