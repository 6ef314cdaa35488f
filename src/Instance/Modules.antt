-- ===== src/Instance/Modules.antt =====
-- The loops over the modules in source/aple/lecture-5/purc-instance.c: the initialisers of the process,
-- those of an instance, and their cleanup.
use aple.Base.{ℕ, ◌+◌, Bool, true, false, ◌&&◌, List, [], ◌∷◌, ◌++◌, ◌==◌, if◌then◌else◌, set}
use aple.Base.Bits.{bit_and, bit_or}
use aple.Instance.{Module, Inst, Process, Call, once, init, cleanup, Env, make_calls}

-- `_init_once`, behind the modules before the index `i`.
unfoldable pub once_modules : {A : Type 0} → Env A → List Module → ℕ → Process A → Process A
unfolding make_calls
once_modules e [] i p = record p { init_ok = true }
once_modules e (m ∷ ms) i p = elim m.init_once [
  | false ↦ once_modules e ms (i + 1) p
  | true ↦ elim (e.once_of i == 0) [
    | false ↦ make_calls e p (once i ∷ [])
    | true ↦
        once_modules e ms (i + 1)
          (record (make_calls e p (once i ∷ [])) { module_inited = set p.module_inited i true })
  ]
]

-- `init_once`; with threads or without them `_init_once` runs under `inited` alone.
unfoldable pub init_once : {A : Type 0} → Env A → Process A → Process A
unfolding once_modules
init_once e p = if p.inited then p else record (once_modules e e.table 0 p) { inited = true }

-- `(m->id & flags) == m->id`
abbrev pub within : Module → ℕ → Bool
within m flags = bit_and m.id flags == m.id

-- What the loop over `init_instance` leaves: `modules_inited`, the calls and the value returned.
pub record Started : Type 0 where
  pub inited : ℕ
  pub calls : List Call
  pub ret : ℕ

abbrev pub behind_call : Call → Started → Started
behind_call c s = record s { calls = c ∷ s.calls }

module _ {A : Type 0} (e : Env A) (modules : ℕ) where
  unfoldable pub start_modules : List Module → ℕ → ℕ → Started
  start_modules [] i inited = record { inited = inited; calls = []; ret = 0 }
  start_modules (m ∷ ms) i inited = elim (within m modules && m.init_instance) [
    | false ↦ start_modules ms (i + 1) inited
    | true ↦ elim (e.init_of i == 0) [
      | false ↦ record { inited = inited; calls = init i ∷ []; ret = e.init_of i }
      | true ↦ behind_call (init i) (start_modules ms (i + 1) (bit_or inited m.id))
    ]
  ]

-- The fields that `init_modules` sets before its loop.
abbrev pub settings : {A : Type 0} → Env A → ℕ → Inst → Inst
settings e modules i = record i {
  modules = modules;
  modules_inited = 0;
  max_conns = 100;
  cache_quota = 10240;
  enable_remote_fetcher =
      if bit_and modules e.have_fetcher_r == 0 then i.enable_remote_fetcher else true;
  auto_switching_rdr = true;
}

-- The calls of the loop of `cleanup_modules`, from the last module to the first.
unfoldable pub cleanup_calls : List Module → ℕ → ℕ → List Call
cleanup_calls [] i inited = []
cleanup_calls (m ∷ ms) i inited =
    cleanup_calls ms (i + 1) inited
    ++ (if m.cleanup_instance && within m inited then cleanup i ∷ [] else [])
