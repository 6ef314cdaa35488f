-- ===== src/Instance/Setup.antt =====
-- `purc_init_ex`, `purc_cleanup` and the functions of the endpoint in
-- source/aple/lecture-5/purc-instance.c.
pub mod Rollback
pub mod Once
pub mod Pairing
use aple.Base.{
  ℕ, zero, suc, Bool, true, false, not, ◌&&◌, ◌||◌, Option, none, some, List, [], ◌∷◌, ◌++◌, ◌==◌,
  leb, if◌then◌else◌, length, is_some,
}
use aple.Base.Bits.{bit_or}
use aple.Instance.{
  Text, Ret, ok, no_instance, out_of_memory, duplicated, invalid_value, too_small_buff, failed,
  Module, Log, no_log, file, syslog, Inst, Process, Env, Call, destroy_map, close_log, unref_bt,
  set_handlers, after_calls, make_calls, in_use,
}
use aple.Instance.Modules.{init_once, Started, start_modules, settings, cleanup_calls}

-- "unknown", "all", "verbose", "debug" and "true"
abbrev pub unknown : Text
unknown = 117 ∷ 110 ∷ 107 ∷ 110 ∷ 111 ∷ 119 ∷ 110 ∷ []

abbrev pub all : Text
all = 97 ∷ 108 ∷ 108 ∷ []

abbrev pub verbose : Text
verbose = 118 ∷ 101 ∷ 114 ∷ 98 ∷ 111 ∷ 115 ∷ 101 ∷ []

abbrev pub debug : Text
debug = 100 ∷ 101 ∷ 98 ∷ 117 ∷ 103 ∷ []

abbrev pub yes : Text
yes = 116 ∷ 114 ∷ 117 ∷ 101 ∷ []

-- `*env_value == '1'`
abbrev pub starts_with_one : Text → Bool
starts_with_one [] = false
starts_with_one (b ∷ bs) = b == 49

module _ {A : Type 0} (e : Env A) where
  abbrev pub log_mask : Text → ℕ
  log_mask t =
      if e.same_but_case t all
      then e.mask_all
      else if e.same_but_case t verbose
      then bit_or e.mask_default e.mask_info
      else if e.same_but_case t debug
      then bit_or e.mask_default (bit_or e.mask_info e.mask_debug)
      else e.mask_default

  abbrev pub use_syslog : Option Text → Bool
  use_syslog none = false
  use_syslog (some t) = starts_with_one t || e.same_but_case t yes

  abbrev pub log_of : Option Text → Log → Log
  log_of none old = old
  log_of (some t) old = e.enable_log (log_mask t) (use_syslog e.log_syslog)

  -- `enable_log_on_demand`
  unfoldable pub enable_log_on_demand : Inst → Inst
  enable_log_on_demand i = record i { fp_log = log_of e.log_enable i.fp_log }

  -- `cleanup_modules`
  unfoldable pub cleanup_modules : Inst → Inst × List Call
  cleanup_modules i = (
    record i { err_exinfo = false; app_manifest = false },
    cleanup_calls e.table 0 i.modules_inited,
  )

  -- The log that `cleanup_instance` leaves, and whether it closes a file.
  abbrev pub close : Log → Log × Bool
  close no_log = (no_log, false)
  close file = (no_log, true)
  close syslog = (syslog, false)

  -- The calls of `cleanup_instance`.
  abbrev pub closing_calls : Inst → List Call
  closing_calls i =
      (if i.local_data_map then destroy_map ∷ [] else [])
      ++ (if (close i.fp_log).1 then close_log ∷ [] else [])
      ++ (if i.bt then unref_bt ∷ [] else [])

  -- `cleanup_instance`, with the tables of atoms that it leaves.
  unfoldable pub cleanup_instance : A → Inst → A × Inst × List Call
  cleanup_instance atoms i = (
    e.remove (after_calls e (closing_calls i) atoms) i.endpoint_name,
    record i {
      local_data_map = false;
      fp_log = (close i.fp_log).0;
      bt = false;
      app_name = none;
      runner_name = none;
      modules = 0;
      modules_inited = 0;
    },
    closing_calls i,
  )

  -- `cleanup_modules` and `cleanup_instance`, in a process.
  unfoldable pub cleanup_all : Process A → Inst → Process A
  unfolding cleanup_modules cleanup_instance make_calls
  cleanup_all p i =
      let (j, cs) = cleanup_modules i in
      let (atoms, k, ds) = cleanup_instance (make_calls e p cs).atoms j in
      record p { calls = p.calls ++ (cs ++ ds); atoms = atoms; inst = some k }

  abbrev pub with_inst : Process A → Inst → Process A
  with_inst p i = record p { inst = some i }

  abbrev pub handlers : Option ℕ → List Call
  handlers none = []
  handlers (some conn) = set_handlers conn ∷ []

  -- Behind the loop of `init_modules`: it has returned 0, or an error that is handed on.
  unfoldable pub finish_init : Process A → Inst → ℕ → Process A × Ret
  unfolding cleanup_all
  finish_init p i zero = (
    make_calls e (with_inst p (record i { errcode = 0 }))
        (handlers (if is_some i.app_name then e.conn else none)),
    ok,
  )
  finish_init p i (suc err) = (cleanup_all p i, failed (suc err))

  unfoldable pub init_modules : Process A → ℕ → Inst → Process A × Ret
  unfolding finish_init
  init_modules p modules i =
      let s = start_modules e modules e.table 0 0 in
      finish_init (make_calls e p s.calls)
        (record (settings e modules i) { modules_inited = s.inited }) s.ret

  -- The instance with its names, its log and its map.
  unfoldable pub named_inst : Text → Text → ℕ → Inst → Inst
  unfolding enable_log_on_demand
  named_inst app runner atom i =
      record (enable_log_on_demand
        (record i { app_name = e.copy app; runner_name = e.copy runner; endpoint_atom = atom })) {
          local_data_map = e.map_made;
        }

  -- Behind the atom of the endpoint.
  unfoldable pub interned : Process A → ℕ → Text → Text → Inst → A × ℕ × Bool → Process A × Ret
  unfolding named_inst init_modules
  interned p modules app runner i (atoms, atom, false) =
      (record (with_inst p i) { atoms = atoms }, duplicated)
  interned p modules app runner i (atoms, atom, true) =
      init_modules (record p { atoms = atoms }) modules (named_inst app runner atom i)

  -- Behind the length `n` of the name of the endpoint.
  unfoldable pub named : Process A → ℕ → Text → Text → Inst → ℕ → Process A × Ret
  unfolding interned
  named p modules app runner i n =
      if n == 0
      then (with_inst p i, invalid_value)
      else if leb e.buffer n
      then (with_inst p i, too_small_buff)
      else interned p modules app runner i (e.intern p.atoms i.endpoint_name)

  unfoldable pub init_inst : Process A → ℕ → Text → Text → Option Inst → Process A × Ret
  unfolding named
  init_inst p modules app runner none = (p, out_of_memory)
  init_inst p modules app runner (some i) =
      if in_use i
      then (p, duplicated)
      else if not (e.valid_app app) || not (e.valid_runner runner)
      then (p, invalid_value)
      else named p modules app runner (record i { endpoint_name = (e.assemble app runner).1 })
          (e.assemble app runner).0

  abbrev pub name_or : Option Text → Text → Text
  name_or none d = d
  name_or (some t) d = t

  unfoldable pub init_with : Process A → ℕ → Text → Text → Process A × Ret
  unfolding init_inst
  init_with p modules app runner =
      if p.init_ok then init_inst p modules app runner p.inst else (p, no_instance)

  abbrev pub flags_of : ℕ → ℕ
  flags_of modules = if modules == 0 then e.module_all else modules

  abbrev pub app_of : Option Text → Text
  app_of app = name_or app (if length e.cmdline == 0 then unknown else e.cmdline)

  abbrev pub runner_of : Option Text → Text
  runner_of runner = name_or runner unknown

  -- `purc_init_ex`
  unfoldable pub init_ex : Process A → ℕ → Option Text → Option Text → Process A × Ret
  unfolding init_with init_once
  init_ex p modules app runner =
      if modules == 0 && e.module_all == 0
      then (p, no_instance)
      else init_with (init_once e p) (flags_of modules) (app_of app) (runner_of runner)

  abbrev pub cleanup_current : Process A → Option Inst → Process A × Bool
  cleanup_current p none = (p, false)
  cleanup_current p (some i) =
      if is_some i.app_name then (cleanup_all p (e.clear_error i), true) else (p, false)

  -- `purc_cleanup`
  unfoldable pub cleanup : Process A → Process A × Bool
  unfolding cleanup_all
  cleanup p = cleanup_current p p.inst

  -- `pcinst_endpoint_get`, with the atom, which is 0 behind an error, and the error that it sets.
  abbrev pub own_atom : A × ℕ × Bool → A × ℕ × Option Ret
  own_atom (atoms, atom, false) = (atoms, 0, some duplicated)
  own_atom (atoms, atom, true) = (atoms, atom, none)

  unfoldable pub endpoint_get : A → Text → Text → ℕ → A × ℕ × Option Ret
  endpoint_get atoms app runner size =
      if not (e.valid_app app) || not (e.valid_runner runner)
      then (atoms, 0, some invalid_value)
      else if (e.assemble app runner).0 == 0
      then (atoms, 0, some invalid_value)
      else if leb size (e.assemble app runner).0
      then (atoms, 0, some too_small_buff)
      else own_atom (e.intern atoms (e.assemble app runner).1)

abbrev pub endpoint_of : Option Inst → Option (ℕ × Text)
endpoint_of none = none
endpoint_of (some i) =
    if not (is_some i.app_name) || i.endpoint_atom == 0
    then none
    else some (i.endpoint_atom, i.endpoint_name)

-- `purc_get_endpoint`
unfoldable pub get_endpoint : {A : Type 0} → Process A → Option (ℕ × Text)
get_endpoint p = endpoint_of p.inst
