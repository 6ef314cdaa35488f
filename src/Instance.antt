-- ===== src/Instance.antt =====
-- The PurC instance of a thread, of source/aple/lecture-5/purc-instance.c: the statics of the process, the
-- structure of the instance, and the modules with their callbacks.
pub mod Modules
pub mod Setup
pub mod Local
use aple.Base.{
  ℕ, Bool, true, false, not, ◌||◌, Option, none, some, List, [], ◌∷◌, ◌++◌, ◌==◌, is_some,
}

-- The bytes of a C string.
abbrev pub Text : Type 0
Text = List ℕ

-- What the functions return: PURC_ERROR_OK, an error of their own, or what a callback returned.
pub data Ret : Type 0 where
  ok no_instance out_of_memory duplicated invalid_value too_small_buff : Ret
  failed : ℕ → Ret

-- `struct pcmodule`: the flags of the module, and whether its callbacks are not NULL.
pub record Module : Type 0 where
  pub id : ℕ
  pub init_once : Bool
  pub init_instance : Bool
  pub cleanup_instance : Bool

-- `fp_log`: NULL, a file, or LOG_FILE_SYSLOG
pub data Log : Type 0 where
  no_log file syslog : Log

-- `struct pcinst`, where a pointer that is not read is only NULL or not.
pub record Inst : Type 0 where
  pub modules : ℕ
  pub modules_inited : ℕ
  pub app_name : Option Text
  pub runner_name : Option Text
  pub endpoint_name : Text
  pub endpoint_atom : ℕ
  pub max_conns : ℕ
  pub cache_quota : ℕ
  pub enable_remote_fetcher : Bool
  pub auto_switching_rdr : Bool
  pub local_data_map : Bool
  pub fp_log : Log
  pub bt : Bool
  pub err_exinfo : Bool
  pub app_manifest : Bool
  pub errcode : ℕ

-- The calls of callbacks, of a module by its index, and of the other parts, in their order.
pub data Call : Type 0 where
  once : ℕ → Call
  init : ℕ → Call
  cleanup : ℕ → Call
  destroy_map : Call
  close_log : Call
  unref_bt : Call
  set_handlers : ℕ → Call

-- The statics, over a type of tables of atoms; `inst` is NULL where the thread has no memory for it.
pub record Process (A : Type 0) : Type 0 where
  pub inited : Bool
  pub init_ok : Bool
  pub module_inited : List Bool
  pub atoms : A
  pub inst : Option Inst
  pub calls : List Call

-- What the file calls: the callbacks by the index of their module, the atoms, the names, the log and the
-- constants. `leaves` is what a call leaves of the tables of atoms: `init_once` of a module interns its
-- atoms. Of the fields of the instance that stand here the callbacks change none. `assemble` gives the length that it returns and what it leaves in the buffer, of `buffer`
-- bytes; `intern` gives the table, the atom and whether it is new; `copy` is `strdup`; `conn` is what
-- `conn_to_rdr` holds behind the callbacks, `map_made` says whether
-- `pcutils_uomap_create` gives a map, and `clear_error` is `purc_clr_error`.
pub record Env (A : Type 0) : Type 0 where
  pub table : List Module
  pub once_of : ℕ → ℕ
  pub init_of : ℕ → ℕ
  pub leaves : Call → A → A
  pub intern : A → Text → A × ℕ × Bool
  pub remove : A → Text → A
  pub valid_app : Text → Bool
  pub valid_runner : Text → Bool
  pub assemble : Text → Text → ℕ × Text
  pub buffer : ℕ
  pub copy : Text → Option Text
  pub cmdline : Text
  pub conn : Option ℕ
  pub map_made : Bool
  pub clear_error : Inst → Inst
  pub same_but_case : Text → Text → Bool
  pub log_enable : Option Text
  pub log_syslog : Option Text
  pub enable_log : ℕ → Bool → Log
  pub mask_default : ℕ
  pub mask_all : ℕ
  pub mask_info : ℕ
  pub mask_debug : ℕ
  pub module_all : ℕ
  pub have_fetcher_r : ℕ

-- The tables of atoms behind calls.
unfoldable pub after_calls : {A : Type 0} → Env A → List Call → A → A
after_calls e [] a = a
after_calls e (c ∷ cs) a = after_calls e cs (e.leaves c a)

-- The process behind calls.
unfoldable pub make_calls : {A : Type 0} → Env A → Process A → List Call → Process A
unfolding after_calls
make_calls e p cs = record p { calls = p.calls ++ cs; atoms = after_calls e cs p.atoms }

-- `curr_inst->modules || curr_inst->app_name || curr_inst->runner_name`
abbrev pub in_use : Inst → Bool
in_use i = not (i.modules == 0) || is_some i.app_name || is_some i.runner_name
