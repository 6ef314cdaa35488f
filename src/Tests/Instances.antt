-- ===== src/Tests/Instances.antt =====
-- Runs of the PurC instance, on two modules that share their flags.

use aple.Base.{
  ℕ, ◌≡◌, refl, sym, ap, ◌∙◌, ◌+◌, Bool, true, false, none, some, List, [], ◌∷◌, ◌++◌, length,
}
use aple.Instance.{
  Text, Module, no_log, Inst, Process, Env, Call, once, init, cleanup, destroy_map, close_log,
  unref_bt, set_handlers,
}
use aple.Instance.Setup.{init_ex}
use aple.Instance.Setup.Rollback.{AtomLaws, Restores, init_ex-Restores}

abbrev shared_module : Module
shared_module = record { id = 1; init_once = true; init_instance = true; cleanup_instance = true }

-- The tables of atoms are the list of the names of endpoints and the number of the atoms of modules; a name
-- is new if there is none, and taken out from the front.
abbrev Tables : Type 0
Tables = List Text × ℕ

abbrev add_name : Tables → Text → Tables × ℕ × Bool
add_name ([], n) t = ((t ∷ [], n), 1, true)
add_name (a ∷ rest, n) t = ((a ∷ rest, n), 0, false)

abbrev remove_name : Tables → Text → Tables
remove_name ([], n) t = ([], n)
remove_name (a ∷ rest, n) t = (rest, n)

-- The initialiser of a module for the process interns an atom.
abbrev interns : Call → Tables → Tables
interns (once i) (names, n) = (names, n + 1)
interns c a = a

abbrev endpoints : Tables → List Text
endpoints a = a.0

-- The second module fails for an instance.
abbrev env : Env Tables
env = record {
  table = shared_module ∷ shared_module ∷ [];
  once_of = λ i. 0;
  init_of = λ i. i;
  leaves = interns;
  intern = add_name;
  remove = remove_name;
  valid_app = λ t. true;
  valid_runner = λ t. true;
  assemble = λ app runner. (length (app ++ runner), app ++ runner);
  buffer = 128;
  copy = λ t. some t;
  cmdline = [];
  conn = none;
  map_made = true;
  clear_error = λ i. i;
  same_but_case = λ s t. false;
  log_enable = none;
  log_syslog = none;
  enable_log = λ mask syslog. no_log;
  mask_default = 1;
  mask_all = 7;
  mask_info = 2;
  mask_debug = 4;
  module_all = 1;
  have_fetcher_r = 2;
}

abbrev blank : Inst
blank = record {
  modules = 0;
  modules_inited = 0;
  app_name = none;
  runner_name = none;
  endpoint_name = [];
  endpoint_atom = 0;
  max_conns = 0;
  cache_quota = 0;
  enable_remote_fetcher = false;
  auto_switching_rdr = false;
  local_data_map = false;
  fp_log = no_log;
  bt = false;
  err_exinfo = false;
  app_manifest = false;
  errcode = 0;
}

abbrev ready : Process Tables
ready = record {
  inited = true;
  init_ok = true;
  module_inited = true ∷ true ∷ [];
  atoms = ([], 0);
  inst = some blank;
  calls = [];
}

abbrev fresh : Process Tables
fresh = record ready { inited = false; init_ok = false; module_inited = false ∷ false ∷ [] }

new_name :
    (a : Tables) (t : Text)
    → (add_name a t).2 ≡ true
    → endpoints (remove_name (add_name a t).0 t) ≡ endpoints a
new_name ([], n) t e = refl
new_name (x ∷ a, n) t e = absurd cc

old_name :
    (a : Tables) (t : Text) → (add_name a t).2 ≡ false → endpoints (add_name a t).0 ≡ endpoints a
old_name ([], n) t e = absurd cc
old_name (x ∷ a, n) t e = refl

unfoldable behind_first : List Text → List Text
behind_first [] = []
behind_first (x ∷ a) = a

remove_name-endpoints : (a : Tables) (t : Text) → endpoints (remove_name a t) ≡ behind_first a.0
unfolding behind_first
remove_name-endpoints ([], n) t = refl
remove_name-endpoints (x ∷ a, n) t = refl

interns-endpoints : (c : Call) (a : Tables) → endpoints (interns c a) ≡ endpoints a
interns-endpoints (once i) a = refl
interns-endpoints (init i) a = refl
interns-endpoints (cleanup i) a = refl
interns-endpoints destroy_map a = refl
interns-endpoints close_log a = refl
interns-endpoints unref_bt a = refl
interns-endpoints (set_handlers c) a = refl

env-laws : AtomLaws env endpoints
env-laws = record {
  fresh = new_name;
  seen = old_name;
  removes =
      λ a b t e. remove_name-endpoints a t ∙ ap behind_first e ∙ sym (remove_name-endpoints b t);
  elsewhere = interns-endpoints;
}

-- In a new process the modules intern their atoms, and then the second fails for the instance.
init_ex-Restores_example : Restores env endpoints [] (init_ex env fresh 1 (some (65 ∷ [])) none)
init_ex-Restores_example =
    init_ex-Restores env endpoints fresh 1 (some (65 ∷ [])) none env-laws (λ t. refl) (λ i. refl)
      refl
