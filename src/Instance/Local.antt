-- ===== src/Instance/Local.antt =====
-- The local data of an instance and the clearing of its error, of source/aple/lecture-5/purc-instance.c.
use aple.Base.{ℕ, Bool, true, false, Option, none, some, List, [], ◌∷◌, if◌then◌else◌}
use aple.Base.Int.{ℤ, pos, negsuc}
use aple.Instance.{Text, Ret, out_of_memory, invalid_value, Call, unref_bt, Inst}

-- The maps that the file calls, over a type of maps: `insert` gives nothing where it fails, and `erase` where
-- the key is not in the map. A value stands with its callback.
pub record Maps (M : Type 0) : Type 0 where
  pub insert : M → Text → ℕ → ℕ → Option M
  pub erase : M → Text → Option M
  pub size : M → ℕ
  pub clear : M → M
  pub find : M → Text → Option (ℕ × ℕ)

-- What `pcinst_current` gives: nothing, or the map of the instance and the error that it holds last.
abbrev pub Current : Type 0 → Type 0
Current M = Option (M × Option Ret)

module _ {M : Type 0} (o : Maps M) where
  abbrev pub inserted : M → Option Ret → Option M → Current M × Bool
  inserted m err none = (some (m, some out_of_memory), false)
  inserted m err (some n) = (some (n, err), true)

  -- `purc_set_local_data`
  unfoldable pub set_local_data : Current M → Text → ℕ → ℕ → Current M × Bool
  set_local_data none name value free = (none, false)
  set_local_data (some (m, err)) name value free = inserted m err (o.insert m name value free)

  abbrev pub erased : M → Option Ret → Option M → Current M × ℤ
  erased m err none = (some (m, err), pos 0)
  erased m err (some n) = (some (n, err), pos 1)

  -- `purc_remove_local_data`; the name is none where it is NULL.
  unfoldable pub remove_local_data : Current M → Option Text → Current M × ℤ
  remove_local_data none name = (none, negsuc 0)
  remove_local_data (some (m, err)) (some name) = erased m err (o.erase m name)
  remove_local_data (some (m, err)) none = (some (o.clear m, err), pos (o.size m))

  abbrev pub found : M × Option Ret → Option (ℕ × ℕ) → Current M × ℤ × Option (ℕ × ℕ)
  found c none = (some c, pos 0, none)
  found c (some entry) = (some c, pos 1, some entry)

  -- `purc_get_local_data`, with the value and the callback that it stores.
  unfoldable pub get_local_data : Current M → Option Text → Current M × ℤ × Option (ℕ × ℕ)
  get_local_data none name = (none, negsuc 0, none)
  get_local_data (some (m, err)) none = (some (m, some invalid_value), negsuc 0, none)
  get_local_data (some (m, err)) (some name) = found (m, err) (o.find m name)

-- `pcinst_clear_error`, with the calls that it makes; the instance is none where it is NULL.
unfoldable pub clear_error : Option Inst → Option Inst × List Call
clear_error none = (none, [])
clear_error (some i) = (
  some (record i { errcode = 0; err_exinfo = false; bt = false }),
  if i.bt then unref_bt ∷ [] else [],
)
